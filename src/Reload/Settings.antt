-- ===== src/Reload/Settings.antt =====
-- internal/proxy/proxy.go: the settings of routing, from the configuration. `time.ParseDuration` is a
-- parameter.
use clipal.Common.{
  ltb_ℤ, if◌then◌else◌, List, [], ◌∷◌, Option, none, some, ℤ, pos, Text, trim_space, ◌≤ℤ◌, arith,
  Bool-cases, inl, inr,
}
use clipal.Clock.{Duration, seconds}

pub record StickySessionsConfig : Type 0 where
  pub explicit_ttl : Text
  pub cache_hint_ttl : Text
  pub dynamic_feature_ttl : Text
  pub dynamic_feature_capacity : ℤ
  pub response_lookup_ttl : Text

pub record BusyBackpressureConfig : Type 0 where
  pub retry_delays : List Text
  pub probe_max_inflight : ℤ
  pub short_retry_after_max : Text
  pub max_inline_wait : Text

pub record RoutingRuntimeSettings : Type 0 where
  pub explicit_ttl : Duration
  pub cache_hint_ttl : Duration
  pub dynamic_feature_ttl : Duration
  pub response_lookup_ttl : Duration
  pub dynamic_feature_capacity : ℤ
  pub busy_retry_delays : List Duration
  pub busy_probe_max_in_flight : ℤ
  pub short_retry_after_max : Duration
  pub max_inline_wait : Duration

unfoldable pub default_routing_runtime_settings : RoutingRuntimeSettings
default_routing_runtime_settings = record {
  explicit_ttl = seconds 1800;
  cache_hint_ttl = seconds 600;
  dynamic_feature_ttl = seconds 600;
  response_lookup_ttl = seconds 900;
  dynamic_feature_capacity = pos 1024;
  busy_retry_delays = seconds 5 ∷ seconds 10 ∷ [];
  busy_probe_max_in_flight = pos 1;
  short_retry_after_max = seconds 3;
  max_inline_wait = seconds 8;
}

-- `if d, err := time.ParseDuration(...); err == nil && d > 0`
unfoldable pub positive_or : Option Duration → Duration → Duration
positive_or none default = default
positive_or (some d) default = if ltb_ℤ (pos 0) d then d else default

abbrev add_delay : Option Duration → List Duration → List Duration
add_delay none delays = delays
add_delay (some d) delays = if ltb_ℤ (pos 0) d then d ∷ delays else delays

unfoldable pub positive_delays : (Text → Option Duration) → List Text → List Duration
positive_delays parse [] = []
positive_delays parse (raw ∷ more) = add_delay (parse (trim_space raw)) (positive_delays parse more)

abbrev unless_empty : List Duration → List Duration → List Duration
unless_empty [] default = default
unless_empty (d ∷ delays) default = d ∷ delays

unfoldable pub routing_runtime_settings_from_config :
    (Text → Option Duration)
    → StickySessionsConfig
    → BusyBackpressureConfig
    → RoutingRuntimeSettings
routing_runtime_settings_from_config parse sticky busy =
    let default = default_routing_runtime_settings in
    record {
      explicit_ttl = positive_or (parse (trim_space sticky.explicit_ttl)) default.explicit_ttl;
      cache_hint_ttl =
          positive_or (parse (trim_space sticky.cache_hint_ttl)) default.cache_hint_ttl;
      dynamic_feature_ttl =
          positive_or (parse (trim_space sticky.dynamic_feature_ttl)) default.dynamic_feature_ttl;
      response_lookup_ttl =
          positive_or (parse (trim_space sticky.response_lookup_ttl)) default.response_lookup_ttl;
      dynamic_feature_capacity =
          if ltb_ℤ (pos 0) sticky.dynamic_feature_capacity
          then sticky.dynamic_feature_capacity
          else default.dynamic_feature_capacity;
      busy_retry_delays =
          unless_empty (positive_delays parse busy.retry_delays) default.busy_retry_delays;
      busy_probe_max_in_flight =
          if ltb_ℤ (pos 0) busy.probe_max_inflight
          then busy.probe_max_inflight
          else default.busy_probe_max_in_flight;
      short_retry_after_max =
          positive_or (parse (trim_space busy.short_retry_after_max)) default.short_retry_after_max;
      max_inline_wait =
          positive_or (parse (trim_space busy.max_inline_wait)) default.max_inline_wait;
    }

-- All the delays are positive, and there is one.
abbrev ArePositive : List Duration → Type 0
ArePositive [] = Unit {0}
ArePositive (d ∷ delays) = (pos 1 ≤ℤ d) × ArePositive delays

abbrev AreDelays : List Duration → Type 0
AreDelays [] = ⊥
AreDelays (d ∷ delays) = (pos 1 ≤ℤ d) × ArePositive delays

-- Settings that routing can work with.
abbrev pub IsUsable : RoutingRuntimeSettings → Type 0
IsUsable r =
    (pos 1 ≤ℤ r.explicit_ttl)
    × (pos 1 ≤ℤ r.cache_hint_ttl)
    × (pos 1 ≤ℤ r.dynamic_feature_ttl)
    × (pos 1 ≤ℤ r.response_lookup_ttl)
    × (pos 1 ≤ℤ r.dynamic_feature_capacity)
    × (pos 1 ≤ℤ r.busy_probe_max_in_flight)
    × (pos 1 ≤ℤ r.short_retry_after_max)
    × (pos 1 ≤ℤ r.max_inline_wait)
    × AreDelays r.busy_retry_delays

positive_or-le :
    (parsed : Option Duration) (default : Duration)
    → pos 1 ≤ℤ default
    → pos 1 ≤ℤ positive_or parsed default
unfolding positive_or
positive_or-le none default h = h
positive_or-le (some d) default h = ground arith

add_delay-ArePositive :
    (parsed : Option Duration) (delays : List Duration)
    → ArePositive delays
    → ArePositive (add_delay parsed delays)
add_delay-ArePositive none delays h = h
add_delay-ArePositive (some d) delays h = elim (Bool-cases (ltb_ℤ (pos 0) d)) [
  | inl e ↦ rw e (ground arith, h)
  | inr e ↦ rw e h
]

positive_delays-ArePositive :
    (parse : Text → Option Duration) (raws : List Text) → ArePositive (positive_delays parse raws)
unfolding positive_delays
positive_delays-ArePositive parse [] = tt
positive_delays-ArePositive parse (raw ∷ more) =
    add_delay-ArePositive (parse (trim_space raw)) (positive_delays parse more)
      (positive_delays-ArePositive parse more)

unless_empty-AreDelays :
    (delays default : List Duration)
    → ArePositive delays
    → AreDelays default
    → AreDelays (unless_empty delays default)
unless_empty-AreDelays [] default h k = k
unless_empty-AreDelays (d ∷ delays) default h k = h

positive_int :
    (n default : ℤ) → pos 1 ≤ℤ default → pos 1 ≤ℤ (if ltb_ℤ (pos 0) n then n else default)
positive_int n default h = ground arith

-- Whatever the configuration says, and whatever of it does not parse, the settings that routing gets
-- have positive times to live, waits, capacity and number of probes, and at least one delay, all
-- delays being positive.
pub routing_runtime_settings_from_config-IsUsable :
    (parse : Text → Option Duration) (sticky : StickySessionsConfig) (busy : BusyBackpressureConfig)
    → IsUsable (routing_runtime_settings_from_config parse sticky busy)
unfolding routing_runtime_settings_from_config default_routing_runtime_settings
routing_runtime_settings_from_config-IsUsable parse sticky busy = (
  positive_or-le (parse (trim_space sticky.explicit_ttl)) (seconds 1800) (omega arith),
  positive_or-le (parse (trim_space sticky.cache_hint_ttl)) (seconds 600) (omega arith),
  positive_or-le (parse (trim_space sticky.dynamic_feature_ttl)) (seconds 600) (omega arith),
  positive_or-le (parse (trim_space sticky.response_lookup_ttl)) (seconds 900) (omega arith),
  positive_int sticky.dynamic_feature_capacity (pos 1024) (omega arith),
  positive_int busy.probe_max_inflight (pos 1) (omega arith),
  positive_or-le (parse (trim_space busy.short_retry_after_max)) (seconds 3) (omega arith),
  positive_or-le (parse (trim_space busy.max_inline_wait)) (seconds 8) (omega arith),
  unless_empty-AreDelays (positive_delays parse busy.retry_delays) (seconds 5 ∷ seconds 10 ∷ [])
      (positive_delays-ArePositive parse busy.retry_delays) (omega arith, (omega arith, tt)),
)
