-- ===== src/Reload/Tests.antt =====
-- A reload that lists two providers the other way round.
use clipal.Common.{
  ℕ, ◌≡◌, refl, ◌∷◌, [], List, true, Option, none, some, ℤ, pos, negsuc, Text, text, at?, eq_text,
  if◌then◌else◌, trim_space, to_lower, arith,
}
use clipal.Clock.{Time, Duration, seconds}
use clipal.CircuitBreaker.{CircuitBreaker, CircuitBreakerConfig, circuit_closed}
use clipal.CircuitBreaker.Invariant.{Inv}
use clipal.Providers.{Provider, scope_default, normalized_auth_type, normalized_oauth_provider}
use clipal.Failover.State.{
  ClientProxy, mode_auto, ProviderDeactivation, no_deactivation, not_busy, quota, scope_index,
  set_key_indices_for_scope, key_indices_for_scope,
}
use clipal.Common.Maps.{insert}
use clipal.Sticky.State.{StickyLookupEntry}
use clipal.Reload.Settings.{StickySessionsConfig, BusyBackpressureConfig}
use clipal.Reload.Inherit.{
  ProxyPolicy, Runtime, inherit_runtime_state, old_index_of, inherit_breaker_state,
  provider_name_at_index, new_index_of, inherit_entries, old_by_name_from, same_at,
  same_provider_runtime_identity, inherit_keys_from, key_index_by_value, inherit_key,
  inherit_key_state, inherit_provider, inherit_providers, inherit_breaker_at, copy_at,
}
use clipal.Reload.Identity.{Successor}
use clipal.Reload.Cursors.{cursor_name, cursor_name-inherit_runtime_state}
use clipal.Reload.Health.{inherited, inherit_runtime_state-deactivated, inherit_breaker_state-Inv}

abbrev provider : Text → Provider
provider name = record {
  name = name;
  auth_type = [];
  oauth_provider = [];
  oauth_ref = [];
  base_url = text "https://a";
}

abbrev policy : ProxyPolicy
policy = record { mode = text "direct"; url = [] }

abbrev ended : ProviderDeactivation
ended = record { at = 5; until = 900; reason = quota; status = 429; message = [] }

abbrev proxy : List Provider → List (List Text) → ClientProxy
proxy providers keys = record {
  mode = mode_auto;
  providers = providers;
  provider_keys = keys;
  current_index = pos 0;
  count_tokens_index = pos 0;
  responses_index = pos 0;
  gemini_stream_index = pos 0;
  current_key_index = pos 0 ∷ pos 0 ∷ [];
  count_tokens_key_index = pos 0 ∷ pos 0 ∷ [];
  responses_key_index = pos 0 ∷ pos 0 ∷ [];
  gemini_stream_key_index = pos 0 ∷ pos 0 ∷ [];
  deactivated = no_deactivation ∷ no_deactivation ∷ [];
  key_deactivated =
      (no_deactivation ∷ no_deactivation ∷ []) ∷ (no_deactivation ∷ no_deactivation ∷ []) ∷ [];
  provider_busy = not_busy ∷ not_busy ∷ [];
  reactivate_after = seconds 60;
  routing = record {
    busy_retry_delays = seconds 5 ∷ [];
    busy_probe_max_in_flight = pos 1;
    max_inline_wait = seconds 8;
  };
  breakers = none ∷ none ∷ [];
}

abbrev old_cp : ClientProxy
old_cp =
    let cp : ClientProxy =
      proxy (provider (text "a") ∷ provider (text "b") ∷ [])
        ((text "x" ∷ []) ∷ (text "y" ∷ text "z" ∷ []) ∷ []) in
    record cp {
      current_index = pos 1;
      current_key_index = pos 0 ∷ pos 1 ∷ [];
      deactivated = no_deactivation ∷ ended ∷ [];
      key_deactivated = (no_deactivation ∷ []) ∷ (no_deactivation ∷ ended ∷ []) ∷ [];
    }

abbrev old_runtime : Runtime
old_runtime = record { cp = old_cp; policies = policy ∷ policy ∷ [] }

abbrev new_runtime : Runtime
new_runtime = record {
  cp =
      proxy (provider (text "b") ∷ provider (text "a") ∷ [])
        ((text "z" ∷ text "y" ∷ []) ∷ (text "x" ∷ []) ∷ []);
  policies = policy ∷ policy ∷ [];
}

cursor_name-inherit_runtime_state_example :
    cursor_name (inherit_runtime_state new_runtime old_runtime).cp scope_default
    ≡ cursor_name old_cp scope_default
unfolding provider_name_at_index scope_index eq_text
cursor_name-inherit_runtime_state_example =
    cursor_name-inherit_runtime_state new_runtime old_runtime scope_default refl refl refl

inherit_runtime_state-deactivated_example :
    (from : Option ℕ) × Successor old_runtime (provider (text "b")) policy from
    × (at? (inherit_runtime_state new_runtime old_runtime).cp.deactivated (pos 0)
        ≡ some (inherited old_runtime from no_deactivation))
inherit_runtime_state-deactivated_example =
    inherit_runtime_state-deactivated new_runtime old_runtime 0 (provider (text "b")) policy
      no_deactivation refl refl refl

-- The quarantine of b and of its key z, and the cursor at z, are at their new places.
after_reload :
    (inherit_runtime_state new_runtime old_runtime).cp.deactivated ≡ ended ∷ no_deactivation ∷ []
unfolding inherit_runtime_state inherit_providers inherit_provider inherit_key_state
    inherit_keys_from inherit_key key_index_by_value copy_at inherit_breaker_at old_index_of
    old_by_name_from same_at same_provider_runtime_identity eq_text normalized_auth_type
    normalized_oauth_provider trim_space to_lower set_key_indices_for_scope key_indices_for_scope
after_reload = refl

keys_after_reload :
    (inherit_runtime_state new_runtime old_runtime).cp.key_deactivated
    ≡ (ended ∷ no_deactivation ∷ []) ∷ (no_deactivation ∷ no_deactivation ∷ []) ∷ []
unfolding inherit_runtime_state inherit_providers inherit_provider inherit_key_state
    inherit_keys_from inherit_key key_index_by_value copy_at inherit_breaker_at old_index_of
    old_by_name_from same_at same_provider_runtime_identity eq_text normalized_auth_type
    normalized_oauth_provider trim_space to_lower set_key_indices_for_scope key_indices_for_scope
keys_after_reload = refl

abbrev config : CircuitBreakerConfig
config = record {
  enabled = true;
  failure_threshold = pos 3;
  success_threshold = pos 1;
  open_timeout = seconds 60;
  half_open_max_in_flight = pos 1;
}

abbrev breaker : Time → CircuitBreaker
breaker failures = record {
  cfg = config;
  state = circuit_closed;
  consecutive_failures = failures;
  consecutive_successes = 0;
  opened_at = 0;
  half_open_in_flight = 0;
}

inherit_breaker_state-Inv_example :
    (b : CircuitBreaker) × (inherit_breaker_state (some (breaker 0)) (some (breaker 2)) ≡ some b)
    × Inv b
inherit_breaker_state-Inv_example =
    inherit_breaker_state-Inv (breaker 0) (breaker 2) (ground arith) (ground arith)

abbrev sticky_config : StickySessionsConfig
sticky_config = record {
  explicit_ttl = text "10m";
  cache_hint_ttl = [];
  dynamic_feature_ttl = text "-1s";
  dynamic_feature_capacity = negsuc 4;
  response_lookup_ttl = text "x";
}

abbrev busy_config : BusyBackpressureConfig
busy_config = record {
  retry_delays = text "-1s" ∷ [];
  probe_max_inflight = pos 0;
  short_retry_after_max = [];
  max_inline_wait = [];
}

abbrev parse : Text → Option Duration
parse s =
    if eq_text s (text "10m")
    then some (seconds 600)
    else if eq_text s (text "-1s")
    then some (negsuc 999_999_999)
    else none

abbrev entry : ℤ → StickyLookupEntry
entry index = record { provider_index = index; key_index = pos 0; last_seen_at = 0; source = [] }

-- The entry of b follows it, with a time; the one of a provider that is gone is dropped.
entries_after_reload :
    inherit_entries
      (new_index_of old_runtime 0 new_runtime.cp.providers new_runtime.policies)
      7
      ((text "k", entry (pos 1)) ∷ (text "l", entry (pos 9)) ∷ [])
      []
    ≡ (text "k", record (entry (pos 0)) { last_seen_at = 7 }) ∷ []
unfolding inherit_entries new_index_of old_index_of old_by_name_from same_at
    same_provider_runtime_identity eq_text normalized_auth_type normalized_oauth_provider trim_space
    to_lower insert
entries_after_reload = refl
