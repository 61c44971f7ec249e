-- ===== src/Reload/Inherit.antt =====
-- internal/proxy/proxy.go: what a reloaded proxy takes over. A write outside a slice, which the code
-- cannot do on slices that are as long as the providers, changes nothing.
use clipal.Common.{
  ℕ, suc, Bool, true, false, ◌&&◌, not, if◌then◌else◌, List, [], ◌∷◌, Option, none, some, ℤ, pos,
  negsuc, eqb_ℤ, ltb_ℤ, at?, set_at, Text, eq_text, is_empty, trim_space,
}
use clipal.Common.Maps.{insert}
use clipal.Clock.{Time, is_zero}
use clipal.CircuitBreaker.{CircuitBreaker, CircuitBreakerConfig}
use clipal.Providers.{
  Provider, RoutingScope, scope_default, scope_claude_count_tokens, scope_openai_responses,
  scope_gemini_stream, normalized_auth_type, normalized_oauth_provider,
}
use clipal.Failover.State.{
  ClientProxy, ClientMode, mode_manual, mode_auto, key_indices_for_scope, set_key_indices_for_scope,
}
use clipal.Sticky.State.{StickyBinding, StickyLookupEntry, StickyState}

-- `upstreamProxyPolicyKey`
pub record ProxyPolicy : Type 0 where
  pub mode : Text
  pub url : Text

-- A proxy with the policies of its providers.
pub record Runtime : Type 0 where
  pub cp : ClientProxy
  pub policies : List ProxyPolicy

unfoldable pub same_provider_runtime_identity :
    Provider → ProxyPolicy → Provider → ProxyPolicy → Bool
same_provider_runtime_identity a a_policy b b_policy =
    eq_text a.name b.name
    && (eq_text (normalized_auth_type a) (normalized_auth_type b)
        && (eq_text (trim_space a.base_url) (trim_space b.base_url)
            && (eq_text (normalized_oauth_provider a) (normalized_oauth_provider b)
                && (eq_text (trim_space a.oauth_ref) (trim_space b.oauth_ref)
                    && (eq_text a_policy.mode b_policy.mode
                        && eq_text a_policy.url b_policy.url)))))

-- The first index of a name, from `i` on; -1 if there is none.
unfoldable pub index_by_name_from : ℕ → List Provider → Text → ℤ
index_by_name_from i [] name = negsuc 0
index_by_name_from i (p ∷ providers) name =
    let rest = index_by_name_from (suc i) providers name in
    if eq_text p.name name then pos i else rest

unfoldable pub provider_index_by_name : List Provider → Text → ℤ
provider_index_by_name providers name = index_by_name_from 0 providers name

abbrev pub name_of : Option Provider → Text
name_of none = []
name_of (some p) = p.name

unfoldable pub provider_name_at_index : List Provider → ℤ → Text
provider_name_at_index providers index = name_of (at? providers index)

abbrev later_or : Option ℕ → Option ℕ → Option ℕ
later_or none first = first
later_or (some i) first = some i

-- `oldByName[name]`: the map holds the last index of a name.
unfoldable pub old_by_name_from : ℕ → List Provider → Text → Option ℕ
old_by_name_from i [] name = none
old_by_name_from i (p ∷ providers) name =
    later_or (old_by_name_from (suc i) providers name)
      (if eq_text p.name name then some i else none)

unfoldable pub same_at : Runtime → Provider → ProxyPolicy → ℕ → Bool
same_at old p policy old_idx = elim (at? old.cp.providers (pos old_idx)) [
  | none ↦ false
  | some q ↦ elim (at? old.policies (pos old_idx)) [
    | none ↦ false
    | some old_policy ↦ same_provider_runtime_identity p policy q old_policy
  ]
]

-- The provider of the old proxy that a provider of the new one is the same as.
unfoldable pub old_index_of : Runtime → Provider → ProxyPolicy → Option ℕ
old_index_of old p policy = elim (old_by_name_from 0 old.cp.providers p.name) [
  | none ↦ none
  | some old_idx ↦ if same_at old p policy old_idx then some old_idx else none
]

abbrev pub put_some {ℓ} : {A : Type ℓ} → List A → ℕ → Option A → List A
put_some dst i none = dst
put_some dst i (some v) = set_at dst (pos i) v

-- dst[i] = src[j]
unfoldable pub copy_at {ℓ} : {A : Type ℓ} → List A → ℕ → List A → ℕ → List A
copy_at dst i src j = put_some dst i (at? src (pos j))

abbrev same_bool : Bool → Bool → Bool
same_bool true b = b
same_bool false b = not b

unfoldable pub same_config : CircuitBreakerConfig → CircuitBreakerConfig → Bool
same_config a b =
    same_bool a.enabled b.enabled
    && (eqb_ℤ a.failure_threshold b.failure_threshold
        && (eqb_ℤ a.success_threshold b.success_threshold
            && (eqb_ℤ a.open_timeout b.open_timeout
                && eqb_ℤ a.half_open_max_in_flight b.half_open_max_in_flight)))

-- A breaker that does not exist is nil.
unfoldable pub inherit_breaker_state :
    Option CircuitBreaker → Option CircuitBreaker → Option CircuitBreaker
inherit_breaker_state none src = none
inherit_breaker_state (some dst) none = some dst
inherit_breaker_state (some dst) (some src) =
    if not (same_config dst.cfg src.cfg)
    then some dst
    else some (record dst {
      state = src.state;
      consecutive_failures = src.consecutive_failures;
      consecutive_successes = src.consecutive_successes;
      opened_at = src.opened_at;
      half_open_in_flight = src.half_open_in_flight;
    })

abbrev join_option {ℓ} : {A : Type ℓ} → Option (Option A) → Option A
join_option none = none
join_option (some o) = o

unfoldable pub inherit_breaker_at :
    List (Option CircuitBreaker)
    → ℕ
    → List (Option CircuitBreaker)
    → ℕ
    → List (Option CircuitBreaker)
inherit_breaker_at dst i src j = elim (at? dst (pos i)) [
  | none ↦ dst
  | some breaker ↦
      set_at dst (pos i) (inherit_breaker_state breaker (join_option (at? src (pos j))))
]

-- `srcKeyIndexByValue[key]`: the first index of a key.
unfoldable pub key_index_by_value : ℕ → List Text → Text → Option ℕ
key_index_by_value i [] key = none
key_index_by_value i (k ∷ keys) key =
    let rest = key_index_by_value (suc i) keys key in if eq_text k key then some i else rest

abbrev pub or_empty {ℓ} : {A : Type ℓ} → Option (List A) → List A
or_empty none = []
or_empty (some xs) = xs

-- `if a, ok := o; ok { ... }`, where nothing is done otherwise.
abbrev pub when_some {ℓ} : {A : Type ℓ} → Option A → (A → ClientProxy) → ClientProxy → ClientProxy
when_some none f cp = cp
when_some (some a) f cp = f a

-- The cursor of a scope follows the key that it stood at.
abbrev pub follow_key : ClientProxy → ℕ → ℕ → ClientProxy → ℕ → ℕ → RoutingScope → ClientProxy
follow_key dst dst_provider dst_key src src_provider src_key scope =
    when_some (at? (key_indices_for_scope src scope) (pos src_provider))
      (λ cursor.
        if eqb_ℤ cursor (pos src_key)
        then set_key_indices_for_scope dst
            (set_at (key_indices_for_scope dst scope) (pos dst_provider) (pos dst_key)) scope
        else dst)
      dst

-- The body of the loop over the keys of the new provider, for a key that the old one had.
unfoldable pub inherit_key : ClientProxy → ℕ → ℕ → ClientProxy → ℕ → ℕ → ClientProxy
inherit_key dst dst_provider dst_key src src_provider src_key =
    let quarantines =
      copy_at (or_empty (at? dst.key_deactivated (pos dst_provider))) dst_key
        (or_empty (at? src.key_deactivated (pos src_provider))) src_key in
    let dst' : ClientProxy = record dst {
      key_deactivated = set_at dst.key_deactivated (pos dst_provider) quarantines;
    } in
    let a = follow_key dst' dst_provider dst_key src src_provider src_key scope_default in
    let b = follow_key a dst_provider dst_key src src_provider src_key scope_claude_count_tokens in
    let c = follow_key b dst_provider dst_key src src_provider src_key scope_openai_responses in
    follow_key c dst_provider dst_key src src_provider src_key scope_gemini_stream

unfoldable pub inherit_keys_from :
    List Text → ℕ → List Text → ℕ → ClientProxy → ℕ → ClientProxy → ClientProxy
inherit_keys_from src_keys dst_key [] dst_provider src src_provider dst = dst
inherit_keys_from src_keys dst_key (key ∷ keys) dst_provider src src_provider dst =
    let dst' : ClientProxy =
      when_some (key_index_by_value 0 src_keys key)
        (λ src_key. inherit_key dst dst_provider dst_key src src_provider src_key) dst in
    inherit_keys_from src_keys (suc dst_key) keys dst_provider src src_provider dst'

unfoldable pub inherit_key_state : ClientProxy → ℕ → ClientProxy → ℕ → ClientProxy
inherit_key_state dst dst_provider src src_provider =
    when_some (at? dst.provider_keys (pos dst_provider))
      (λ dst_keys.
        when_some (at? src.provider_keys (pos src_provider))
          (λ src_keys. inherit_keys_from src_keys 0 dst_keys dst_provider src src_provider dst) dst)
      dst

-- What a provider takes over from the one that it is the same as.
unfoldable pub inherit_provider : ClientProxy → ℕ → ClientProxy → ℕ → ClientProxy
inherit_provider cp new_idx old old_idx =
    let healthy : ClientProxy = record cp {
      deactivated = copy_at cp.deactivated new_idx old.deactivated old_idx;
      provider_busy = copy_at cp.provider_busy new_idx old.provider_busy old_idx;
    } in
    let keyed = inherit_key_state healthy new_idx old old_idx in
    record keyed { breakers = inherit_breaker_at keyed.breakers new_idx old.breakers old_idx }

-- The loop over the new providers with their policies.
unfoldable pub inherit_providers :
    Runtime → ℕ → List Provider → List ProxyPolicy → ClientProxy → ClientProxy
inherit_providers old new_idx [] policies cp = cp
inherit_providers old new_idx (p ∷ providers) [] cp = cp
inherit_providers old new_idx (p ∷ providers) (policy ∷ policies) cp =
    let cp' : ClientProxy =
      when_some (old_index_of old p policy) (λ old_idx. inherit_provider cp new_idx old.cp old_idx)
        cp in
    inherit_providers old (suc new_idx) providers policies cp'

-- A cursor follows the name of the provider that it stood at, but not in manual mode.
unfoldable pub follow_name : ClientMode → List Provider → List Provider → ℤ → ℤ → ℤ
follow_name mode_manual providers old_providers old_index index = index
follow_name mode_auto providers old_providers old_index index =
    let name = provider_name_at_index old_providers old_index in
    let idx = provider_index_by_name providers name in
    if is_empty name then index else if ltb_ℤ idx (pos 0) then index else idx

unfoldable pub inherit_runtime_state : Runtime → Runtime → Runtime
inherit_runtime_state new old =
    let cp = inherit_providers old 0 new.cp.providers new.policies new.cp in
    let follow : ℤ → ℤ → ℤ =
      λ old_index index. follow_name cp.mode cp.providers old.cp.providers old_index index in
    record new {
      cp = record cp {
        current_index = follow old.cp.current_index cp.current_index;
        count_tokens_index = follow old.cp.count_tokens_index cp.count_tokens_index;
        responses_index = follow old.cp.responses_index cp.responses_index;
        gemini_stream_index = follow old.cp.gemini_stream_index cp.gemini_stream_index;
      };
    }

-- `newByOldIndex`: the last new provider that is the same as an old one.
unfoldable pub new_index_of : Runtime → ℕ → List Provider → List ProxyPolicy → ℤ → Option ℕ
new_index_of old new_idx [] policies index = none
new_index_of old new_idx (p ∷ providers) [] index = none
new_index_of old new_idx (p ∷ providers) (policy ∷ policies) index =
    let first : Option ℕ = elim (old_index_of old p policy) [
      | none ↦ none
      | some old_idx ↦ if eqb_ℤ index (pos old_idx) then some new_idx else none
    ] in
    later_or (new_index_of old (suc new_idx) providers policies index) first

-- The entries whose provider is there, under its new index; a time that was never set is now.
unfoldable pub inherit_entries :
    (ℤ → Option ℕ)
    → Time
    → List (Text × StickyLookupEntry)
    → List (Text × StickyLookupEntry)
    → List (Text × StickyLookupEntry)
inherit_entries index_map now [] dst = dst
inherit_entries index_map now ((key, entry) ∷ src) dst =
    let kept = inherit_entries index_map now src dst in
    elim (index_map entry.provider_index) [
      | none ↦ kept
      | some new_index ↦ inherit_entries index_map now src (
          insert dst key (record entry {
            provider_index = pos new_index;
            last_seen_at = if is_zero entry.last_seen_at then now else entry.last_seen_at;
          }))
    ]

unfoldable pub inherit_bindings :
    (ℤ → Option ℕ)
    → Time
    → List (Text × StickyBinding)
    → List (Text × StickyBinding)
    → List (Text × StickyBinding)
inherit_bindings index_map now [] dst = dst
inherit_bindings index_map now ((key, binding) ∷ src) dst =
    let kept = inherit_bindings index_map now src dst in
    elim (index_map binding.provider_index) [
      | none ↦ kept
      | some new_index ↦ inherit_bindings index_map now src (
          insert dst key (record binding {
            provider_index = pos new_index;
            last_seen_at = if is_zero binding.last_seen_at then now else binding.last_seen_at;
          }))
    ]

unfoldable pub inherit_sticky_runtime_state :
    (ℤ → Option ℕ) → Time → StickyState → StickyState → StickyState
inherit_sticky_runtime_state index_map now dst src = record dst {
  sticky_bindings = inherit_bindings index_map now src.sticky_bindings dst.sticky_bindings;
  response_lookup = inherit_entries index_map now src.response_lookup dst.response_lookup;
  dynamic_feature_bindings =
      inherit_entries index_map now src.dynamic_feature_bindings dst.dynamic_feature_bindings;
}
