-- ===== src/Failover/Tests.antt =====
-- The theorems of failover at a proxy with two providers, of which the first has two keys.
use clipal.Common.{◌≡◌, refl, ◌↔◌, true, [], ◌∷◌, none, pos, arith, Text, text}
use clipal.Clock.{seconds}
use clipal.Providers.{Provider, scope_default, scope_openai_responses, openai_responses}
use clipal.Failover.State.{
  ClientProxy, no_deactivation, not_busy, mode_auto, quota, key_indices_for_scope,
}
use clipal.Failover.Availability.{
  is_deactivated, key_deactivation_at?, is_key_deactivated, available_key_count, keys_of,
  count_available_keys, provider_available_for_routing,
}
use clipal.Failover.Availability.Routing.{IsRoutable, provider_available_for_routing_iff}
use clipal.Failover.Cursors.{
  next_active_index, get_active_count_and_start_index_for_scope,
  get_active_key_count_and_start_index_for_scope, count_tokens_single_shot_target,
}
use clipal.Failover.Cursors.Providers.{
  NextActive, next_active_index-NextActive, Started,
  get_active_count_and_start_index_for_scope-Started,
}
use clipal.Failover.Cursors.Keys.{
  KeyStarted, get_active_key_count_and_start_index_for_scope-KeyStarted,
}
use clipal.Failover.Cursors.Targets.{Targeted, count_tokens_single_shot_target-Targeted}
use clipal.Failover.Quarantine.{Failure, reactivate_expired, deactivate_for, deactivate_key_for}
use clipal.Failover.Quarantine.Sweep.{reactivate_expired_invisible}
use clipal.Failover.Quarantine.Providers.{deactivate_for_exact}
use clipal.Failover.Quarantine.Keys.{deactivate_key_for_exact}

abbrev provider : Text → Provider
provider name = record {
  name = name;
  auth_type = [];
  oauth_provider = [];
  oauth_ref = [];
  base_url = [];
}

abbrev proxy : ClientProxy
proxy = record {
  mode = mode_auto;
  providers = provider (text "a") ∷ provider (text "b") ∷ [];
  provider_keys = (text "k1" ∷ text "k2" ∷ []) ∷ (text "k3" ∷ []) ∷ [];
  current_index = pos 0;
  count_tokens_index = pos 0;
  responses_index = pos 1;
  gemini_stream_index = pos 0;
  current_key_index = pos 0 ∷ pos 0 ∷ [];
  count_tokens_key_index = pos 0 ∷ pos 0 ∷ [];
  responses_key_index = pos 0 ∷ pos 0 ∷ [];
  gemini_stream_key_index = pos 0 ∷ pos 0 ∷ [];
  deactivated = no_deactivation ∷ no_deactivation ∷ [];
  key_deactivated = (no_deactivation ∷ no_deactivation ∷ []) ∷ (no_deactivation ∷ []) ∷ [];
  provider_busy = not_busy ∷ not_busy ∷ [];
  reactivate_after = seconds 60;
  routing = record {
    busy_retry_delays = seconds 5 ∷ seconds 10 ∷ [];
    busy_probe_max_in_flight = pos 1;
    max_inline_wait = seconds 8;
  };
  breakers = none ∷ none ∷ [];
}

abbrev failure : Failure
failure = record { reason = quota; status = 429; message = [] }

-- The first key of the first provider is quarantined until 30.
abbrev limited : ClientProxy
limited = record proxy {
  key_deactivated =
      (record { at = 10; until = 30; reason = quota; status = 429; message = [] }
        ∷ no_deactivation
        ∷ [])
      ∷ (no_deactivation ∷ [])
      ∷ [];
}

two_keys : available_key_count proxy (pos 0) 5 ≡ 2
unfolding available_key_count keys_of count_available_keys is_key_deactivated key_deactivation_at?
two_keys = refl

one_key : available_key_count limited (pos 0) 12 ≡ 1
unfolding available_key_count keys_of count_available_keys is_key_deactivated key_deactivation_at?
one_key = refl

provider_available_for_routing_iff_example :
    (provider_available_for_routing limited (pos 0) 12 ≡ true) ↔ IsRoutable limited (pos 0) 12
provider_available_for_routing_iff_example = provider_available_for_routing_iff limited (pos 0) 12

next_active_index-NextActive_example : NextActive proxy 5 0 (next_active_index proxy (pos 0) 5)
next_active_index-NextActive_example = next_active_index-NextActive proxy 5 0 (omega arith)

get_active_count_and_start_index_for_scope-Started_example :
    Started proxy scope_openai_responses openai_responses 5
      (get_active_count_and_start_index_for_scope proxy scope_openai_responses openai_responses 5)
get_active_count_and_start_index_for_scope-Started_example =
    get_active_count_and_start_index_for_scope-Started proxy scope_openai_responses openai_responses
      5

get_active_key_count_and_start_index_for_scope-KeyStarted_example :
    KeyStarted limited
      (pos 0)
      12
      scope_default
      (pos 0)
      (get_active_key_count_and_start_index_for_scope limited (pos 0) scope_default 12)
unfolding key_indices_for_scope
get_active_key_count_and_start_index_for_scope-KeyStarted_example =
    get_active_key_count_and_start_index_for_scope-KeyStarted limited (pos 0) 12 scope_default
      (pos 0) refl

count_tokens_single_shot_target-Targeted_example :
    Targeted limited 12 (count_tokens_single_shot_target limited 12)
count_tokens_single_shot_target-Targeted_example =
    count_tokens_single_shot_target-Targeted limited 12

reactivate_expired_invisible_example :
    (provider_available_for_routing (reactivate_expired limited 31) (pos 0) 40
      ≡ provider_available_for_routing limited (pos 0) 40)
    × (available_key_count (reactivate_expired limited 31) (pos 0) 40
        ≡ available_key_count limited (pos 0) 40)
reactivate_expired_invisible_example =
    reactivate_expired_invisible 31 40 (omega arith) limited (pos 0)

deactivate_for_exact_example :
    is_deactivated (deactivate_for proxy (pos 0) failure (pos 20) 10 11 (λ s. 12)) (pos 0) 30 ≡ true
deactivate_for_exact_example =
    deactivate_for_exact proxy (pos 0) failure 20 10 11 (λ s. 12) no_deactivation refl refl
      (omega arith) (pos 0) 30

deactivate_key_for_exact_example :
    is_key_deactivated
      (deactivate_key_for proxy (pos 0) (pos 0) failure (pos 20) 10)
      (pos 0)
      (pos 0)
      29
    ≡ true
deactivate_key_for_exact_example =
    deactivate_key_for_exact proxy (pos 0) (pos 0) failure 20 10 no_deactivation
      (unfold key_deactivation_at? in refl) refl (omega arith) (pos 0) (pos 0) 29
