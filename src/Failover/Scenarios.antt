-- ===== src/Failover/Scenarios.antt =====
-- The theorems of busy providers, permits, waiting and forwarding at a proxy with one provider, which
-- has one key and a half-open breaker.
use clipal.Common.{
  ◌≡◌, ◌≢◌, refl, false, true, [], ◌∷◌, some, pos, negsuc, text, arith, zero, suc, ◌+◌, at?,
}
use clipal.Clock.{seconds}
use clipal.CircuitBreaker.{
  CircuitBreaker, CircuitBreakerConfig, circuit_half_open, circuit_open, allow, peek_allow,
}
use clipal.CircuitBreaker.Invariant.{Inv}
use clipal.Providers.{Provider, scope_default}
use clipal.Failover.State.{ClientProxy, no_deactivation, not_busy, mode_auto, busy, rate_limit}
use clipal.Failover.Availability.{
  available_key_count, is_key_deactivated, keys_of, key_deactivation_at?, count_available_keys,
  provider_available_for_routing, deactivation_at, circuit_admits,
}
use clipal.Failover.Busy.{probe_limit}
use clipal.Failover.Busy.Probes.{marks, acquires, releases, busy_run, IsBounded, busy_run-IsBounded}
use clipal.Failover.Busy.Backoff.{AllPositive, back_off_all, Offers, capped, back_off_all_escalates}
use clipal.Failover.Permits.{allow_circuit}
use clipal.Failover.Permits.Routing.{available_allowed}
use clipal.Failover.Waiting.{Unavailable, handle_all_unavailable, time_until_next_available}
use clipal.Failover.Waiting.Answers.{Answers, handle_all_unavailable-Answers}
use clipal.Failover.Waiting.Bounds.{Covers, time_until_next_available-Covers}
use clipal.Failover.Forward.{World, Run, refused}
use clipal.Failover.Forward.Turns.{Place, keys_done, visit}
use clipal.Failover.Forward.Turns.Settled.{SettledBy, visit-Settled}
use clipal.Failover.Forward.Turns.Soft.{soft_limit}
use clipal.Failover.Forward.Keys.{attempt_keys}
use clipal.Failover.Forward.Keys.Leak.{soft_limit_blocks_forever}

abbrev cfg : CircuitBreakerConfig
cfg = record {
  enabled = true;
  failure_threshold = pos 3;
  success_threshold = pos 1;
  open_timeout = seconds 60;
  half_open_max_in_flight = pos 1;
}

abbrev probing : CircuitBreaker
probing = record {
  cfg = cfg;
  state = circuit_half_open;
  consecutive_failures = 0;
  consecutive_successes = 0;
  opened_at = 5;
  half_open_in_flight = 0;
}

abbrev provider : Provider
provider = record {
  name = text "a";
  auth_type = [];
  oauth_provider = [];
  oauth_ref = [];
  base_url = [];
}

abbrev proxy : ClientProxy
proxy = record {
  mode = mode_auto;
  providers = provider ∷ [];
  provider_keys = (text "k" ∷ []) ∷ [];
  current_index = pos 0;
  count_tokens_index = pos 0;
  responses_index = pos 0;
  gemini_stream_index = pos 0;
  current_key_index = pos 0 ∷ [];
  count_tokens_key_index = pos 0 ∷ [];
  responses_key_index = pos 0 ∷ [];
  gemini_stream_key_index = pos 0 ∷ [];
  deactivated = no_deactivation ∷ [];
  key_deactivated = (no_deactivation ∷ []) ∷ [];
  provider_busy = not_busy ∷ [];
  reactivate_after = seconds 60;
  routing = record {
    busy_retry_delays = seconds 5 ∷ seconds 10 ∷ [];
    busy_probe_max_in_flight = pos 1;
    max_inline_wait = seconds 8;
  };
  breakers = some probing ∷ [];
}

IsBounded-proxy : IsBounded proxy
unfolding IsBounded probe_limit
IsBounded-proxy (pos zero) b e = ground arith
IsBounded-proxy (pos (suc i)) b e = ground arith
IsBounded-proxy (negsuc i) b e = ground arith

busy_run-IsBounded_example : IsBounded (
    busy_run proxy (
      marks (pos 0) busy 0 5 (seconds 5)
      ∷ acquires (pos 0)
      ∷ acquires (pos 0)
      ∷ releases (pos 0)
      ∷ []))
busy_run-IsBounded_example =
    busy_run-IsBounded proxy
      (marks (pos 0) busy 0 5 (seconds 5)
        ∷ acquires (pos 0)
        ∷ acquires (pos 0)
        ∷ releases (pos 0)
        ∷ [])
      IsBounded-proxy

back_off_all_escalates_example :
    Offers proxy.routing.busy_retry_delays
      (back_off_all proxy (pos 0) busy (1 ∷ 20 ∷ 40 ∷ []))
      (pos 0)
      (capped 2 3)
unfolding AllPositive
back_off_all_escalates_example =
    back_off_all_escalates proxy (pos 0) busy (1 ∷ 20 ∷ 40 ∷ []) refl
      (omega arith, (omega arith, tt)) (omega arith)

probing-Inv : Inv probing
probing-Inv = ground arith

only :
    (cb : CircuitBreaker)
    → at? proxy.breakers (pos 0) ≡ some (some cb)
    → Inv cb × (cb.state ≢ circuit_open)
only cb e = ground (arith, probing-Inv)

available_allowed_example : (allow_circuit proxy 100 (pos 0)).0.allowed ≡ true
unfolding provider_available_for_routing deactivation_at available_key_count keys_of
    count_available_keys is_key_deactivated key_deactivation_at? circuit_admits peek_allow
available_allowed_example = available_allowed proxy (pos 0) 100 (λ cb e. (only cb e).0) refl

handle_all_unavailable-Answers_example :
    (u : Unavailable) × (handle_all_unavailable (some (pos 1500, rate_limit)) ≡ some u)
    × Answers 1500 rate_limit u
handle_all_unavailable-Answers_example =
    handle_all_unavailable-Answers 1500 rate_limit (omega arith)

time_until_next_available-Covers_example :
    Covers proxy 5 (time_until_next_available proxy 5 (λ i. 5) 5)
time_until_next_available-Covers_example = time_until_next_available-Covers proxy 5

abbrev world : World
world = record {
  attempt = λ n. refused (soft_limit 429 []);
  client_left = λ n. false;
  waited = λ n. true;
  clock = λ n k. 100 + n;
}

abbrev place : Place
place = record {
  index = 0;
  scope = scope_default;
  used_probe = true;
  preferred_index = 0;
  busy_retried = false;
}

abbrev permitted : Run
permitted = record {
  cp = record proxy { breakers = some (record probing { half_open_in_flight = 1 }) ∷ [] };
  event = 1;
  tried = [];
  busy_probe_held = false;
  had_upstream_attempt = false;
  setup_failures_only = true;
  last_setup_failure = false;
}

visit-Settled_example : SettledBy place permitted.cp (visit world place 0 permitted)
visit-Settled_example = visit-Settled world place 0 permitted

soft_limit_blocks_forever_example :
    ((attempt_keys world place 0 1 permitted).1 ≡ keys_done)
    × ((allow_circuit (attempt_keys world place 0 1 permitted).0.cp 1000000000000 (pos 0)).0.allowed
        ≡ false)
unfolding allow_circuit allow keys_of is_key_deactivated key_deactivation_at? available_key_count
    count_available_keys
soft_limit_blocks_forever_example =
    soft_limit_blocks_forever world place 0 1 permitted 429 [] proxy 100 1000000000000 probing refl
      refl refl refl refl refl refl (omega arith) refl (omega arith)
