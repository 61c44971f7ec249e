-- ===== src/CircuitBreaker/Tests.antt =====
-- The theorems of the breaker at concrete breakers.
use clipal.Common.{◌≡◌, refl, true, false, some, List, [], ◌∷◌, arith, pos}
use clipal.Clock.{second}
use clipal.CircuitBreaker.{
  circuit_closed, circuit_open, circuit_half_open, RawConfig, CircuitBreakerConfig, CircuitBreaker,
  permit, normalize_circuit_breaker_config, new_circuit_breaker, peek_allow, allow, record_success,
  record_failure, release_probe_neutral, snapshot,
}
use clipal.CircuitBreaker.Invariant.{Inv, Call, allows, succeeds, fails, run, run-new-Inv}
use clipal.CircuitBreaker.Agreement.{SameAnswer, Shows, peek_allow-allow, snapshot-Shows}
use clipal.CircuitBreaker.Tripping.{fail_all, fail_all_trips}
use clipal.CircuitBreaker.Recovery.{IsProbing, succeed_all, succeed_all_closes}
use clipal.CircuitBreaker.Probes.{Period, Counts, enters, Period-Counts, stale_release_overruns}

-- Three failures open, two successes close, one probe at a time, ten nanoseconds of waiting.
abbrev raw : RawConfig
raw = record {
  failure_threshold = pos 3;
  success_threshold = pos 2;
  open_timeout = some (pos 10);
  half_open_max_in_flight = pos 1;
}

abbrev cfg : CircuitBreakerConfig
cfg = record {
  enabled = true;
  failure_threshold = pos 3;
  success_threshold = pos 2;
  open_timeout = pos 10;
  half_open_max_in_flight = pos 1;
}

abbrev fresh : CircuitBreaker
fresh = record {
  cfg = cfg;
  state = circuit_closed;
  consecutive_failures = 0;
  consecutive_successes = 0;
  opened_at = 0;
  half_open_in_flight = 0;
}

abbrev opened : CircuitBreaker
opened = record fresh { state = circuit_open; opened_at = 5 }

abbrev probing : CircuitBreaker
probing = record opened { state = circuit_half_open; half_open_in_flight = 1 }

normalize_runs : normalize_circuit_breaker_config raw ≡ cfg
unfolding normalize_circuit_breaker_config
normalize_runs = refl

abbrev history : List Call
history =
    allows 1 ∷ fails 2 false ∷ fails 3 false ∷ fails 5 false ∷ allows 20 ∷ succeeds 21 true ∷ []

history_runs :
    run (new_circuit_breaker (normalize_circuit_breaker_config raw)) history
    ≡ record probing { half_open_in_flight = 0; consecutive_successes = 1 }
unfolding run normalize_circuit_breaker_config new_circuit_breaker allow record_success
    record_failure
history_runs = refl

opened-Inv : Inv opened
opened-Inv = ground arith

run-new-Inv_example : Inv (run (new_circuit_breaker (normalize_circuit_breaker_config raw)) history)
run-new-Inv_example = run-new-Inv raw history (omega arith)

peek_allow-allow_example : SameAnswer (peek_allow opened 15) (allow opened 15).0
peek_allow-allow_example = peek_allow-allow opened 15 opened-Inv

snapshot-Shows_example : Shows (snapshot opened 9).0 opened 9
snapshot-Shows_example = snapshot-Shows opened 9 opened-Inv

fail_all_trips_example :
    (fail_all fresh (2 ∷ 3 ∷ []) ≡ record fresh { consecutive_failures = 2 })
    × (fail_all fresh (2 ∷ 3 ∷ 5 ∷ []) ≡ record fresh {
      state = circuit_open;
      opened_at = 5;
      consecutive_failures = 0;
      consecutive_successes = 0;
      half_open_in_flight = 0;
    })
fail_all_trips_example = fail_all_trips fresh (2 ∷ 3 ∷ []) 5 refl refl refl refl

probing-IsProbing : IsProbing probing 0 2
probing-IsProbing = ground arith

succeed_all_closes_example :
    IsProbing (succeed_all probing ((20, true) ∷ [])) 1 2
    × (succeed_all probing ((20, true) ∷ (21, false) ∷ []) ≡ new_circuit_breaker cfg)
succeed_all_closes_example = succeed_all_closes probing ((20, true) ∷ []) 21 false probing-IsProbing

probing-Period : Period probing 1
unfolding allow
probing-Period = enters opened probing 15 refl refl refl

Period-Counts_example : Counts probing 1
Period-Counts_example = Period-Counts probing-Period

stale_release_overruns_example :
    let later = record_failure probing 20 false in
    let (second, busy) = allow later 30 in
    let (third, after) = allow (release_probe_neutral busy true) 31 in
    (second ≡ permit true) × (third ≡ permit true)
stale_release_overruns_example =
    stale_release_overruns probing 20 30 31 10 refl refl refl refl refl (omega arith) (omega arith)
