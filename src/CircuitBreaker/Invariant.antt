-- ===== src/CircuitBreaker/Invariant.antt =====
-- What holds of a breaker between two calls, for every history of calls.
use clipal.Common.{◌+◌, ◌<◌, ◌≡◌, ◌≢◌, Bool, true, List, [], ◌∷◌, arith, pos, ◌≤ℤ◌}
use clipal.Clock.{Time}
use clipal.CircuitBreaker.{
  circuit_closed, circuit_open, circuit_half_open, circuit_other, RawConfig, CircuitBreakerConfig,
  CircuitBreaker, normalize_circuit_breaker_config, new_circuit_breaker, allow, record_success,
  record_failure, release_probe_neutral,
}

-- An enabled configuration has positive thresholds and a positive timeout.
pub record IsValid (cfg : CircuitBreakerConfig) : Type 0 where
  pub failures : cfg.enabled ≡ true → pos 1 ≤ℤ cfg.failure_threshold
  pub successes : cfg.enabled ≡ true → pos 1 ≤ℤ cfg.success_threshold
  pub probes : cfg.enabled ≡ true → pos 1 ≤ℤ cfg.half_open_max_in_flight
  pub timeout : cfg.enabled ≡ true → pos 1 ≤ℤ cfg.open_timeout

pub record Inv (cb : CircuitBreaker) : Type 0 where
  pub valid : IsValid cb.cfg
  pub known : cb.state ≢ circuit_other
  pub closed_below :
      cb.enabled ≡ true
      → cb.state ≡ circuit_closed
      → pos (cb.consecutive_failures + 1) ≤ℤ cb.failure_threshold
  pub closed_timeless : cb.state ≡ circuit_closed → cb.opened_at ≡ 0
  pub open_timed : cb.state ≡ circuit_open → 0 < cb.opened_at
  pub probing_below :
      cb.enabled ≡ true
      → cb.state ≡ circuit_half_open
      → pos (cb.consecutive_successes + 1) ≤ℤ cb.success_threshold
  pub probing_capped : cb.enabled ≡ true → pos cb.half_open_in_flight ≤ℤ cb.half_open_max_in_flight
  pub probes_half_open : cb.state ≢ circuit_half_open → cb.half_open_in_flight ≡ 0
  pub failures_closed : cb.state ≢ circuit_closed → cb.consecutive_failures ≡ 0
  pub successes_half_open : cb.state ≢ circuit_half_open → cb.consecutive_successes ≡ 0

pub normalize-IsValid : (raw : RawConfig) → IsValid (normalize_circuit_breaker_config raw)
unfolding normalize_circuit_breaker_config
normalize-IsValid raw = ground arith

new-Inv : (cfg : CircuitBreakerConfig) → IsValid cfg → Inv (new_circuit_breaker cfg)
unfolding new_circuit_breaker
new-Inv cfg v = ground (arith)

allow-Inv : (cb : CircuitBreaker) (now : Time) → Inv cb → Inv (allow cb now).1
unfolding allow
allow-Inv cb now v = ground arith

record_success-Inv :
    (cb : CircuitBreaker) (now : Time) (used_probe : Bool)
    → Inv cb
    → Inv (record_success cb now used_probe)
unfolding record_success
record_success-Inv cb now used_probe v = ground arith

record_failure-Inv :
    (cb : CircuitBreaker) (now : Time) (used_probe : Bool)
    → 0 < now
    → Inv cb
    → Inv (record_failure cb now used_probe)
unfolding record_failure
record_failure-Inv cb now used_probe h v = ground arith

release_probe_neutral-Inv :
    (cb : CircuitBreaker) (used_probe : Bool) → Inv cb → Inv (release_probe_neutral cb used_probe)
unfolding release_probe_neutral
release_probe_neutral-Inv cb used_probe v = ground arith

-- A call on the breaker, with the clock that it reads.
pub data Call : Type 0 where
  allows : Time → Call
  succeeds : Time → Bool → Call
  fails : Time → Bool → Call
  releases : Bool → Call

abbrev pub step : CircuitBreaker → Call → CircuitBreaker
step cb (allows now) = (allow cb now).1
step cb (succeeds now used_probe) = record_success cb now used_probe
step cb (fails now used_probe) = record_failure cb now used_probe
step cb (releases used_probe) = release_probe_neutral cb used_probe

-- The clock never reads Go's zero time.
abbrev pub IsTimed : Call → Type 0
IsTimed (fails now _) = 0 < now
IsTimed _ = Unit

abbrev pub AllTimed : List Call → Type 0
AllTimed [] = Unit
AllTimed (c ∷ cs) = IsTimed c × AllTimed cs

unfoldable pub run : CircuitBreaker → List Call → CircuitBreaker
run cb [] = cb
run cb (c ∷ cs) = run (step cb c) cs

step-Inv : (cb : CircuitBreaker) (c : Call) → IsTimed c → Inv cb → Inv (step cb c)
step-Inv cb (allows now) t v = allow-Inv cb now v
step-Inv cb (succeeds now used_probe) t v = record_success-Inv cb now used_probe v
step-Inv cb (fails now used_probe) t v = record_failure-Inv cb now used_probe t v
step-Inv cb (releases used_probe) t v = release_probe_neutral-Inv cb used_probe v

run-Inv : (cb : CircuitBreaker) (cs : List Call) → AllTimed cs → Inv cb → Inv (run cb cs)
unfolding run
run-Inv cb [] t v = v
run-Inv cb (c ∷ cs) t v = run-Inv (step cb c) cs t.1 (step-Inv cb c t.0 v)

-- From a new breaker with a normalized configuration, every sequence of calls whose clocks are past
-- the zero time leads to a breaker that satisfies the invariant.
pub run-new-Inv :
    (raw : RawConfig) (cs : List Call)
    → AllTimed cs
    → Inv (run (new_circuit_breaker (normalize_circuit_breaker_config raw)) cs)
run-new-Inv raw cs t =
    run-Inv (new_circuit_breaker (normalize_circuit_breaker_config raw)) cs t
      (new-Inv (normalize_circuit_breaker_config raw) (normalize-IsValid raw))
