-- ===== src/CircuitBreaker/Tripping.antt =====
-- How a closed breaker opens, and for how long it then blocks.
use clipal.Common.{
  ℕ, suc, ◌+◌, ◌-◌, ◌<◌, ◌≤◌, ◌≡◌, refl, Bool, true, false, arith, pos, List, [], ◌∷◌, ◌++◌, ltb,
  if◌then◌else◌, ◌≤ℤ◌, length,
}
use clipal.Clock.{Time}
use clipal.CircuitBreaker.{
  circuit_closed, circuit_open, circuit_half_open, circuit_block_open, CircuitBreaker, block, allow,
  record_failure, record_success, transition_to_open, permit,
}

-- Failed requests that hold no probe, one after another, at the given times.
pub fail_all : CircuitBreaker → List Time → CircuitBreaker
fail_all cb [] = cb
fail_all cb (t ∷ ts) = fail_all (record_failure cb t false) ts

failure_counted :
    (cb : CircuitBreaker) (t : Time) (k : ℕ)
    → cb.enabled ≡ true
    → cb.state ≡ circuit_closed
    → cb.failure_threshold ≡ pos (cb.consecutive_failures + suc (suc k))
    → record_failure cb t false ≡ record cb { consecutive_failures = cb.consecutive_failures + 1 }
unfolding record_failure
failure_counted cb t k e c f = ground arith

-- Below the threshold failures are only counted.
pub fail_all_below :
    (cb : CircuitBreaker) (ts : List Time) (k : ℕ)
    → cb.enabled ≡ true
    → cb.state ≡ circuit_closed
    → cb.failure_threshold ≡ pos (cb.consecutive_failures + (length ts + suc k))
    → fail_all cb ts ≡ record cb { consecutive_failures = cb.consecutive_failures + length ts }
unfolding fail_all
fail_all_below cb [] k e c f = ground arith
fail_all_below cb (t ∷ ts) k e c f =
    let counted : CircuitBreaker = record cb {
      consecutive_failures = cb.consecutive_failures + 1;
    } in
    rw (failure_counted cb t (length ts + k) e c (ground arith))
      (ground (arith, fail_all_below counted ts k e c))

last_failure_trips :
    (cb : CircuitBreaker) (t : Time)
    → cb.enabled ≡ true
    → cb.state ≡ circuit_closed
    → cb.failure_threshold ≡ pos (suc cb.consecutive_failures)
    → record_failure cb t false ≡ transition_to_open cb t
unfolding record_failure transition_to_open
last_failure_trips cb t e c f = ground arith

pub fail_all-append :
    (cb : CircuitBreaker) (ts us : List Time)
    → fail_all cb (ts ++ us) ≡ fail_all (fail_all cb ts) us
unfolding fail_all
fail_all-append cb [] us = refl
fail_all-append cb (t ∷ ts) us = fail_all-append (record_failure cb t false) ts us

-- Let failures of requests that hold no probe be recorded in an enabled, closed breaker with no
-- failures counted. After one failure less than the threshold it is closed, with exactly these
-- failures counted and nothing else changed; one failure more, at the time `t`, leaves it open since
-- `t`, with all its counters at zero and its configuration as it was.
pub fail_all_trips :
    (cb : CircuitBreaker) (ts : List Time) (t : Time)
    → cb.enabled ≡ true
    → cb.state ≡ circuit_closed
    → cb.consecutive_failures ≡ 0
    → cb.failure_threshold ≡ pos (suc (length ts))
    → (fail_all cb ts ≡ record cb { consecutive_failures = length ts })
      × (fail_all cb (ts ++ t ∷ []) ≡ record cb {
        state = circuit_open;
        opened_at = t;
        consecutive_failures = 0;
        consecutive_successes = 0;
        half_open_in_flight = 0;
      })
unfolding fail_all transition_to_open
fail_all_trips cb ts t e c z f =
    let below = fail_all_below cb ts 0 e c (ground arith) in
    (
      ground arith,
      rw (fail_all-append, below)
          (ground (
            arith,
            last_failure_trips
                (record cb { consecutive_failures = cb.consecutive_failures + length ts }) t e c,
          )),
    )

-- An enabled breaker that opened at `t` blocks every request before the timeout, for exactly the
-- rest of it, and changes nothing; from then on, where at least one probe may be in flight, it lets
-- the next request through as the only probe of a half-open breaker.
pub allow-transition_to_open :
    (cb : CircuitBreaker) (t now d : ℕ)
    → cb.enabled ≡ true
    → 0 < t
    → t ≤ now
    → cb.open_timeout ≡ pos d
    → pos 1 ≤ℤ cb.half_open_max_in_flight
    → allow (transition_to_open cb t) now ≡ (
        if ltb now (t + d)
        then (block (pos (t + d - now)) circuit_block_open, transition_to_open cb t)
        else (
          permit true,
          record (transition_to_open cb t) { state = circuit_half_open; half_open_in_flight = 1 },
        ))
unfolding allow transition_to_open
allow-transition_to_open cb t now d e h l f p = ground arith

success_resets :
    (cb : CircuitBreaker) (now : Time) (used_probe : Bool) (n : ℕ)
    → cb.enabled ≡ true
    → cb.state ≡ circuit_closed
    → cb.failure_threshold ≡ pos n
    → let s = record_success cb now used_probe in
      (s.enabled ≡ true)
      × (s.state ≡ circuit_closed)
      × (s.consecutive_failures ≡ 0)
      × (s.failure_threshold ≡ pos n)
unfolding record_success
success_resets cb now used_probe n e c f = ground arith

-- In an enabled, closed breaker one success forgets every failure counted so far: afterwards fewer
-- failures than the threshold leave it closed.
pub success_forgives :
    (cb : CircuitBreaker) (now : Time) (used_probe : Bool) (ts : List Time) (n : ℕ)
    → cb.enabled ≡ true
    → cb.state ≡ circuit_closed
    → cb.failure_threshold ≡ pos n
    → length ts < n
    → (fail_all (record_success cb now used_probe) ts).state ≡ circuit_closed
success_forgives cb now used_probe ts n e c f l =
    let s = record_success cb now used_probe in
    let r = success_resets cb now used_probe n e c f in
    ground (arith, fail_all_below s ts (n - length ts - 1) r.0 r.1 (ground (arith, r.2, r.3)), r.1)
