-- ===== src/CircuitBreaker/Agreement.antt =====
-- The read-only views of a breaker, `peekAllow` and `snapshot`, against `allow`.
use clipal.Common.{◌≡◌, true, false, arith}
use clipal.Clock.{Time}
use clipal.CircuitBreaker.{
  CircuitState, circuit_closed, circuit_open, circuit_half_open, circuit_block_open, CircuitBreaker,
  CircuitAllowResult, peek_allow, allow, snapshot,
}
use clipal.CircuitBreaker.Invariant.{Inv}

-- Two answers that differ at most in whether a probe was reserved.
pub record SameAnswer (a b : CircuitAllowResult) : Type 0 where
  pub allowed : a.allowed ≡ b.allowed
  pub wait : a.wait ≡ b.wait
  pub reason : a.reason ≡ b.reason

-- At a breaker that satisfies the invariant, `peek_allow` foretells whether `allow` lets the request
-- through, with the same wait and reason.
pub peek_allow-allow :
    (cb : CircuitBreaker) (now : Time) → Inv cb → SameAnswer (peek_allow cb now) (allow cb now).0
unfolding peek_allow allow
peek_allow-allow cb now v = ground arith

-- At a breaker that satisfies the invariant, a blocked request changes nothing.
pub allow_blocked_unchanged :
    (cb : CircuitBreaker) (now : Time)
    → Inv cb
    → (allow cb now).0.allowed ≡ false
    → (allow cb now).1 ≡ cb
unfolding allow
allow_blocked_unchanged cb now v h = ground arith

-- What a state that `snapshot` shows says of the next request.
pub record Shows (st : CircuitState) (cb : CircuitBreaker) (now : Time) : Type 0 where
  pub when_open :
      st ≡ circuit_open
      → ((allow cb now).0.allowed ≡ false)
        × ((allow cb now).0.wait ≡ (snapshot cb now).1)
        × ((allow cb now).0.reason ≡ circuit_block_open)
  pub when_closed :
      st ≡ circuit_closed
      → ((allow cb now).0.allowed ≡ true) × ((allow cb now).0.used_probe ≡ false)
  pub when_half_open :
      st ≡ circuit_half_open → (allow cb now).0.used_probe ≡ (allow cb now).0.allowed

-- At a breaker that satisfies the invariant, if `snapshot` shows the open state, `allow` blocks with
-- reason circuit_open for the wait shown; if it shows the closed state, `allow` lets the request
-- through with no probe; if it shows the half-open state, `allow` lets it through exactly when it
-- gives it a probe.
pub snapshot-Shows : (cb : CircuitBreaker) (now : Time) → Inv cb → Shows (snapshot cb now).0 cb now
unfolding snapshot allow
snapshot-Shows cb now v = ground arith
