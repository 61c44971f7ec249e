-- ===== src/CircuitBreaker/Recovery.antt =====
-- How a half-open breaker closes or opens again.
use clipal.Common.{
  ℕ, suc, ◌+◌, ◌≡◌, ◌∙◌, ap, Bool, true, arith, pos, List, [], ◌∷◌, ◌++◌, length, refl,
}
use clipal.Clock.{Time}
use clipal.CircuitBreaker.{
  circuit_half_open, CircuitBreaker, new_circuit_breaker, record_failure, record_success,
  transition_to_open,
}

-- Successful requests, one after another, each with its time and whether it held a probe.
pub succeed_all : CircuitBreaker → List (Time × Bool) → CircuitBreaker
succeed_all cb [] = cb
succeed_all cb ((now, used_probe) ∷ rest) = succeed_all (record_success cb now used_probe) rest

pub record IsProbing (cb : CircuitBreaker) (successes threshold : ℕ) : Type 0 where
  pub is_enabled : cb.enabled ≡ true
  pub half_open : cb.state ≡ circuit_half_open
  pub counted : cb.consecutive_successes ≡ successes
  pub needed : cb.success_threshold ≡ pos threshold

success_counted :
    (cb : CircuitBreaker) (now : Time) (used_probe : Bool) (m k : ℕ)
    → IsProbing cb m (m + suc (suc k))
    → IsProbing (record_success cb now used_probe) (suc m) (suc m + suc k)
unfolding record_success
success_counted cb now used_probe m k p = ground arith

succeed_all_below :
    (cb : CircuitBreaker) (rs : List (Time × Bool)) (m k : ℕ)
    → IsProbing cb m (m + (length rs + suc k))
    → IsProbing (succeed_all cb rs) (m + length rs) (m + (length rs + suc k))
unfolding succeed_all
succeed_all_below cb [] m k p = ground arith
succeed_all_below cb ((now, used_probe) ∷ rs) m k p =
    let q = success_counted cb now used_probe m (length rs + k) (ground arith) in
    ground
      (arith, succeed_all_below (record_success cb now used_probe) rs (suc m) k (ground (arith, q)))

last_success_closes :
    (cb : CircuitBreaker) (now : Time) (used_probe : Bool) (m : ℕ)
    → IsProbing cb m (suc m)
    → record_success cb now used_probe ≡ new_circuit_breaker cb.cfg
unfolding record_success new_circuit_breaker
last_success_closes cb now used_probe m p = ground arith

succeed_all-cfg : (cb : CircuitBreaker) (rs : List (Time × Bool)) → (succeed_all cb rs).cfg ≡ cb.cfg
unfolding succeed_all record_success
succeed_all-cfg cb [] = refl
succeed_all-cfg cb ((now, used_probe) ∷ rs) =
    ground (arith, succeed_all-cfg (record_success cb now used_probe) rs)

succeed_all-append :
    (cb : CircuitBreaker) (rs qs : List (Time × Bool))
    → succeed_all cb (rs ++ qs) ≡ succeed_all (succeed_all cb rs) qs
unfolding succeed_all
succeed_all-append cb [] qs = refl
succeed_all-append cb ((now, used_probe) ∷ rs) qs =
    succeed_all-append (record_success cb now used_probe) rs qs

-- An enabled, half-open breaker with no successes counted stays half-open for fewer successes than
-- the threshold, with each of them counted, whether they held probes or not; the success that
-- reaches the threshold makes it equal to a new breaker with the same configuration.
pub succeed_all_closes :
    (cb : CircuitBreaker) (rs : List (Time × Bool)) (now : Time) (used_probe : Bool)
    → IsProbing cb 0 (suc (length rs))
    → IsProbing (succeed_all cb rs) (length rs) (suc (length rs))
      × (succeed_all cb (rs ++ (now, used_probe) ∷ []) ≡ new_circuit_breaker cb.cfg)
unfolding succeed_all
succeed_all_closes cb rs now used_probe p =
    let below : IsProbing (succeed_all cb rs) (length rs) (suc (length rs)) =
      ground (arith, succeed_all_below cb rs 0 0 (ground arith)) in
    (
      below,
      rw (
        succeed_all-append,
        last_success_closes (succeed_all cb rs) now used_probe (length rs) below,
        succeed_all-cfg,
      ),
    )

reopens :
    (cb : CircuitBreaker) (now : Time) (used_probe : Bool) (m n : ℕ)
    → IsProbing cb m n
    → record_failure cb now used_probe ≡ transition_to_open (new_circuit_breaker cb.cfg) now
unfolding record_failure transition_to_open new_circuit_breaker
reopens cb now used_probe m n p = ground arith

-- However many successes below the threshold an enabled, half-open breaker has counted, one failure
-- opens it again, at the time of the failure and with every counter at zero.
pub failure_reopens :
    (cb : CircuitBreaker) (rs : List (Time × Bool)) (now : Time) (used_probe : Bool) (k : ℕ)
    → IsProbing cb 0 (length rs + suc k)
    → record_failure (succeed_all cb rs) now used_probe
      ≡ transition_to_open (new_circuit_breaker cb.cfg) now
failure_reopens cb rs now used_probe k p =
    reopens (succeed_all cb rs) now used_probe (0 + length rs) (0 + (length rs + suc k))
      (succeed_all_below cb rs 0 k (ground arith))
    ∙ ap (λ cfg. transition_to_open (new_circuit_breaker cfg) now) (succeed_all-cfg cb rs)
