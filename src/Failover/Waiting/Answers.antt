-- ===== src/Failover/Waiting/Answers.antt =====
-- The answer that a request gets while nothing is available.
use clipal.Common.{ℕ, ◌+◌, ◌*◌, ◌<◌, ◌≤◌, ◌≡◌, ◌≢◌, some, pos, ◌⊎◌, arith}
use clipal.Clock.{second}
use clipal.Failover.State.{Reason, rate_limit, overloaded}
use clipal.Failover.Waiting.{
  Unavailable, retry_after_seconds, unavailable_status, handle_all_unavailable,
}

-- The answer to a wait of `w` for a reason: Retry-After is the first number of whole seconds past the
-- wait, and the status is 429 for a rate limit or an overload and 503 otherwise.
pub record Answers (w : ℕ) (reason : Reason) (u : Unavailable) : Type 0 where
  pub past : w < u.retry_after * second
  pub first : u.retry_after * second ≤ w + second
  pub too_many : (reason ≡ rate_limit) ⊎ (reason ≡ overloaded) → u.status ≡ 429
  pub unavailable : reason ≢ rate_limit → reason ≢ overloaded → u.status ≡ 503

too_many_status : (r : Reason) → (r ≡ rate_limit) ⊎ (r ≡ overloaded) → unavailable_status r ≡ 429
unfolding unavailable_status
too_many_status r q = ground arith

unavailable_status_else :
    (r : Reason) → r ≢ rate_limit → r ≢ overloaded → unavailable_status r ≡ 503
unfolding unavailable_status
unavailable_status_else r p q = ground arith

-- Where the time until something is available is positive, an answer is written; its Retry-After is
-- the least number of whole seconds that is longer than the wait, and its status is 429 when the
-- reason is a rate limit or an overload and 503 for every other reason.
pub handle_all_unavailable-Answers :
    (w : ℕ) (reason : Reason)
    → 0 < w
    → (u : Unavailable) × (handle_all_unavailable (some (pos w, reason)) ≡ some u)
      × Answers w reason u
unfolding handle_all_unavailable retry_after_seconds
handle_all_unavailable-Answers w reason h = (
  record { status = unavailable_status reason; retry_after = retry_after_seconds (pos w) },
  ground arith,
  record {
    past = omega arith;
    first = omega arith;
    too_many = too_many_status reason;
    unavailable = unavailable_status_else reason;
  },
)
