-- ===== src/Failover/Forward/Turns/Soft.antt =====
-- The turn in which a key is refused for a rate limit with no time to wait.
use clipal.Common.{ℕ, ◌<◌, ◌≡◌, refl, true, false, pos, arith, Text, ltb}
use clipal.Failover.State.{rate_limit}
use clipal.Failover.Availability.{is_key_deactivated, available_key_count}
use clipal.Failover.Forward.{
  World, Run, Refusal, retry_next, refused, is_key_scoped_failure, key_failure_duration,
}
use clipal.Failover.Forward.Turns.{
  next_key, Place, now_at, on_refusal, on_key_failure, on_attempt, visit, next_event,
}

-- A rate limit whose response names no time to wait.
abbrev pub soft_limit : ℕ → Text → Refusal
soft_limit status message = record {
  action = retry_next;
  reason = rate_limit;
  status = status;
  message = message;
  cooldown = pos 0;
}

-- If a key that is not in quarantine is refused by a rate limit that names no time to wait, the turn
-- ends with the next key.
pub visit_soft :
    (world : World) (at : Place) (k : ℕ) (r : Run) (status : ℕ) (message : Text)
    → is_key_deactivated r.cp (pos at.index) (pos k) (now_at world r 0) ≡ false
    → world.attempt r.event ≡ refused (soft_limit status message)
    → 0 < available_key_count r.cp (pos at.index) (now_at world r 3)
    → (visit world at k r).1 ≡ next_key
unfolding visit next_event on_attempt on_refusal is_key_scoped_failure on_key_failure
    key_failure_duration
visit_soft world at k r status message free e h =
    let some_key : ltb 0 (available_key_count r.cp (pos at.index) (now_at world r 3)) ≡ true =
      ground arith in
    rw (free, e, some_key) refl
