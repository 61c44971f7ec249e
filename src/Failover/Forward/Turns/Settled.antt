-- ===== src/Failover/Forward/Turns/Settled.antt =====
-- What a turn of the loop over the keys does to the permit of the provider's breaker.
use clipal.Common.{ℕ, ◌≡◌, refl, ◌∙◌, true, false, Bool, List, Option, pos, if◌then◌else◌}
use clipal.CircuitBreaker.{CircuitBreaker}
use clipal.Failover.State.{ClientProxy, network}
use clipal.Failover.Quarantine.Breakers.{
  set_scope_index-breakers, set_current_key_index-breakers, deactivate_for-breakers,
  deactivate_key_for-breakers,
}
use clipal.Failover.Busy.{mark_provider_busy, acquire_provider_busy_probe, next_busy_backoff}
use clipal.Failover.Busy.Breakers.{mark-breakers, acquire-breakers}
use clipal.Failover.Permits.Reports.{Reported, release-Reported, failure-Reported}
use clipal.Failover.Forward.{
  World, Run, release_held, with_release, StreamEnd, retries, completed, incomplete, failed,
  client_gone, broken, Attempt, unprepared, cancelled, unreachable, refused, streamed, Refusal,
  FailureAction, busy_retry, retry_next, deactivate_and_retry_next,
}
use clipal.Failover.Forward.Settling.{
  release_held-breakers, Reported-between, finish_stream-Reported,
}
use clipal.Failover.Forward.Turns.{
  Turn, skips, next_key, restart, leaves, KeysEnd, provider_failed, key_exhausted, returns, Place,
  now_at, on_busy, overflows, retries_busy, on_key_failure, on_provider_failure, on_refusal,
  after_stream, on_attempt, visit, next_event,
}

-- The permit is kept by a turn that goes on with the next key, and given back once by a turn that
-- leaves the loop and by one that starts it again.
pub data Settled (at : Place) (a b : ClientProxy) : Turn → Type 0 where
  kept_by_skip : b.breakers ≡ a.breakers → Settled at a b skips
  kept_by_next : b.breakers ≡ a.breakers → Settled at a b next_key
  given_by_restart : Reported (pos at.index) at.used_probe a b → Settled at a b restart
  given_by_end :
      (e : KeysEnd) → Reported (pos at.index) at.used_probe a b → Settled at a b (leaves e)

abbrev pub SettledBy : Place → ClientProxy → Run × Turn → Type 0
SettledBy at a x = Settled at a x.0.cp x.1

SettledBy-if :
    (at : Place) (a : ClientProxy) (c : Bool) (x y : Run × Turn)
    → SettledBy at a x
    → SettledBy at a y
    → SettledBy at a (if c then x else y)
SettledBy-if at a true x y h k = h
SettledBy-if at a false x y h k = k

if-breakers :
    (c : Bool) (x y : ClientProxy) {bs : List (Option CircuitBreaker)}
    → x.breakers ≡ bs
    → y.breakers ≡ bs
    → (if c then x else y).breakers ≡ bs
if-breakers true x y h k = h
if-breakers false x y h k = k

module _ (world : World) (at : Place) (a : ClientProxy) where
  overflows-Settled :
      (r : Run)
      → Reported (pos at.index) at.used_probe a r.cp
      → SettledBy at a (overflows world at r)
  unfolding overflows
  overflows-Settled r h =
      given_by_end provider_failed
        (Reported-between refl h (set_scope_index-breakers r.cp _ at.scope))

  retries_busy-Settled :
      (r : Run)
      → Reported (pos at.index) at.used_probe a r.cp
      → SettledBy at a (retries_busy world at r)
  unfolding retries_busy
  retries_busy-Settled r h =
      let kept = Reported-between refl h (acquire-breakers r.cp (pos at.index)) in
      let r' : Run = record r { cp = (acquire_provider_busy_probe r.cp (pos at.index)).0 } in
      SettledBy-if at a _ _ _ (given_by_restart kept) (overflows-Settled r' kept)

  on_busy-Settled :
      (f : Refusal) (r : Run) → r.cp.breakers ≡ a.breakers → SettledBy at a (on_busy world at f r)
  unfolding on_busy
  on_busy-Settled f r e =
      let r1 : Run = with_release at.index at.used_probe (release_held at.index r) in
      let (step, wait) = next_busy_backoff r1.cp (pos at.index) in
      let r2 : Run = record r1 {
        cp = mark_provider_busy r1.cp (pos at.index) f.reason step (now_at world r 2) wait;
      } in
      let given : Reported (pos at.index) at.used_probe a r2.cp =
        Reported-between (release_held-breakers at.index r ∙ e)
          (release-Reported _ (pos at.index) at.used_probe 0)
          (mark-breakers r1.cp (pos at.index) f.reason step (now_at world r 2) wait) in
      SettledBy-if at a _ _ _
        (SettledBy-if at a _ _ _ (retries_busy-Settled r2 given) (given_by_end returns given))
        (overflows-Settled r2 given)

  on_key_failure-Settled :
      (k : ℕ) (f : Refusal) (r : Run)
      → r.cp.breakers ≡ a.breakers
      → SettledBy at a (on_key_failure world at k f r)
  unfolding on_key_failure
  on_key_failure-Settled k f r e =
      let kept1 =
        if-breakers _ _ _ (deactivate_key_for-breakers r.cp (pos at.index) (pos k) _ _ _ ∙ e) e in
      SettledBy-if at a _ _ _
        (kept_by_next (set_current_key_index-breakers _ (pos at.index) _ at.scope ∙ kept1))
        (given_by_end key_exhausted (
          Reported-between
            (if-breakers _ _ _ (deactivate_for-breakers _ (pos at.index) _ _ _ _ _ ∙ kept1) kept1)
            (failure-Reported _ (pos at.index) at.used_probe (now_at world r 8) f.reason) refl))

  on_provider_failure-Settled :
      (f : Refusal) (r : Run)
      → r.cp.breakers ≡ a.breakers
      → SettledBy at a (on_provider_failure world at f r)
  unfolding on_provider_failure
  on_provider_failure-Settled f r e = given_by_end provider_failed (
      Reported-between e
        (failure-Reported r.cp (pos at.index) at.used_probe (now_at world r 2) f.reason)
        (set_scope_index-breakers _ _ at.scope
          ∙ deactivate_for-breakers _ (pos at.index) _ _ _ _ _))

  on_refusal-Settled :
      (x : FailureAction) (k : ℕ) (f : Refusal) (r : Run)
      → r.cp.breakers ≡ a.breakers
      → SettledBy at a (on_refusal x world at k f r)
  unfolding on_refusal
  on_refusal-Settled busy_retry k f r e = on_busy-Settled f r e
  on_refusal-Settled retry_next k f r e =
      SettledBy-if at a _ _ _ (on_key_failure-Settled k f r e) (on_provider_failure-Settled f r e)
  on_refusal-Settled deactivate_and_retry_next k f r e =
      SettledBy-if at a _ _ _ (on_key_failure-Settled k f r e) (on_provider_failure-Settled f r e)

  after_stream-Settled :
      (end : StreamEnd) (r : Run)
      → Reported (pos at.index) at.used_probe a r.cp
      → SettledBy at a (after_stream end world at r)
  unfolding after_stream
  after_stream-Settled (retries _) r h =
      given_by_end provider_failed
        (Reported-between refl h (set_scope_index-breakers r.cp _ at.scope))
  after_stream-Settled completed r h = given_by_end returns h
  after_stream-Settled incomplete r h = given_by_end returns h
  after_stream-Settled failed r h = given_by_end returns h
  after_stream-Settled (client_gone c) r h = given_by_end returns h
  after_stream-Settled (broken _) r h = given_by_end returns h

  on_attempt-Settled :
      (x : Attempt) (k : ℕ) (r : Run)
      → r.cp.breakers ≡ a.breakers
      → SettledBy at a (on_attempt x world at k r)
  unfolding on_attempt
  on_attempt-Settled (unprepared setup) k r e = given_by_end provider_failed (
      Reported-between (release_held-breakers at.index _ ∙ e)
        (release-Reported _ (pos at.index) at.used_probe 0) refl)
  on_attempt-Settled cancelled k r e = given_by_end returns (
      Reported-between (release_held-breakers at.index _ ∙ e)
        (release-Reported _ (pos at.index) at.used_probe 0) refl)
  on_attempt-Settled unreachable k r e = given_by_end provider_failed (
      Reported-between (release_held-breakers at.index _ ∙ e)
        (failure-Reported _ (pos at.index) at.used_probe (now_at world r 2) network)
        (set_scope_index-breakers _ _ at.scope))
  on_attempt-Settled (refused f) k r e =
      on_refusal-Settled f.action k f (record r { had_upstream_attempt = true }) e
  on_attempt-Settled (streamed end) k r e = after_stream-Settled end _ (
      Reported-between e
        (finish_stream-Reported end at.index k at.scope at.used_probe (now_at world r 2)
          (record r { had_upstream_attempt = true }))
        refl)

-- A turn of the loop keeps the breaker's permit when it goes on with the next key, and reports it
-- exactly once when it leaves the loop or starts it again.
pub visit-Settled :
    (world : World) (at : Place) (k : ℕ) (r : Run) → SettledBy at r.cp (visit world at k r)
unfolding visit next_event
visit-Settled world at k r =
    SettledBy-if at r.cp _ (r, skips) _ (kept_by_skip refl)
      (on_attempt-Settled world at r.cp (world.attempt r.event) k _ refl)
