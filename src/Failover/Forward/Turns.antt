-- ===== src/Failover/Forward/Turns.antt =====
-- internal/proxy/failover_forward.go: what `forwardWithFailover` does with one key of a provider.
pub mod Settled
pub mod Soft
use clipal.Common.{
  ℕ, zero, suc, ◌==◌, ◌+◌, ◌%◌, Bool, true, false, not, ◌&&◌, ◌||◌, List, [], ◌∷◌, Option, none,
  some, ℤ, pos, length, ltb, leb_ℤ, ltb_ℤ, if◌then◌else◌,
}
use clipal.Clock.{Time, Duration}
use clipal.Providers.{
  RoutingScope, scope_default, scope_claude_count_tokens, scope_openai_responses,
  scope_gemini_stream,
}
use clipal.Failover.State.{
  Reason, network, ClientProxy, set_current_key_index_for_scope, set_scope_index,
}
use clipal.Failover.Availability.{is_key_deactivated, keys_of, available_key_count}
use clipal.Failover.Cursors.{next_active_key_index, next_active_index}
use clipal.Failover.Quarantine.{Failure, deactivate_for, deactivate_key_for}
use clipal.Failover.Busy.{mark_provider_busy, acquire_provider_busy_probe, next_busy_backoff}
use clipal.Failover.Forward.{
  is_key_scoped_failure, key_failure_duration, FailureAction, retry_next, busy_retry,
  deactivate_and_retry_next, Refusal, StreamEnd, retries, Attempt, unprepared, cancelled,
  unreachable, refused, streamed, World, Run, release_held, move_on, with_failure, with_release,
  finish_stream,
}

-- How a turn of the loop ends: with the next key, with the whole loop again from its first key, or
-- with the loop left for one of the reasons of `KeysEnd`.
pub data KeysEnd : Type 0 where
  -- `return`: a response was streamed to its end, or the client went away.
  returns : KeysEnd
  -- `providerFailed`
  provider_failed : KeysEnd
  -- `keyExhausted`
  key_exhausted : KeysEnd
  -- The condition of the loop fails.
  keys_done : KeysEnd

pub data Turn : Type 0 where
  -- `continue`, before an attempt and after one.
  skips next_key restart : Turn
  leaves : KeysEnd → Turn

-- What the loop knows of the provider: its index, the scope, the probe of its breaker, the provider
-- that the request began with, and whether the busy retry is spent.
pub record Place : Type 0 where
  pub index : ℕ
  pub scope : RoutingScope
  pub used_probe : Bool
  pub preferred_index : ℕ
  pub busy_retried : Bool

abbrev failure_of : Refusal → Failure
failure_of f = record { reason = f.reason; status = f.status; message = f.message }

-- Readings of the clock at the event of the run.
abbrev pub now_at : World → Run → ℕ → Time
now_at world r k = world.clock r.event k

site : RoutingScope → ℕ
site scope_default = 10
site scope_claude_count_tokens = 11
site scope_openai_responses = 12
site scope_gemini_stream = 13

overflows : World → Place → Run → Run × Turn
overflows world at r = (move_on at.index at.scope (now_at world r 3) r, leaves provider_failed)

-- `cp.acquireProviderBusyProbe(index)`, and on success the loop again.
retries_busy : World → Place → Run → Run × Turn
unfolding overflows
retries_busy world at r =
    let (cp, acquired) = acquire_provider_busy_probe r.cp (pos at.index) in
    let r' = record r { cp = cp } in
    if acquired then (record r' { busy_probe_held = true }, restart) else overflows world at r'

-- `failureBusyRetry`
pub on_busy : World → Place → Refusal → Run → Run × Turn
unfolding release_held overflows retries_busy
on_busy world at f r =
    let r1 = with_release at.index at.used_probe (release_held at.index r) in
    let (step, wait) = next_busy_backoff r1.cp (pos at.index) in
    let r2 = record r1 {
      cp = mark_provider_busy r1.cp (pos at.index) f.reason step (now_at world r 2) wait;
    } in
    if at.index == at.preferred_index
      && (not at.busy_retried && (ltb_ℤ (pos 0) wait && leb_ℤ wait r2.cp.routing.max_inline_wait))
    then if world.waited r.event then retries_busy world at r2 else (r2, leaves returns)
    else overflows world at r2

-- `isKeyScopedFailure(reason)`
pub on_key_failure : World → Place → ℕ → Refusal → Run → Run × Turn
unfolding key_failure_duration site
on_key_failure world at key_index f r =
    let d = key_failure_duration f.reason f.cooldown r.cp.reactivate_after in
    let r1 = record r {
      cp =
          if ltb_ℤ (pos 0) d
          then deactivate_key_for r.cp (pos at.index) (pos key_index) (failure_of f) d
              (now_at world r 2)
          else r.cp;
    } in
    if ltb 0 (available_key_count r1.cp (pos at.index) (now_at world r 3))
    then (
      record r1 {
        cp =
            set_current_key_index_for_scope r1.cp (pos at.index)
              (next_active_key_index r1.cp (pos at.index) (pos key_index) (now_at world r 4))
              at.scope;
      },
      next_key,
    )
    else let r2 = record r1 {
      cp =
          if ltb_ℤ (pos 0) d
          then deactivate_for r1.cp (pos at.index) (failure_of f) d (now_at world r 5)
              (now_at world r 6) (λ s. now_at world r (site s))
          else r1.cp;
    } in
      (with_failure at.index at.used_probe f.reason (now_at world r 8) r2, leaves key_exhausted)

cooldown_of : FailureAction → Duration → Duration → Duration
cooldown_of retry_next cooldown reactivate_after = cooldown
cooldown_of deactivate_and_retry_next cooldown reactivate_after = reactivate_after
cooldown_of busy_retry cooldown reactivate_after = pos 0

-- The failures of a provider as a whole. The next provider is chosen before the quarantine, and a
-- quarantine for no time is none.
pub on_provider_failure : World → Place → Refusal → Run → Run × Turn
unfolding cooldown_of site
on_provider_failure world at f r =
    let r1 = with_failure at.index at.used_probe f.reason (now_at world r 2) r in
    let next = next_active_index r1.cp (pos at.index) (now_at world r 3) in
    let d = cooldown_of f.action f.cooldown r1.cp.reactivate_after in
    let cp =
      deactivate_for r1.cp (pos at.index) (failure_of f) d (now_at world r 5) (now_at world r 6)
        (λ s. now_at world r (site s)) in
    (record r1 { cp = set_scope_index cp next at.scope }, leaves provider_failed)

on_refusal : FailureAction → World → Place → ℕ → Refusal → Run → Run × Turn
unfolding is_key_scoped_failure on_busy on_key_failure on_provider_failure
on_refusal busy_retry world at key_index f r = on_busy world at f r
on_refusal _ world at key_index f r =
    if is_key_scoped_failure f.reason
    then on_key_failure world at key_index f r
    else on_provider_failure world at f r

after_stream : StreamEnd → World → Place → Run → Run × Turn
after_stream (retries _) world at r =
    (move_on at.index at.scope (now_at world r 3) r, leaves provider_failed)
after_stream _ world at r = (r, leaves returns)

-- What an attempt with one key leads to.
pub on_attempt : Attempt → World → Place → ℕ → Run → Run × Turn
unfolding release_held on_refusal after_stream finish_stream
on_attempt (unprepared setup) world at key_index r = (
  with_release at.index at.used_probe (
      release_held at.index (record r {
        last_setup_failure = setup || r.last_setup_failure;
        setup_failures_only = setup && r.setup_failures_only;
      })),
  leaves provider_failed,
)
on_attempt cancelled world at key_index r = (
  with_release at.index at.used_probe
      (release_held at.index (record r { had_upstream_attempt = true })),
  leaves returns,
)
on_attempt unreachable world at key_index r =
    let failed =
      with_failure at.index at.used_probe network (now_at world r 2)
        (release_held at.index (record r { had_upstream_attempt = true })) in
    (move_on at.index at.scope (now_at world r 3) failed, leaves provider_failed)
on_attempt (refused f) world at key_index r =
    on_refusal f.action world at key_index f (record r { had_upstream_attempt = true })
on_attempt (streamed end) world at key_index r = after_stream end world at (
    finish_stream end at.index key_index at.scope at.used_probe (now_at world r 2)
      (record r { had_upstream_attempt = true }))

next_event : Run × Turn → Run × Turn
next_event (r, t) = (record r { event = r.event + 1 }, t)

-- The body of the loop for one key: a key in quarantine is skipped.
pub visit : World → Place → ℕ → Run → Run × Turn
unfolding on_attempt next_event
visit world at key_index r = next_event (
    if is_key_deactivated r.cp (pos at.index) (pos key_index) (now_at world r 0)
    then (r, skips)
    else on_attempt (world.attempt r.event) world at key_index
        (record r { tried = (at.index, key_index) ∷ r.tried }))
