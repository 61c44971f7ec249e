-- ===== src/Failover/Forward/Replies.antt =====
-- internal/proxy/failover_forward.go: `forwardWithFailover` before and after its loop, and the answer
-- that the client gets.
use clipal.Common.{
  ℕ, ◌+◌, ◌==◌, true, false, not, ◌&&◌, Option, none, some, ℤ, pos, negsuc, length, leb_ℤ, ltb, at?,
  [], if◌then◌else◌,
}
use clipal.Clock.{Duration}
use clipal.Providers.{provider_supports_capability}
use clipal.Failover.State.{Reason, ClientProxy, set_current_key_index_for_scope}
use clipal.Failover.Availability.{is_deactivated, available_key_count, active_provider_count}
use clipal.Failover.Cursors.{get_active_count_and_start_index_for_scope}
use clipal.Failover.Quarantine.{reactivate_expired}
use clipal.Failover.Waiting.{Unavailable, time_until_next_available, handle_all_unavailable}
use clipal.Failover.Forward.{World, Run}
use clipal.Failover.Forward.Turns.{now_at}
use clipal.Failover.Forward.Loop.{Request, LoopEnd, stopped, ran_out, providers_loop}

-- What reading the request's body comes to.
pub data BodyRead : Type 0 where
  body_read body_too_large body_failed : BodyRead

-- `none` is a response that the loop has written, or none at all where the client is gone.
pub data Reply : Type 0 where
  written : Reply
  -- With Retry-After.
  unavailable : Unavailable → Reply
  all_unavailable rejected_too_large rejected_body : Reply
  setup_rejected all_failed : Reply

-- The start of the loop: the provider that the sticky state prefers, if it may be used, with its key.
pub preferred_start : World → Request → Option (ℕ × ℤ) → ℕ → Run → Run × ℕ
preferred_start world request none start r = (r, start)
preferred_start world request (some (index, key_index)) start r =
    elim (at? r.cp.providers (pos index)) [
      | none ↦ (r, start)
      | some provider ↦
          if provider_supports_capability provider request.capability
            && (not (is_deactivated r.cp (pos index) (now_at world r 1))
                && ltb 0 (available_key_count r.cp (pos index) (now_at world r 2)))
          then (
            record r {
              cp =
                  if leb_ℤ (pos 0) key_index
                  then set_current_key_index_for_scope r.cp (pos index) key_index request.scope
                  else r.cp;
            },
            index,
          )
          else (r, start)
    ]

-- The answer of `timeUntilNextAvailable` at an event.
told : World → Run → Option (Duration × Reason)
told world r =
    time_until_next_available r.cp (now_at world r 3) (λ i. now_at world r (i + 5))
      (now_at world r 4)

or_else : Reply → Option Unavailable → Reply
or_else reply none = reply
or_else reply (some u) = unavailable u

-- The answer once the loop has run out.
pub conclude : World → Run → Reply
unfolding told or_else
conclude world r =
    let failed =
      if not r.had_upstream_attempt && (r.setup_failures_only && r.last_setup_failure)
      then setup_rejected
      else all_failed in
    if active_provider_count r.cp (now_at world r 2) == 0
    then or_else failed (handle_all_unavailable (told world r))
    else failed

after_loop : LoopEnd → World → Run → Run × Reply
after_loop stopped world r = (r, written)
after_loop ran_out world r = (r, conclude world r)

index_of : ℤ → ℕ
index_of (pos n) = n
index_of (negsuc n) = 0

abbrev started : ClientProxy → Run
started cp = record {
  cp = cp;
  event = 0;
  tried = [];
  busy_probe_held = false;
  had_upstream_attempt = false;
  setup_failures_only = true;
  last_setup_failure = false;
}

with_body : BodyRead → World → Request → Option (ℕ × ℤ) → ℕ → ℕ → Run → Run × Reply
unfolding after_loop conclude
with_body body_too_large world request preferred active start r = (r, rejected_too_large)
with_body body_failed world request preferred active start r = (r, rejected_body)
with_body body_read world request preferred active start r =
    let (r1, first) = preferred_start world request preferred start r in
    let (r2, end) =
      providers_loop world request first first active (length r.cp.providers) 0 0
        (record r1 { event = r1.event + 1 }) in
    after_loop end world r2

-- `forwardWithFailover` in automatic mode.
pub forward : World → Request → BodyRead → Option (ℕ × ℤ) → ClientProxy → Run × Reply
unfolding with_body told or_else index_of
forward world request body preferred cp =
    let r = started (reactivate_expired cp (world.clock 0 0)) in
    let (cp', active, start) =
      get_active_count_and_start_index_for_scope r.cp request.scope request.capability
        (world.clock 0 1) in
    if world.client_left 0
    then (r, written)
    else if active == 0
    then (record r { cp = cp' }, or_else all_unavailable (handle_all_unavailable (told world r)))
    else with_body body world request preferred active (index_of start)
        (record r { cp = cp'; event = 1 })
