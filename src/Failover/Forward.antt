-- ===== src/Failover/Forward.antt =====
-- internal/proxy/failover_forward.go and the ends of internal/proxy/failover_stream.go: what one
-- request does to the proxy. The network, the client and the clock are an environment that answers
-- in turn; logs, notifications and telemetry are left out.
pub mod Turns
pub mod Keys
pub mod Loop
pub mod Replies
pub mod Settling
use clipal.Common.{ℕ, ◌+◌, Bool, true, false, List, [], ◌∷◌, ℤ, pos, Text, leb_ℤ, if◌then◌else◌}
use clipal.Clock.{Time, Duration}
use clipal.Providers.{RoutingScope}
use clipal.Failover.State.{
  Reason, auth, billing, quota, rate_limit, overloaded, network, protocol_incomplete, ClientProxy,
  set_scope_index, set_current_key_index_for_scope,
}
use clipal.Failover.Cursors.{next_active_index}
use clipal.Failover.Busy.{clear_provider_busy, release_provider_busy_probe}
use clipal.Failover.Permits.{release_circuit_permit, record_circuit_success, record_circuit_failure}

unfoldable pub is_key_scoped_failure : Reason → Bool
is_key_scoped_failure auth = true
is_key_scoped_failure billing = true
is_key_scoped_failure quota = true
is_key_scoped_failure rate_limit = true
is_key_scoped_failure overloaded = true
is_key_scoped_failure _ = false

pub key_failure_duration : Reason → Duration → Duration → Duration
key_failure_duration auth cooldown reactivate_after = reactivate_after
key_failure_duration billing cooldown reactivate_after = reactivate_after
key_failure_duration quota cooldown reactivate_after =
    if leb_ℤ cooldown (pos 0) then reactivate_after else cooldown
key_failure_duration rate_limit cooldown reactivate_after = cooldown
key_failure_duration overloaded cooldown reactivate_after = cooldown
key_failure_duration _ cooldown reactivate_after = pos 0

-- `failureAction`, less the one that returns the response to the client.
pub data FailureAction : Type 0 where
  retry_next busy_retry deactivate_and_retry_next : FailureAction

-- A response that `classifyUpstreamFailure` does not return to the client.
pub record Refusal : Type 0 where
  pub action : FailureAction
  pub reason : Reason
  pub status : ℕ
  pub message : Text
  pub cooldown : Duration

-- How the streaming of a response ends: before anything is committed, so that the next provider is
-- tried, or for good. `true` in `client_gone` means that the response was committed.
pub data StreamEnd : Type 0 where
  retries : Reason → StreamEnd
  completed incomplete failed : StreamEnd
  client_gone : Bool → StreamEnd
  broken : Reason → StreamEnd

-- What becomes of an attempt: the request could not be built (`true` where the account's setup is the
-- cause), the client went away, no response came, it was refused, or it was streamed.
pub data Attempt : Type 0 where
  unprepared : Bool → Attempt
  cancelled unreachable : Attempt
  refused : Refusal → Attempt
  streamed : StreamEnd → Attempt

-- The answers of the world, by the number of the event that asks.
pub record World : Type 0 where
  pub attempt : ℕ → Attempt
  pub client_left : ℕ → Bool
  pub waited : ℕ → Bool
  pub clock : ℕ → ℕ → Time

-- The proxy and the local variables of `forwardWithFailover`; `tried` lists the attempts, the latest
-- first, by provider and key.
pub record Run : Type 0 where
  pub cp : ClientProxy
  pub event : ℕ
  pub tried : List (ℕ × ℕ)
  pub busy_probe_held : Bool
  pub had_upstream_attempt : Bool
  pub setup_failures_only : Bool
  pub last_setup_failure : Bool

-- `if busyProbeHeld { cp.releaseProviderBusyProbe(index); busyProbeHeld = false }`
pub release_held : ℕ → Run → Run
release_held index r =
    if r.busy_probe_held
    then record r { cp = release_provider_busy_probe r.cp (pos index); busy_probe_held = false }
    else r

-- The cursor of the scope goes to the next provider.
abbrev pub move_on : ℕ → RoutingScope → Time → Run → Run
move_on index scope now r = record r {
  cp = set_scope_index r.cp (next_active_index r.cp (pos index) now) scope;
}

abbrev pub with_failure : ℕ → Bool → Reason → Time → Run → Run
with_failure index used_probe reason now r = record r {
  cp = record_circuit_failure r.cp now (pos index) used_probe reason;
}

abbrev pub with_release : ℕ → Bool → Run → Run
with_release index used_probe r = record r {
  cp = release_circuit_permit r.cp (pos index) used_probe;
}

-- `onCommit`
abbrev commit : ℕ → ℕ → RoutingScope → Run → Run
commit index key_index scope r = record r {
  cp =
      set_current_key_index_for_scope (set_scope_index r.cp (pos index) scope) (pos index)
        (pos key_index) scope;
}

-- `onSuccess`, less what is learnt and recorded.
abbrev succeed : ℕ → Run → Run
succeed index r =
    let r' = release_held index r in record r' { cp = clear_provider_busy r'.cp (pos index) }

-- The commit and the report to the breaker at the end of a stream, and the return of a busy probe.
pub finish_stream : StreamEnd → ℕ → ℕ → RoutingScope → Bool → Time → Run → Run
unfolding release_held
finish_stream (retries reason) index key_index scope used_probe now r =
    release_held index (with_failure index used_probe reason now r)
finish_stream completed index key_index scope used_probe now r =
    let r' = succeed index (commit index key_index scope r) in
    record r' { cp = record_circuit_success r'.cp now (pos index) used_probe }
finish_stream incomplete index key_index scope used_probe now r =
    release_held index
      (with_failure index used_probe protocol_incomplete now (commit index key_index scope r))
finish_stream failed index key_index scope used_probe now r =
    release_held index (with_release index used_probe (commit index key_index scope r))
finish_stream (client_gone true) index key_index scope used_probe now r =
    release_held index (with_release index used_probe (commit index key_index scope r))
finish_stream (client_gone false) index key_index scope used_probe now r =
    release_held index (with_release index used_probe r)
finish_stream (broken reason) index key_index scope used_probe now r =
    release_held index (with_failure index used_probe reason now (commit index key_index scope r))
