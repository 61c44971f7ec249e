-- ===== src/Failover/Busy.antt =====
-- internal/proxy/failover_state.go: providers that answered "busy" wait and are then probed.
pub mod Probes
pub mod Backoff
pub mod Breakers
use clipal.Common.{
  ℕ, ◌+◌, ◌-◌, Bool, true, false, ◌||◌, not, List, Option, none, some, ℤ, pos, at?, set_at, length,
  get_elem?, ltb, leb, leb_ℤ, if◌then◌else◌,
}
use clipal.Clock.{Time, Duration, is_zero, before, add, sub}
use clipal.Failover.State.{Reason, no_reason, ProviderBusyState, not_busy, ClientProxy}

-- `cp.providerBusy[index] = busy`
abbrev put_busy : ClientProxy → ℤ → ProviderBusyState → ClientProxy
put_busy cp index busy = record cp { provider_busy = set_at cp.provider_busy index busy }

abbrev pub has_reason : Reason → Bool
has_reason no_reason = false
has_reason _ = true

pub merge_busy : ProviderBusyState → Reason → ℕ → Time → ProviderBusyState
merge_busy busy reason backoff_step until = record busy {
  backoff_step = if ltb busy.backoff_step backoff_step then backoff_step else busy.backoff_step;
  until = if before busy.until until then until else busy.until;
  reason = if has_reason reason then reason else busy.reason;
}

pub mark_provider_busy : ClientProxy → ℤ → Reason → ℕ → Time → Duration → ClientProxy
unfolding merge_busy
mark_provider_busy cp index reason backoff_step now wait =
    if leb_ℤ wait (pos 0) then cp else elim (at? cp.provider_busy index) [
      | none ↦ cp
      | some busy ↦ put_busy cp index (merge_busy busy reason backoff_step (add now wait))
    ]

pub provider_busy_snapshot : ClientProxy → ℤ → ProviderBusyState
provider_busy_snapshot cp index = elim (at? cp.provider_busy index) [ none ↦ not_busy | some b ↦ b ]

-- `none` where the provider is not busy at `now`; `read` is the reading of `time.Until`.
pub provider_busy_wait : ClientProxy → ℤ → Time → Time → Option Duration
provider_busy_wait cp index now read = elim (at? cp.provider_busy index) [
  | none ↦ none
  | some busy ↦
      if is_zero busy.until || not (before now busy.until) then none else some (sub busy.until read)
]

pub clear_provider_busy : ClientProxy → ℤ → ClientProxy
clear_provider_busy cp index = put_busy cp index not_busy

unfoldable pub probe_limit : ClientProxy → ℤ
probe_limit cp =
    let limit = cp.routing.busy_probe_max_in_flight in if leb_ℤ limit (pos 0) then pos 1 else limit

unfoldable pub acquire_provider_busy_probe : ClientProxy → ℤ → ClientProxy × Bool
unfolding probe_limit
acquire_provider_busy_probe cp index = elim (at? cp.provider_busy index) [
  | none ↦ (cp, false)
  | some busy ↦
      if leb_ℤ (probe_limit cp) (pos busy.probe_in_flight)
      then (cp, false)
      else (put_busy cp index (record busy { probe_in_flight = busy.probe_in_flight + 1 }), true)
]

pub release_provider_busy_probe : ClientProxy → ℤ → ClientProxy
release_provider_busy_probe cp index = elim (at? cp.provider_busy index) [
  | none ↦ cp
  | some busy ↦
      if ltb 0 busy.probe_in_flight
      then put_busy cp index (record busy { probe_in_flight = busy.probe_in_flight - 1 })
      else cp
]

abbrev pub next_step : ProviderBusyState → ℕ
next_step busy =
    if not (is_zero busy.until) || (has_reason busy.reason || ltb 0 busy.backoff_step)
    then busy.backoff_step + 1
    else 0

-- The step is held at the last delay; the delay is zero where none is configured.
step_delay : List Duration → ℕ → ℕ × Duration
step_delay delays step =
    let held = if leb (length delays) step then length delays - 1 else step in
    elim (get_elem? delays held) [ none ↦ (step, pos 0) | some d ↦ (held, d) ]

pub next_busy_backoff : ClientProxy → ℤ → ℕ × Duration
unfolding step_delay
next_busy_backoff cp index = elim (at? cp.provider_busy index) [
  | none ↦ step_delay cp.routing.busy_retry_delays 0
  | some busy ↦ step_delay cp.routing.busy_retry_delays (next_step busy)
]
