-- ===== src/Failover/Permits.antt =====
-- internal/proxy/failover_state.go: a provider's circuit breaker, reached by its index. A nil breaker
-- lets everything through and records nothing.
pub mod Routing
pub mod Reports
use clipal.Common.{Bool, true, false, Option, none, some, ℤ, at?, set_at, if◌then◌else◌}
use clipal.Clock.{Time}
use clipal.CircuitBreaker.{
  CircuitBreaker, CircuitAllowResult, permit, allow, record_success, record_failure,
  release_probe_neutral,
}
use clipal.Failover.State.{
  Reason, network, server, idle_timeout, ClientMode, mode_auto, mode_manual, ClientProxy,
}

-- The breaker behind an index, which all callers share.
abbrev pub breaker_at? : ClientProxy → ℤ → Option CircuitBreaker
breaker_at? cp index = elim (at? cp.breakers index) [
  | none ↦ none
  | some none ↦ none
  | some (some cb) ↦ some cb
]

abbrev put_breaker : ClientProxy → ℤ → CircuitBreaker → ClientProxy
put_breaker cp index cb = record cp { breakers = set_at cp.breakers index (some cb) }

unfoldable pub allow_circuit : ClientProxy → Time → ℤ → CircuitAllowResult × ClientProxy
allow_circuit cp now index = elim (breaker_at? cp index) [
  | none ↦ (permit false, cp)
  | some cb ↦ let (answer, cb') = allow cb now in (answer, put_breaker cp index cb')
]

pub release_circuit_permit : ClientProxy → ℤ → Bool → ClientProxy
release_circuit_permit cp index used_probe = elim (breaker_at? cp index) [
  | none ↦ cp
  | some cb ↦ put_breaker cp index (release_probe_neutral cb used_probe)
]

pub should_record_circuit_failure : Reason → Bool
should_record_circuit_failure network = true
should_record_circuit_failure server = true
should_record_circuit_failure idle_timeout = true
should_record_circuit_failure _ = false

success_in : ClientMode → ClientProxy → Time → ℤ → Bool → ClientProxy
success_in mode_manual cp now index used_probe = release_circuit_permit cp index used_probe
success_in mode_auto cp now index used_probe = elim (breaker_at? cp index) [
  | none ↦ cp
  | some cb ↦ put_breaker cp index (record_success cb now used_probe)
]

pub record_circuit_success : ClientProxy → Time → ℤ → Bool → ClientProxy
unfolding success_in release_circuit_permit
record_circuit_success cp now index used_probe = success_in cp.mode cp now index used_probe

failure_in : ClientMode → ClientProxy → Time → ℤ → Bool → Reason → ClientProxy
failure_in mode_manual cp now index used_probe _ = release_circuit_permit cp index used_probe
failure_in mode_auto cp now index used_probe reason = elim (breaker_at? cp index) [
  | none ↦ cp
  | some cb ↦ put_breaker cp index (
      if should_record_circuit_failure reason
      then record_failure cb now used_probe
      else release_probe_neutral cb used_probe)
]

pub record_circuit_failure : ClientProxy → Time → ℤ → Bool → Reason → ClientProxy
unfolding failure_in release_circuit_permit should_record_circuit_failure
record_circuit_failure cp now index used_probe reason =
    failure_in cp.mode cp now index used_probe reason
