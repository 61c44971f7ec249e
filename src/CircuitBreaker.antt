-- ===== src/CircuitBreaker.antt =====
-- internal/proxy/circuit_breaker.go: the three-state breaker that stands before each provider.
-- A method that mutates `*circuitBreaker` under its mutex returns the new record. Counters are
-- natural numbers: the code raises them from 0 by one, and lowers one only where it is above 0.
-- Log lines are left out. `circuit_other` stands for any string but the three state names.
pub mod Invariant
pub mod Recovery
pub mod Agreement
pub mod Tripping
pub mod Probes
mod Tests
use clipal.Common.{
  ℕ, ◌+◌, ◌-◌, ◌*◌, Bool, true, false, ◌&&◌, ◌||◌, Option, none, some, ltb, leb, if◌then◌else◌, ℤ,
  pos, leb_ℤ, ◌-ℤ◌,
}
use clipal.Clock.{Time, Duration, zero_time, is_zero, sub, second, seconds}

pub data CircuitState : Type 0 where
  circuit_closed circuit_open circuit_half_open circuit_other : CircuitState

-- `no_block` is the empty reason of an allowed request.
pub data CircuitBlockReason : Type 0 where
  no_block circuit_block_open circuit_block_half_open_busy : CircuitBlockReason

abbrev pub half_open_busy_retry_after : Duration
half_open_busy_retry_after = seconds 1

pub record CircuitBreakerConfig : Type 0 where
  pub enabled : Bool
  pub failure_threshold : ℤ
  pub success_threshold : ℤ
  pub open_timeout : Duration
  pub half_open_max_in_flight : ℤ

-- The fields of `config.CircuitBreakerConfig`; `open_timeout` is what `OpenTimeoutDuration`, a call
-- of `time.ParseDuration`, returns, with `none` for its error.
pub record RawConfig : Type 0 where
  pub failure_threshold : ℤ
  pub success_threshold : ℤ
  pub open_timeout : Option Duration
  pub half_open_max_in_flight : ℤ

open_timeout_or_default : Option Duration → Duration
open_timeout_or_default none = seconds 60
open_timeout_or_default (some d) = if leb_ℤ d (pos 0) then seconds 60 else d

pub normalize_circuit_breaker_config : RawConfig → CircuitBreakerConfig
unfolding open_timeout_or_default
normalize_circuit_breaker_config cfg =
    let out : CircuitBreakerConfig = record {
      enabled = false;
      failure_threshold = cfg.failure_threshold;
      success_threshold = cfg.success_threshold;
      open_timeout = pos 0;
      half_open_max_in_flight = cfg.half_open_max_in_flight;
    } in
    if leb_ℤ cfg.failure_threshold (pos 0)
    then out
    else let timed = record out { open_timeout = open_timeout_or_default cfg.open_timeout } in
      if leb_ℤ cfg.success_threshold (pos 0) || leb_ℤ cfg.half_open_max_in_flight (pos 0)
      then timed
      else record timed { enabled = true }

pub record CircuitBreaker : Type 0 where
  pub cfg : CircuitBreakerConfig
  pub open cfg use *
  pub state : CircuitState
  pub consecutive_failures : ℕ
  pub consecutive_successes : ℕ
  pub opened_at : Time
  pub half_open_in_flight : ℕ

pub record CircuitAllowResult : Type 0 where
  pub allowed : Bool
  pub used_probe : Bool
  pub wait : Duration
  pub reason : CircuitBlockReason

abbrev pub permit : Bool → CircuitAllowResult
permit probe = record { allowed = true; used_probe = probe; wait = pos 0; reason = no_block }

abbrev pub block : Duration → CircuitBlockReason → CircuitAllowResult
block wait reason = record { allowed = false; used_probe = false; wait = wait; reason = reason }

unfoldable pub new_circuit_breaker : CircuitBreakerConfig → CircuitBreaker
new_circuit_breaker cfg = record {
  cfg = cfg;
  state = circuit_closed;
  consecutive_failures = 0;
  consecutive_successes = 0;
  opened_at = zero_time;
  half_open_in_flight = 0;
}

-- The test `cb.halfOpenInFlight >= cb.cfg.halfOpenMaxInFlight`.
abbrev is_busy : CircuitBreaker → Bool
is_busy cb = leb_ℤ cb.half_open_max_in_flight (pos cb.half_open_in_flight)

-- The test `elapsed >= cb.cfg.openTimeout`.
abbrev has_cooled : CircuitBreaker → Time → Bool
has_cooled cb now = leb_ℤ cb.open_timeout (sub now cb.opened_at)

abbrev open_wait : CircuitBreaker → Time → Duration
open_wait cb now = cb.open_timeout -ℤ sub now cb.opened_at

peek_state : CircuitState → CircuitBreaker → Time → CircuitAllowResult
peek_state circuit_closed cb now = permit false
peek_state circuit_open cb now =
    if is_zero cb.opened_at
    then block cb.open_timeout circuit_block_open
    else if has_cooled cb now
    then if is_busy cb
      then block half_open_busy_retry_after circuit_block_half_open_busy
      else permit false
    else block (open_wait cb now) circuit_block_open
peek_state circuit_half_open cb now =
    if is_busy cb
    then block half_open_busy_retry_after circuit_block_half_open_busy
    else permit false
peek_state circuit_other cb now = permit false

unfoldable pub peek_allow : CircuitBreaker → Time → CircuitAllowResult
unfolding peek_state
peek_allow cb now = if cb.enabled then peek_state cb.state cb now else permit false

-- The half-open case of `allow`, which the open case falls through to.
reserve_probe : CircuitBreaker → CircuitAllowResult × CircuitBreaker
reserve_probe cb =
    if is_busy cb
    then (block half_open_busy_retry_after circuit_block_half_open_busy, cb)
    else (permit true, record cb { half_open_in_flight = cb.half_open_in_flight + 1 })

allow_state : CircuitState → CircuitBreaker → Time → CircuitAllowResult × CircuitBreaker
unfolding reserve_probe
allow_state circuit_closed cb now = (permit false, cb)
allow_state circuit_open cb now =
    if is_zero cb.opened_at
    then (block cb.open_timeout circuit_block_open, cb)
    else if has_cooled cb now
    then reserve_probe (record cb {
      state = circuit_half_open;
      consecutive_successes = 0;
      half_open_in_flight = 0;
    })
    else (block (open_wait cb now) circuit_block_open, cb)
allow_state circuit_half_open cb now = reserve_probe cb
allow_state circuit_other cb now = (
  permit false,
  record cb {
    state = circuit_closed;
    consecutive_failures = 0;
    consecutive_successes = 0;
    opened_at = zero_time;
    half_open_in_flight = 0;
  },
)

unfoldable pub allow : CircuitBreaker → Time → CircuitAllowResult × CircuitBreaker
unfolding allow_state
allow cb now = if cb.enabled then allow_state cb.state cb now else (permit false, cb)

-- `if usedProbe && cb.halfOpenInFlight > 0 { cb.halfOpenInFlight-- }`
return_probe : CircuitBreaker → Bool → CircuitBreaker
return_probe cb used_probe =
    if used_probe && ltb 0 cb.half_open_in_flight
    then record cb { half_open_in_flight = cb.half_open_in_flight - 1 }
    else cb

count_success : CircuitState → CircuitBreaker → CircuitBreaker
count_success circuit_half_open cb =
    let counted = record cb { consecutive_successes = cb.consecutive_successes + 1 } in
    if leb_ℤ cb.success_threshold (pos (cb.consecutive_successes + 1))
    then record counted {
      state = circuit_closed;
      consecutive_successes = 0;
      opened_at = zero_time;
      half_open_in_flight = 0;
    }
    else counted
count_success _ cb = cb

unfoldable pub record_success : CircuitBreaker → Time → Bool → CircuitBreaker
unfolding return_probe count_success
record_success cb now used_probe =
    if cb.enabled
    then count_success cb.state (record (return_probe cb used_probe) { consecutive_failures = 0 })
    else cb

unfoldable pub transition_to_open : CircuitBreaker → Time → CircuitBreaker
transition_to_open cb now = record cb {
  state = circuit_open;
  opened_at = now;
  consecutive_failures = 0;
  consecutive_successes = 0;
  half_open_in_flight = 0;
}

count_failure : CircuitState → CircuitBreaker → Time → CircuitBreaker
unfolding transition_to_open
count_failure circuit_half_open cb now = transition_to_open cb now
count_failure circuit_open cb now = cb
count_failure _ cb now =
    let counted = record cb { consecutive_failures = cb.consecutive_failures + 1 } in
    if leb_ℤ cb.failure_threshold (pos (cb.consecutive_failures + 1))
    then transition_to_open counted now
    else counted

unfoldable pub record_failure : CircuitBreaker → Time → Bool → CircuitBreaker
unfolding return_probe count_failure
record_failure cb now used_probe =
    if cb.enabled then count_failure cb.state (return_probe cb used_probe) now else cb

-- Unlike the other methods this one does not ask whether the breaker is enabled.
unfoldable pub release_probe_neutral : CircuitBreaker → Bool → CircuitBreaker
unfolding return_probe
release_probe_neutral cb used_probe = return_probe cb used_probe

snapshot_state : CircuitState → CircuitBreaker → Time → CircuitState × Duration
snapshot_state circuit_open cb now =
    if is_zero cb.opened_at
    then (circuit_open, cb.open_timeout)
    else if has_cooled cb now
    then (circuit_half_open, pos 0)
    else (circuit_open, open_wait cb now)
snapshot_state circuit_half_open cb now = (circuit_half_open, pos 0)
snapshot_state _ cb now = (circuit_closed, pos 0)

pub snapshot : CircuitBreaker → Time → CircuitState × Duration
unfolding snapshot_state
snapshot cb now = if cb.enabled then snapshot_state cb.state cb now else (circuit_closed, pos 0)
