-- ===== src/Failover/Waiting.antt =====
-- internal/proxy/failover_state.go: how long until something is available again, and the answer that
-- a request gets while nothing is. `time.Until(t)` is `t` less a reading of the clock of its own.
pub mod Ends
pub mod Answers
pub mod Bounds
use clipal.Common.{
  ℕ, suc, ◌+◌, ◌/◌, ◌||◌, List, [], ◌∷◌, Option, none, some, ℤ, pos, negsuc, at?, ltb, leb_ℤ,
  if◌then◌else◌,
}
use clipal.Clock.{Time, Duration, zero_time, is_zero, before, add, sub, second}
use clipal.CircuitBreaker.{
  CircuitBreaker, CircuitBlockReason, no_block, circuit_block_open, circuit_block_half_open_busy,
  peek_allow,
}
use clipal.Providers.{Provider}
use clipal.Failover.State.{
  Reason, no_reason, rate_limit, overloaded, circuit_is_open, circuit_is_busy, ProviderDeactivation,
  ClientProxy,
}
use clipal.Failover.Availability.{available_key_count}

-- The variables `soonest` and `soonestReason` of the loops; the zero time stands for none yet.
pub record Soonest : Type 0 where
  pub at : Time
  pub reason : Reason

abbrev pub none_yet : Soonest
none_yet = record { at = zero_time; reason = no_reason }

-- `if soonest.IsZero() || until.Before(soonest) { ... }`
pub sooner : Soonest → Time → Reason → Soonest
sooner s until reason =
    if is_zero s.at || before until s.at then record { at = until; reason = reason } else s

consider : Time → Soonest → ProviderDeactivation → Soonest
unfolding sooner
consider now s d =
    if is_zero d.until then s else if before now d.until then sooner s d.until d.reason else s

-- The loop over a slice of quarantines.
pub soonest_of : Time → Soonest → List ProviderDeactivation → Soonest
unfolding consider
soonest_of now s [] = s
soonest_of now s (d ∷ ds) = soonest_of now (consider now s d) ds

-- `if soonest.IsZero() { return 0, "", false }; return time.Until(soonest), soonestReason, true`
abbrev until_soonest : Soonest → Time → Option (Duration × Reason)
until_soonest s now = if is_zero s.at then none else some (sub s.at now, s.reason)

pub time_until_next_key_available : ClientProxy → ℤ → Time → Time → Option (Duration × Reason)
unfolding soonest_of
time_until_next_key_available cp provider_index now read =
    elim (at? cp.key_deactivated provider_index) [
      | none ↦ none
      | some ds ↦ until_soonest (soonest_of now none_yet ds) read
    ]

consider_keys : ClientProxy → Time → (ℕ → Time) → ℕ → Soonest → Soonest
unfolding time_until_next_key_available
consider_keys cp now read i s =
    if ltb 0 (available_key_count cp (pos i) now)
    then s
    else elim (time_until_next_key_available cp (pos i) now (read i)) [
      | none ↦ s
      | some (wait, reason) ↦ if leb_ℤ wait (pos 0) then s else sooner s (add now wait) reason
    ]

-- The loop over the providers, from index `i` on.
soonest_keys : ClientProxy → Time → (ℕ → Time) → List Provider → ℕ → Soonest → Soonest
unfolding consider_keys
soonest_keys cp now read [] i s = s
soonest_keys cp now read (p ∷ ps) i s =
    soonest_keys cp now read ps (suc i) (consider_keys cp now read i s)

-- `string(allow.reason)`
block_reason : CircuitBlockReason → Reason
block_reason no_block = no_reason
block_reason circuit_block_open = circuit_is_open
block_reason circuit_block_half_open_busy = circuit_is_busy

consider_breaker : Time → Soonest → Option CircuitBreaker → Soonest
unfolding block_reason
consider_breaker now s none = s
consider_breaker now s (some cb) =
    let answer = peek_allow cb now in
    if answer.allowed || leb_ℤ answer.wait (pos 0)
    then s
    else sooner s (add now answer.wait) (block_reason answer.reason)

soonest_breakers : Time → Soonest → List (Option CircuitBreaker) → Soonest
unfolding consider_breaker
soonest_breakers now s [] = s
soonest_breakers now s (b ∷ bs) = soonest_breakers now (consider_breaker now s b) bs

-- The first reading, those of the loop over the providers, and the last one.
pub time_until_next_available : ClientProxy → Time → (ℕ → Time) → Time → Option (Duration × Reason)
unfolding soonest_of soonest_keys soonest_breakers
time_until_next_available cp now read last =
    let s1 = soonest_of now none_yet cp.deactivated in
    let s2 = soonest_keys cp now read cp.providers 0 s1 in
    until_soonest (soonest_breakers now s2 cp.breakers) last

-- `int(wait/time.Second) + 1`, at least 1; Go's division truncates towards zero.
pub retry_after_seconds : Duration → ℕ
retry_after_seconds (pos n) = n / second + 1
retry_after_seconds (negsuc n) = 1

-- The status and the Retry-After header of a response.
pub record Unavailable : Type 0 where
  pub status : ℕ
  pub retry_after : ℕ

abbrev pub status_too_many_requests : ℕ
status_too_many_requests = 429

abbrev pub status_service_unavailable : ℕ
status_service_unavailable = 503

pub unavailable_status : Reason → ℕ
unavailable_status rate_limit = status_too_many_requests
unavailable_status overloaded = status_too_many_requests
unavailable_status _ = status_service_unavailable

-- `handleAllUnavailable`: the response that is written, or `none` where it returns false.
pub handle_all_unavailable : Option (Duration × Reason) → Option Unavailable
unfolding retry_after_seconds unavailable_status
handle_all_unavailable none = none
handle_all_unavailable (some (wait, reason)) =
    if leb_ℤ wait (pos 0)
    then none
    else some
        (record { status = unavailable_status reason; retry_after = retry_after_seconds wait })
