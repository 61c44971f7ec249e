-- ===== src/CircuitBreaker/Probes.antt =====
-- How many requests hold a probe of a half-open breaker, as long as each reports in the period that
-- gave it the probe, and what a probe that is reported in a later period does.
use clipal.Common.{ℕ, suc, ◌+◌, ◌<◌, ◌≤◌, ◌≡◌, true, false, arith, pos, ◌≤ℤ◌, if◌then◌else◌}
use clipal.Clock.{Time}
use clipal.CircuitBreaker.{
  circuit_open, circuit_half_open, CircuitBreaker, CircuitAllowResult, permit, allow,
  record_success, record_failure, release_probe_neutral,
}

-- One half-open period of a breaker, with the number of requests that hold a probe of this period: it
-- begins when an open breaker lets a request through, and goes on while the state stays half-open. A
-- request that reports holds a probe of the period or no probe at all.
pub data Period : CircuitBreaker → ℕ → Type 0 where
  enters :
      (cb after : CircuitBreaker) (now : Time)
      → cb.enabled ≡ true
      → cb.state ≡ circuit_open
      → allow cb now ≡ (permit true, after)
      → Period after 1
  asks :
      {cb : CircuitBreaker} {held : ℕ} (after : CircuitBreaker) (now : Time)
      (answer : CircuitAllowResult)
      → Period cb held
      → allow cb now ≡ (answer, after)
      → Period after (if answer.used_probe then suc held else held)
  releases :
      {cb : CircuitBreaker} {held : ℕ} (after : CircuitBreaker)
      → Period cb (suc held)
      → release_probe_neutral cb true ≡ after
      → Period after held
  succeeds :
      {cb : CircuitBreaker} {held : ℕ} (after : CircuitBreaker) (now : Time)
      → Period cb (suc held)
      → record_success cb now true ≡ after
      → after.state ≡ circuit_half_open
      → Period after held
  leaves :
      {cb : CircuitBreaker} {held : ℕ} (after : CircuitBreaker)
      → Period cb held
      → release_probe_neutral cb false ≡ after
      → Period after held
  strays :
      {cb : CircuitBreaker} {held : ℕ} (after : CircuitBreaker) (now : Time)
      → Period cb held
      → record_success cb now false ≡ after
      → after.state ≡ circuit_half_open
      → Period after held

pub record Counts (cb : CircuitBreaker) (held : ℕ) : Type 0 where
  pub is_enabled : cb.enabled ≡ true
  pub half_open : cb.state ≡ circuit_half_open
  pub counted : cb.half_open_in_flight ≡ held
  pub capped : pos held ≤ℤ cb.half_open_max_in_flight

enters-Counts :
    (cb after : CircuitBreaker) (now : Time)
    → cb.enabled ≡ true
    → cb.state ≡ circuit_open
    → allow cb now ≡ (permit true, after)
    → Counts after 1
unfolding allow
enters-Counts cb after now e o a = ground arith

asks-Counts :
    (cb after : CircuitBreaker) (held : ℕ) (now : Time) (answer : CircuitAllowResult)
    → Counts cb held
    → allow cb now ≡ (answer, after)
    → Counts after (if answer.used_probe then suc held else held)
unfolding allow
asks-Counts cb after held now answer c a = ground arith

releases-Counts :
    (cb after : CircuitBreaker) (held : ℕ)
    → Counts cb (suc held)
    → release_probe_neutral cb true ≡ after
    → Counts after held
unfolding release_probe_neutral
releases-Counts cb after held c a = ground arith

leaves-Counts :
    (cb after : CircuitBreaker) (held : ℕ)
    → Counts cb held
    → release_probe_neutral cb false ≡ after
    → Counts after held
unfolding release_probe_neutral
leaves-Counts cb after held c a = ground arith

succeeds-Counts :
    (cb after : CircuitBreaker) (held : ℕ) (now : Time)
    → Counts cb (suc held)
    → record_success cb now true ≡ after
    → after.state ≡ circuit_half_open
    → Counts after held
unfolding record_success
succeeds-Counts cb after held now c a h = ground arith

strays-Counts :
    (cb after : CircuitBreaker) (held : ℕ) (now : Time)
    → Counts cb held
    → record_success cb now false ≡ after
    → after.state ≡ circuit_half_open
    → Counts after held
unfolding record_success
strays-Counts cb after held now c a h = ground arith

-- In a half-open period in which every request that reports holds a probe of that same period or no
-- probe at all, the breaker's counter is the number of requests that hold a probe of the period, and
-- that number never passes the configured maximum. Reports of probes that an earlier period gave out
-- are excluded; with them the bound fails (see `stale_release_overruns`).
pub Period-Counts : {cb : CircuitBreaker} {held : ℕ} → Period cb held → Counts cb held
Period-Counts (enters b a t e o p) = enters-Counts b a t e o p
Period-Counts (asks {cb = b} {held = k} a t r q p) = asks-Counts b a k t r (Period-Counts q) p
Period-Counts (releases {cb = b} {held = k} a q p) = releases-Counts b a k (Period-Counts q) p
Period-Counts (leaves {cb = b} {held = k} a q p) = leaves-Counts b a k (Period-Counts q) p
Period-Counts (succeeds {cb = b} {held = k} a t q p h) =
    succeeds-Counts b a k t (Period-Counts q) p h
Period-Counts (strays {cb = b} {held = k} a t q p h) = strays-Counts b a k t (Period-Counts q) p h

-- Across periods the bound fails. Let a half-open breaker with room for one probe have that probe
-- out. After a failure reported with no probe at `t`, a request at a time when the timeout has
-- elapsed gets a probe; then the first probe's neutral release makes room for one more, so that a
-- further request gets a probe while the second one is still out.
pub stale_release_overruns :
    (cb : CircuitBreaker) (t u v d : ℕ)
    → cb.enabled ≡ true
    → cb.state ≡ circuit_half_open
    → cb.half_open_max_in_flight ≡ pos 1
    → cb.half_open_in_flight ≡ 1
    → cb.open_timeout ≡ pos d
    → 0 < t
    → t + d ≤ u
    → let opened = record_failure cb t false in
      let (second, probing) = allow opened u in
      let (third, after) = allow (release_probe_neutral probing true) v in
      (second ≡ permit true) × (third ≡ permit true)
unfolding record_failure allow release_probe_neutral
stale_release_overruns cb t u v d e h m i o p q = ground arith
