-- ===== src/Failover/Waiting/Bounds.antt =====
-- That the time told until something is available is never longer than any of the waits it sums up.
use clipal.Common.{
  if◌then◌else◌, ℕ, zero, suc, ◌+◌, ◌-◌, ◌<◌, ◌≤◌, ◌≡◌, refl, ◌⊎◌, inl, true, false, List, [], ◌∷◌,
  Option, none, some, pos, arith, get_elem?, ◌==◌,
}
use clipal.Clock.{Time, Duration, sub}
use clipal.CircuitBreaker.{CircuitBreaker, peek_allow}
use clipal.Providers.{Provider}
use clipal.Failover.State.{Reason, ProviderDeactivation, ClientProxy, is_running}
use clipal.Failover.Waiting.{
  Soonest, none_yet, sooner, consider, soonest_of, consider_keys, soonest_keys, consider_breaker,
  soonest_breakers, time_until_next_available,
}
use clipal.Failover.Waiting.Ends.{Reaches, soonest_of-Reaches}

-- The time is not set, or it is past `now`.
abbrev Later : Time → Soonest → Type 0
Later now s = (s.at ≡ 0) ⊎ (now < s.at)

module _ (cp : ClientProxy) (now : Time) (read : ℕ → Time) where
  consider-Later :
      (s : Soonest) (d : ProviderDeactivation) → Later now s → Later now (consider now s d)
  unfolding consider
  consider-Later s d h = ground arith

  soonest_of-Later :
      (s : Soonest) (ds : List ProviderDeactivation) → Later now s → Later now (soonest_of now s ds)
  unfolding soonest_of
  soonest_of-Later s [] h = h
  soonest_of-Later s (d ∷ ds) h = soonest_of-Later (consider now s d) ds (consider-Later s d h)

  consider_keys-Later :
      (i : ℕ) (s : Soonest) → Later now s → Later now (consider_keys cp now read i s)
  unfolding consider_keys
  consider_keys-Later i s h = ground arith

  soonest_keys-Later :
      (ps : List Provider) (i : ℕ) (s : Soonest)
      → Later now s
      → Later now (soonest_keys cp now read ps i s)
  unfolding soonest_keys
  soonest_keys-Later [] i s h = h
  soonest_keys-Later (p ∷ ps) i s h =
      soonest_keys-Later ps (suc i) (consider_keys cp now read i s) (consider_keys-Later i s h)

  consider_keys-keeps :
      (i : ℕ) (s : Soonest) (t : Time) → Reaches s t → Reaches (consider_keys cp now read i s) t
  unfolding consider_keys sooner
  consider_keys-keeps i s t h = ground arith

  soonest_keys-keeps :
      (ps : List Provider) (i : ℕ) (s : Soonest) (t : Time)
      → Reaches s t
      → Reaches (soonest_keys cp now read ps i s) t
  unfolding soonest_keys
  soonest_keys-keeps [] i s t h = h
  soonest_keys-keeps (p ∷ ps) i s t h =
      soonest_keys-keeps ps (suc i) (consider_keys cp now read i s) t (consider_keys-keeps i s t h)

  consider_breaker-Later :
      (s : Soonest) (b : Option CircuitBreaker) → Later now s → Later now (consider_breaker now s b)
  unfolding consider_breaker sooner
  consider_breaker-Later s none h = h
  consider_breaker-Later s (some cb) h = ground arith

  soonest_breakers-Later :
      (s : Soonest) (bs : List (Option CircuitBreaker))
      → Later now s
      → Later now (soonest_breakers now s bs)
  unfolding soonest_breakers
  soonest_breakers-Later s [] h = h
  soonest_breakers-Later s (b ∷ bs) h =
      soonest_breakers-Later (consider_breaker now s b) bs (consider_breaker-Later s b h)

  consider_breaker-keeps :
      (s : Soonest) (b : Option CircuitBreaker) (t : Time)
      → Reaches s t
      → Reaches (consider_breaker now s b) t
  unfolding consider_breaker sooner
  consider_breaker-keeps s none t h = h
  consider_breaker-keeps s (some cb) t h = ground arith

  soonest_breakers-keeps :
      (s : Soonest) (bs : List (Option CircuitBreaker)) (t : Time)
      → Reaches s t
      → Reaches (soonest_breakers now s bs) t
  unfolding soonest_breakers
  soonest_breakers-keeps s [] t h = h
  soonest_breakers-keeps s (b ∷ bs) t h =
      soonest_breakers-keeps (consider_breaker now s b) bs t (consider_breaker-keeps s b t h)

  consider_breaker-Reaches :
      (s : Soonest) (cb : CircuitBreaker) (w : ℕ)
      → (peek_allow cb now).allowed ≡ false
      → (peek_allow cb now).wait ≡ pos w
      → 0 < w
      → Reaches (consider_breaker now s (some cb)) (now + w)
  unfolding consider_breaker sooner
  consider_breaker-Reaches s cb w a e h = ground arith

  soonest_breakers-Reaches :
      (s : Soonest) (bs : List (Option CircuitBreaker)) (j : ℕ) (cb : CircuitBreaker) (w : ℕ)
      → get_elem? bs j ≡ some (some cb)
      → (peek_allow cb now).allowed ≡ false
      → (peek_allow cb now).wait ≡ pos w
      → 0 < w
      → Reaches (soonest_breakers now s bs) (now + w)
  unfolding soonest_breakers
  soonest_breakers-Reaches s [] j cb w e a v h = ground arith
  soonest_breakers-Reaches s (none ∷ bs) zero cb w e a v h = ground arith
  soonest_breakers-Reaches s (some b ∷ bs) zero cb w e a v h =
      let same : b ≡ cb = ground arith in
      soonest_breakers-keeps (consider_breaker now s (some b)) bs (now + w)
        (rw same (consider_breaker-Reaches s cb w a v h))
  soonest_breakers-Reaches s (b ∷ bs) (suc j) cb w e a v h =
      soonest_breakers-Reaches (consider_breaker now s b) bs j cb w e a v h

-- A positive wait is told that ends at `t` or before.
pub record Within (now : Time) (told : Option (Duration × Reason)) (t : Time) : Type 0 where
  pub wait : ℕ
  pub reason : Reason
  pub is_told : told ≡ some (pos wait, reason)
  pub positive : 0 < wait
  pub timely : now + wait ≤ t

-- Each quarantine of a provider that runs, and each breaker that blocks for a positive time, lasts at
-- least as long as the wait that is told.
pub record Covers (cp : ClientProxy) (now : Time) (told : Option (Duration × Reason)) : Type 0 where
  pub by_providers :
      (j : ℕ) (d : ProviderDeactivation)
      → get_elem? cp.deactivated j ≡ some d
      → is_running d now ≡ true
      → Within now told d.until
  pub by_breakers :
      (j : ℕ) (cb : CircuitBreaker) (w : ℕ)
      → get_elem? cp.breakers j ≡ some (some cb)
      → (peek_allow cb now).allowed ≡ false
      → (peek_allow cb now).wait ≡ pos w
      → 0 < w
      → Within now told (now + w)

module _ (cp : ClientProxy) (now : Time) where
  abbrev after_providers : Soonest
  after_providers = soonest_of now none_yet cp.deactivated

  abbrev after_keys : Soonest
  after_keys = soonest_keys cp now (λ i. now) cp.providers 0 after_providers

  abbrev after_breakers : Soonest
  after_breakers = soonest_breakers now after_keys cp.breakers

  after_breakers-Later : Later now after_breakers
  after_breakers-Later =
      soonest_breakers-Later cp now (λ i. now) after_keys cp.breakers
        (soonest_keys-Later cp now (λ i. now) cp.providers 0 after_providers
          (soonest_of-Later cp now (λ i. now) none_yet cp.deactivated (inl refl)))

  told_lem : time_until_next_available cp now (λ i. now) now ≡ (
      if after_breakers.at == 0
      then none
      else some (sub after_breakers.at now, after_breakers.reason))
  unfolding time_until_next_available
  told_lem = refl

  within :
      (t : Time)
      → Reaches after_breakers t
      → Within now (time_until_next_available cp now (λ i. now) now) t
  within t (p, q) =
      let later : now < after_breakers.at = ground (arith, after_breakers-Later) in
      let set : (after_breakers.at == 0) ≡ false = ground arith in
      record {
        wait = after_breakers.at - now;
        reason = after_breakers.reason;
        is_told = rw (told_lem, set) (ground arith);
        positive = omega arith;
        timely = omega arith;
      }

-- Read on a clock that stands at `now`: if a quarantine of a provider runs or a breaker blocks for a
-- positive time, a positive wait is told, and it is not longer than any of those.
pub time_until_next_available-Covers :
    (cp : ClientProxy) (now : Time)
    → Covers cp now (time_until_next_available cp now (λ i. now) now)
time_until_next_available-Covers cp now = record {
  by_providers = λ j d e h. within cp now d.until (
      soonest_breakers-keeps cp now (λ i. now) (after_keys cp now) cp.breakers d.until
        (soonest_keys-keeps cp now (λ i. now) cp.providers 0 (after_providers cp now) d.until
          (soonest_of-Reaches now none_yet cp.deactivated j d e h)));
  by_breakers = λ j cb w e a v h.
      within cp now (now + w)
        (soonest_breakers-Reaches cp now (λ i. now) (after_keys cp now) cp.breakers j cb w e a v h);
}
