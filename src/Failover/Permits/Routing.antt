-- ===== src/Failover/Permits/Routing.antt =====
-- What a provider that may be used for routing gets from its breaker, and what it costs to give it back.
use clipal.Common.{
  ◌≡◌, ◌≢◌, ◌⊎◌, refl, ap, ◌∙◌, true, false, Bool, none, some, inl, inr, ℤ, arith, at?, set_at,
  at?-set_at_self, set_at-set_at, set_at-at?, Option-cases,
}
use clipal.Clock.{Time}
use clipal.CircuitBreaker.{
  CircuitBreaker, permit, peek_allow, allow, release_probe_neutral, circuit_open,
}
use clipal.CircuitBreaker.Invariant.{Inv}
use clipal.Failover.State.{ClientProxy}
use clipal.Failover.Availability.{circuit_admits, provider_available_for_routing}
use clipal.Failover.Permits.{breaker_at?, allow_circuit, release_circuit_permit}

-- A breaker that satisfies the invariant and admits is one that lets the request through.
admits_allows :
    (cb : CircuitBreaker) (now : Time)
    → Inv cb
    → circuit_admits (some (some cb)) now ≡ true
    → (allow cb now).0.allowed ≡ true
unfolding circuit_admits peek_allow allow
admits_allows cb now v h = ground arith

-- In every state but the open one, giving back what `allow` reserved restores the breaker.
allow_release :
    (cb : CircuitBreaker) (now : Time)
    → Inv cb
    → cb.state ≢ circuit_open
    → release_probe_neutral (allow cb now).1 (allow cb now).0.used_probe ≡ cb
unfolding allow release_probe_neutral
allow_release cb now v h = ground arith

module _ (cp : ClientProxy) (i : ℤ) (now : Time) where
  allow_without : breaker_at? cp i ≡ none → allow_circuit cp now i ≡ (permit false, cp)
  unfolding allow_circuit
  allow_without e = ground arith

  pub allow_with :
      (cb : CircuitBreaker)
      → at? cp.breakers i ≡ some (some cb)
      → allow_circuit cp now i
        ≡ ((allow cb now).0, record cp { breakers = set_at cp.breakers i (some (allow cb now).1) })
  unfolding allow_circuit
  allow_with cb e = ground arith

  release_without : (u : Bool) → breaker_at? cp i ≡ none → release_circuit_permit cp i u ≡ cp
  unfolding release_circuit_permit
  release_without u e = ground arith

release_with :
    (cp : ClientProxy) (i : ℤ) (u : Bool) (cb : CircuitBreaker)
    → at? cp.breakers i ≡ some (some cb)
    → release_circuit_permit cp i u
      ≡ record cp { breakers = set_at cp.breakers i (some (release_probe_neutral cb u)) }
unfolding release_circuit_permit
release_with cp i u cb e = ground arith

-- Either no breaker is behind the index or one is.
breaker_cases :
    (cp : ClientProxy) (i : ℤ)
    → (breaker_at? cp i ≡ none) ⊎ ((cb : CircuitBreaker) × (at? cp.breakers i ≡ some (some cb)))
breaker_cases cp i = elim (Option-cases (at? cp.breakers i)) [
  | inl e ↦ inl (ground arith)
  | inr (none, e) ↦ inl (ground arith)
  | inr (some cb, e) ↦ inr (cb, e)
]

available_admits :
    (cp : ClientProxy) (i : ℤ) (now : Time)
    → provider_available_for_routing cp i now ≡ true
    → circuit_admits (at? cp.breakers i) now ≡ true
unfolding provider_available_for_routing
available_admits cp i now h = ground arith

-- If the breaker of a provider, where it has one, satisfies the invariant, and the provider may be
-- used for routing, then the breaker lets the request through.
pub available_allowed :
    (cp : ClientProxy) (i : ℤ) (now : Time)
    → ((cb : CircuitBreaker) → at? cp.breakers i ≡ some (some cb) → Inv cb)
    → provider_available_for_routing cp i now ≡ true
    → (allow_circuit cp now i).0.allowed ≡ true
available_allowed cp i now v h = elim (breaker_cases cp i) [
  | inl e ↦ rw (allow_without cp i now e) refl
  | inr (cb, e) ↦
      rw (allow_with cp i now cb e)
        (admits_allows cb now (v cb e) (rw (← e) (available_admits cp i now h)))
]

-- If the breaker of a provider, where it has one, satisfies the invariant and is not open, then a permit that is taken and given
-- back neutrally leaves the proxy as it was.
pub allow_circuit_release :
    (cp : ClientProxy) (i : ℤ) (now : Time)
    → ((cb : CircuitBreaker)
        → at? cp.breakers i ≡ some (some cb)
        → Inv cb × (cb.state ≢ circuit_open))
    → release_circuit_permit (allow_circuit cp now i).1 i (allow_circuit cp now i).0.used_probe ≡ cp
allow_circuit_release cp i now v = elim (breaker_cases cp i) [
  | inl e ↦ rw (allow_without cp i now e) (release_without cp i now false e)
  | inr (cb, e) ↦
      let cb' = (allow cb now).1 in
      let released =
        release_with (record cp { breakers = set_at cp.breakers i (some cb') }) i
          (allow cb now).0.used_probe cb' (at?-set_at_self cp.breakers i (some cb') e) in
      let same = allow_release cb now (v cb e).0 (v cb e).1 in
      let restored : set_at cp.breakers i
            (some (release_probe_neutral cb' (allow cb now).0.used_probe))
          ≡ cp.breakers =
        rw same (set_at-at? cp.breakers i (some cb) e) in
      rw (allow_with cp i now cb e) (
        released
        ∙ ap (λ bs. record cp { breakers = bs })
            (set_at-set_at cp.breakers i (some cb')
                (some (release_probe_neutral cb' (allow cb now).0.used_probe))
              ∙ restored))
]
