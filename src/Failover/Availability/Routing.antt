-- ===== src/Failover/Availability/Routing.antt =====
-- When a provider may be used.
use clipal.Common.{
  ℕ, ◌<◌, ◌≤◌, ◌≡◌, ◌⊎◌, inl, inr, refl, ap, ◌∙◌, sym, subst, ◌↔◌, true, false, List, Option, none,
  some, ℤ, pos, ◌≤ℤ◌, arith, at?, length, Text, Option-cases, Bool-cases, ◌==◌, if◌then◌else◌,
}
use clipal.Clock.{Time}
use clipal.CircuitBreaker.{CircuitBreaker, peek_allow}
use clipal.Providers.{Provider}
use clipal.Failover.State.{ClientProxy, ProviderDeactivation, is_running}
use clipal.Failover.Availability.{
  deactivation_at, key_deactivation_at?, is_key_deactivated, keys_of, available_key_count,
  circuit_admits, provider_available_for_routing,
}
use clipal.Failover.Availability.Counting.{available_key_count_pos, available_key_count_zero}

-- The breaker, where there is one, lets a request through or asks for no wait.
abbrev pub Admits : Option (Option CircuitBreaker) → Time → Type 0
Admits none now = Unit
Admits (some none) now = Unit
Admits (some (some cb)) now =
    ((peek_allow cb now).allowed ≡ true) ⊎ ((peek_allow cb now).wait ≤ℤ pos 0)

-- A quarantine that there is none of, that was never set or that is over.
abbrev pub IsLifted : Option ProviderDeactivation → Time → Type 0
IsLifted none now = Unit
IsLifted (some d) now = (d.until ≡ 0) ⊎ (d.until ≤ now)

abbrev pub IsKeyLifted : Option (List ProviderDeactivation) → ℕ → Time → Type 0
IsKeyLifted none j now = Unit
IsKeyLifted (some ds) j now = IsLifted (at? ds (pos j)) now

pub record IsRoutable (cp : ClientProxy) (index : ℤ) (now : Time) : Type 0 where
  pub provider : Provider
  pub is_at : at? cp.providers index ≡ some provider
  pub not_quarantined : IsLifted (at? cp.deactivated index) now
  pub keys : List Text
  pub keys_at : at? cp.provider_keys index ≡ some keys
  pub key : ℕ
  pub is_key : key < length keys
  pub key_not_quarantined : IsKeyLifted (at? cp.key_deactivated index) key now
  pub admitted : Admits (at? cp.breakers index) now

IsLifted-iff :
    (o : Option ProviderDeactivation) (now : Time)
    → ((elim o [ none ↦ false | some d ↦ is_running d now ]) ≡ false) ↔ IsLifted o now
IsLifted-iff none now = (λ h. tt, λ h. refl)
IsLifted-iff (some d) now = (λ h. ground arith, λ h. ground arith)

-- The entry that stands for an index without one is not running.
deactivation_at_iff :
    (cp : ClientProxy) (index : ℤ) (now : Time)
    → (is_running (deactivation_at cp index) now ≡ false) ↔ IsLifted (at? cp.deactivated index) now
unfolding deactivation_at
deactivation_at_iff cp index now = elim (Option-cases (at? cp.deactivated index)) [
  | inl e ↦ rw e (λ h. tt, λ h. ground arith)
  | inr (d, e) ↦ rw e (λ h. ground arith, λ h. ground arith)
]

IsKeyLifted-iff :
    (cp : ClientProxy) (index : ℤ) (j : ℕ) (now : Time)
    → (is_key_deactivated cp index (pos j) now ≡ false)
      ↔ IsKeyLifted (at? cp.key_deactivated index) j now
unfolding is_key_deactivated key_deactivation_at?
IsKeyLifted-iff cp index j now = elim (Option-cases (at? cp.key_deactivated index)) [
  | inl e ↦ rw e (λ h. tt, λ h. ground arith)
  | inr (ds, e) ↦
      let entry =
        ap
          (λ (o : Option (List ProviderDeactivation)). elim o [
            | none ↦ none
            | some ds ↦ at? ds (pos j)
          ])
          e in
      let running =
        ap
          (λ (o : Option ProviderDeactivation). elim o [ none ↦ false | some d ↦ is_running d now ])
          entry in
      let lifted = IsLifted-iff (at? ds (pos j)) now in
      rw e (λ h. lifted.0 (sym running ∙ h), λ h. running ∙ lifted.1 h)
]

keys_of-at :
    (cp : ClientProxy) (index : ℤ) (j : ℕ)
    → j < length (keys_of cp index)
    → at? cp.provider_keys index ≡ some (keys_of cp index)
unfolding keys_of
keys_of-at cp index j h = elim (Option-cases (at? cp.provider_keys index)) [
  | inl e ↦ absurd (ground arith)
  | inr (ks, e) ↦ ground arith
]

keys_of-some :
    (cp : ClientProxy) (index : ℤ) (ks : List Text)
    → at? cp.provider_keys index ≡ some ks
    → keys_of cp index ≡ ks
unfolding keys_of
keys_of-some cp index ks e = ground arith

circuit_admits-Admits :
    (b : Option (Option CircuitBreaker)) (now : Time) → circuit_admits b now ≡ true → Admits b now
unfolding circuit_admits
circuit_admits-Admits none now h = tt
circuit_admits-Admits (some none) now h = tt
circuit_admits-Admits (some (some cb)) now h = ground arith

Admits-circuit_admits :
    (b : Option (Option CircuitBreaker)) (now : Time) → Admits b now → circuit_admits b now ≡ true
unfolding circuit_admits
Admits-circuit_admits none now h = refl
Admits-circuit_admits (some none) now h = refl
Admits-circuit_admits (some (some cb)) now h = ground arith

module _ (cp : ClientProxy) (index : ℤ) (now : Time) where
  pub out_of_range :
      at? cp.providers index ≡ none → provider_available_for_routing cp index now ≡ false
  unfolding provider_available_for_routing
  out_of_range e = ground arith

  pub in_range :
      (provider : Provider)
      → at? cp.providers index ≡ some provider
      → provider_available_for_routing cp index now ≡ (
          if is_running (deactivation_at cp index) now
          then false
          else if available_key_count cp index now == 0
          then false
          else circuit_admits (at? cp.breakers index) now)
  unfolding provider_available_for_routing
  in_range provider e = ground arith

  -- A provider that may be used has an available key.
  pub available_keyed :
      provider_available_for_routing cp index now ≡ true → 0 < available_key_count cp index now
  available_keyed h = elim (Option-cases (at? cp.providers index)) [
    | inl e ↦ absurd (cc (out_of_range e))
    | inr (provider, e) ↦ let path = in_range provider e in ground arith
  ]

  available-IsRoutable :
      provider_available_for_routing cp index now ≡ true → IsRoutable cp index now
  available-IsRoutable h = elim (Option-cases (at? cp.providers index)) [
    | inl e ↦ absurd (cc (out_of_range e))
    | inr (provider, e) ↦
        let path = in_range provider e in
        let (j, is_key, active) = available_key_count_pos cp index now (available_keyed h) in
        record {
          provider = provider;
          is_at = e;
          not_quarantined = (deactivation_at_iff cp index now).0 (ground arith);
          keys = keys_of cp index;
          keys_at = keys_of-at cp index j is_key;
          key = j;
          is_key = is_key;
          key_not_quarantined = (IsKeyLifted-iff cp index j now).0 active;
          admitted = circuit_admits-Admits (at? cp.breakers index) now (ground arith);
        }
  ]

  -- A count that is zero would have that key quarantined.
  routable_keyed : IsRoutable cp index now → (available_key_count cp index now == 0) ≡ false
  routable_keyed r =
      let active = (IsKeyLifted-iff cp index r.key now).1 r.key_not_quarantined in
      let within =
        subst (λ ks. r.key < length ks) (sym (keys_of-some cp index r.keys r.keys_at)) r.is_key in
      elim (Bool-cases (available_key_count cp index now == 0)) [
        | inl empty ↦
            absurd (cc (available_key_count_zero cp index now r.key (ground arith) within, active))
        | inr keyed ↦ keyed
      ]

  -- A provider may be used for routing exactly when its index is in range, its own quarantine was
  -- never set or is over at `now`, the same holds for the quarantine of at least one of its keys, and
  -- its breaker, where it has one, lets a request through or asks for no wait.
  pub provider_available_for_routing_iff :
      (provider_available_for_routing cp index now ≡ true) ↔ IsRoutable cp index now
  provider_available_for_routing_iff = (
    available-IsRoutable,
    λ r.
        let admits = Admits-circuit_admits (at? cp.breakers index) now r.admitted in
        let free = (deactivation_at_iff cp index now).1 r.not_quarantined in
        rw (in_range r.provider r.is_at, free, routable_keyed r) admits,
  )
