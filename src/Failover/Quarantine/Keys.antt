-- ===== src/Failover/Quarantine/Keys.antt =====
-- What the quarantine of a key does to it and to the other keys.
use clipal.Common.{
  eqb_ℤ-eq, eqb_ℤ-ne, ℕ, ◌+◌, ◌<◌, ◌≡◌, ◌≢◌, ap, ◌∙◌, false, ◌&&◌, some, ℤ, pos, arith, at?, set_at,
  at?-set_at_self, at?-set_at_ne, ltb, eqb_ℤ, if◌then◌else◌, inl, inr, Bool-cases, Option-cases,
}
use clipal.Clock.{Time}
use clipal.Providers.{
  RoutingScope, scope_default, scope_claude_count_tokens, scope_openai_responses,
  scope_gemini_stream,
}
use clipal.Failover.State.{ProviderDeactivation, ClientProxy, is_running, set_key_indices_for_scope}
use clipal.Failover.Availability.{key_deactivation_at?, is_key_deactivated}
use clipal.Failover.Quarantine.{
  Failure, quarantine, advance_key_index, set_key_deactivation, advance_key_indices,
  deactivate_key_for,
}

advance_key_index-key_deactivated :
    (cp : ClientProxy) (p k : ℤ) (now : Time) (s : RoutingScope)
    → (advance_key_index cp p k now s).key_deactivated ≡ cp.key_deactivated
unfolding advance_key_index set_key_indices_for_scope
advance_key_index-key_deactivated cp p k now scope_default = ground arith
advance_key_index-key_deactivated cp p k now _ = ground arith

module _ (cp : ClientProxy) (p k : ℤ) (now : Time) where
  abbrev first : ClientProxy
  first = advance_key_index cp p k now scope_default

  abbrev second : ClientProxy
  second = advance_key_index first p k now scope_claude_count_tokens

  abbrev third : ClientProxy
  third = advance_key_index second p k now scope_openai_responses

  advance_key_indices-key_deactivated :
      (advance_key_indices cp p k now).key_deactivated ≡ cp.key_deactivated
  unfolding advance_key_indices
  advance_key_indices-key_deactivated =
      advance_key_index-key_deactivated third p k now scope_gemini_stream
      ∙ (advance_key_index-key_deactivated second p k now scope_openai_responses
          ∙ (advance_key_index-key_deactivated first p k now scope_claude_count_tokens
              ∙ advance_key_index-key_deactivated cp p k now scope_default))

-- The entries of the keys after a write to one of them.
module _ (cp : ClientProxy) (p k : ℤ) (d : ProviderDeactivation) where
  entry-set_self :
      {old : ProviderDeactivation}
      → key_deactivation_at? cp p k ≡ some old
      → key_deactivation_at? (set_key_deactivation cp p k d) p k ≡ some d
  unfolding key_deactivation_at? set_key_deactivation
  entry-set_self {old} e = elim (Option-cases (at? cp.key_deactivated p)) [
    | inl missing ↦ ground arith
    | inr (ds, there) ↦
        let here : at? ds k ≡ some old = ground arith in
        ground (
          arith,
          at?-set_at_self cp.key_deactivated p (set_at ds k d) there,
          at?-set_at_self ds k d here,
        )
  ]

  entry-set_other_key :
      (j : ℤ)
      → k ≢ j
      → key_deactivation_at? (set_key_deactivation cp p k d) p j ≡ key_deactivation_at? cp p j
  unfolding key_deactivation_at? set_key_deactivation
  entry-set_other_key j h = elim (Option-cases (at? cp.key_deactivated p)) [
    | inl missing ↦ ground arith
    | inr (ds, there) ↦ ground (
      arith,
      at?-set_at_self cp.key_deactivated p (set_at ds k d) there,
      at?-set_at_ne ds k j d h,
    )
  ]

  entry-set_other_provider :
      (i j : ℤ)
      → p ≢ i
      → key_deactivation_at? (set_key_deactivation cp p k d) i j ≡ key_deactivation_at? cp i j
  unfolding key_deactivation_at? set_key_deactivation
  entry-set_other_provider i j h = elim (Option-cases (at? cp.key_deactivated p)) [
    | inl missing ↦ ground arith
    | inr (ds, there) ↦ ground (arith, at?-set_at_ne cp.key_deactivated p i (set_at ds k d) h)
  ]

module _ (cp : ClientProxy) (p k : ℤ) (failure : Failure) (d : ℕ) (now : Time)
    (old : ProviderDeactivation) (known : key_deactivation_at? cp p k ≡ some old)
    (idle : is_running old now ≡ false) (lasts : 0 < d) where
  abbrev after : ClientProxy
  after = deactivate_key_for cp p k failure (pos d) now

  abbrev entry : ProviderDeactivation
  entry = quarantine failure now (pos d)

  abbrev entered : ClientProxy
  entered = set_key_deactivation cp p k entry

  after-key_deactivated : after.key_deactivated ≡ entered.key_deactivated
  unfolding deactivate_key_for
  after-key_deactivated = ground (arith, advance_key_indices-key_deactivated entered p k now)

  entry-after : (i j : ℤ) → key_deactivation_at? after i j ≡ key_deactivation_at? entered i j
  unfolding key_deactivation_at?
  entry-after i j = let same = ap (λ ds. at? ds i) after-key_deactivated in ground arith

  at_self : (t : Time) → is_key_deactivated after p k t ≡ ltb t (now + d)
  unfolding is_key_deactivated quarantine
  at_self t = ground (arith, entry-after p k, entry-set_self cp p k entry known)

  at_other_key :
      (j : ℤ) (t : Time) → k ≢ j → is_key_deactivated after p j t ≡ is_key_deactivated cp p j t
  unfolding is_key_deactivated
  at_other_key j t h = ground (arith, entry-after p j, entry-set_other_key cp p k entry j h)

  at_other_provider :
      (i j : ℤ) (t : Time) → p ≢ i → is_key_deactivated after i j t ≡ is_key_deactivated cp i j t
  unfolding is_key_deactivated
  at_other_provider i j t h =
      ground (arith, entry-after i j, entry-set_other_provider cp p k entry i j h)

  -- A key that is not quarantined when a failure with a positive cooldown is reported is quarantined
  -- from then until exactly the cooldown later; every other key, of this provider and of the others,
  -- is quarantined exactly when it was.
  pub deactivate_key_for_exact :
      (i j : ℤ) (t : Time)
      → is_key_deactivated after i j t
        ≡ (if eqb_ℤ p i && eqb_ℤ k j then ltb t (now + d) else is_key_deactivated cp i j t)
  deactivate_key_for_exact i j t = elim (Bool-cases (eqb_ℤ p i)) [
    | inr other ↦ ground (arith, at_other_provider i j t (eqb_ℤ-ne p i other))
    | inl same ↦
        let same' = eqb_ℤ-eq p i same in
        elim (Bool-cases (eqb_ℤ k j)) [
          | inr other ↦ ground (arith, at_other_key j t (eqb_ℤ-ne k j other))
          | inl here ↦ let here' = eqb_ℤ-eq k j here in ground (arith, at_self t)
        ]
  ]
