-- ===== src/Failover/Availability/Health.antt =====
-- Two proxies whose quarantines, keys and breakers say the same at a time have the same providers and
-- keys available then, whatever their cursors.
use clipal.Common.{
  true, false, Bool, if◌then◌else◌, ℕ, suc, ◌≡◌, refl, List, [], ◌∷◌, none, some, ℤ, pos, at?,
  arith, Text, Option-cases, ap, ◌∙◌, sym, inl, inr,
}
use clipal.Clock.{Time}
use clipal.Providers.{Capability, RoutingScope, scope_default}
use clipal.Failover.State.{ClientProxy, is_running, set_scope_index, set_key_indices_for_scope}
use clipal.Failover.Availability.{
  deactivation_at, is_key_deactivated, count_available_keys, keys_of, available_key_count,
  circuit_admits, provider_available_for_routing, provider_available_for_capability,
}
use clipal.Failover.Availability.Routing.{in_range, out_of_range}

pub record SameHealth (a b : ClientProxy) (t : Time) : Type 0 where
  pub providers : a.providers ≡ b.providers
  pub provider_keys : a.provider_keys ≡ b.provider_keys
  pub breakers : a.breakers ≡ b.breakers
  pub provider_running :
      (i : ℤ) → is_running (deactivation_at a i) t ≡ is_running (deactivation_at b i) t
  pub key_running : (i j : ℤ) → is_key_deactivated a i j t ≡ is_key_deactivated b i j t

pub SameHealth-refl : (a : ClientProxy) (t : Time) → SameHealth a a t
SameHealth-refl a t = record {
  providers = refl;
  provider_keys = refl;
  breakers = refl;
  provider_running = λ i. refl;
  key_running = λ i j. refl;
}

pub SameHealth-if :
    (b : Bool) (x y : ClientProxy) (t : Time)
    → SameHealth x y t
    → SameHealth y y t
    → SameHealth (if b then x else y) y t
SameHealth-if true x y t h k = h
SameHealth-if false x y t h k = k

SameHealth-fields :
    (a b : ClientProxy) (t : Time)
    → a.providers ≡ b.providers
    → a.provider_keys ≡ b.provider_keys
    → a.breakers ≡ b.breakers
    → a.deactivated ≡ b.deactivated
    → a.key_deactivated ≡ b.key_deactivated
    → SameHealth a b t
unfolding deactivation_at is_key_deactivated
SameHealth-fields a b t p k c d e = record {
  providers = p;
  provider_keys = k;
  breakers = c;
  provider_running = λ i. let same = ap (λ ds. at? ds i) d in ground arith;
  key_running = λ i j. let same = ap (λ ds. at? ds i) e in ground arith;
}

-- The cursors say nothing about health.
pub SameHealth-set_scope_index :
    (cp : ClientProxy) (index : ℤ) (s : RoutingScope) (t : Time)
    → SameHealth (set_scope_index cp index s) cp t
unfolding set_scope_index
SameHealth-set_scope_index cp index scope_default t =
    SameHealth-fields (record cp { current_index = index }) cp t refl refl refl refl refl
SameHealth-set_scope_index cp index s t =
    SameHealth-fields (set_scope_index cp index s) cp t refl refl refl refl refl

pub SameHealth-set_key_indices :
    (cp : ClientProxy) (cur : List ℤ) (s : RoutingScope) (t : Time)
    → SameHealth (set_key_indices_for_scope cp cur s) cp t
unfolding set_key_indices_for_scope
SameHealth-set_key_indices cp cur scope_default t =
    SameHealth-fields (record cp { current_key_index = cur }) cp t refl refl refl refl refl
SameHealth-set_key_indices cp cur s t =
    SameHealth-fields (set_key_indices_for_scope cp cur s) cp t refl refl refl refl refl

module _ {a b : ClientProxy} {t : Time} (same : SameHealth a b t) where
  count_available_keys-SameHealth :
      (i : ℤ) (keys : List Text) (k : ℕ)
      → count_available_keys a i t keys k ≡ count_available_keys b i t keys k
  unfolding count_available_keys
  count_available_keys-SameHealth i [] k = refl
  count_available_keys-SameHealth i (_ ∷ keys) k =
      rw (same.key_running i (pos k), count_available_keys-SameHealth i keys (suc k)) refl

  keys_of-SameHealth : (i : ℤ) → keys_of a i ≡ keys_of b i
  unfolding keys_of
  keys_of-SameHealth i =
      ap (λ (ks : List (List Text)). elim (at? ks i) [ none ↦ [] | some keys ↦ keys ])
        same.provider_keys

  pub available_key_count-SameHealth :
      (i : ℤ) → available_key_count a i t ≡ available_key_count b i t
  unfolding available_key_count
  available_key_count-SameHealth i =
      ap (λ ks. count_available_keys a i t ks 0) (keys_of-SameHealth i)
      ∙ count_available_keys-SameHealth i (keys_of b i) 0

  pub provider_available_for_routing-SameHealth :
      (i : ℤ) → provider_available_for_routing a i t ≡ provider_available_for_routing b i t
  provider_available_for_routing-SameHealth i =
      let at_same = ap (λ ps. at? ps i) same.providers in
      let breaker_same = ap (λ bs. circuit_admits (at? bs i) t) same.breakers in
      elim (Option-cases (at? a.providers i)) [
        | inl e ↦ out_of_range a i t e ∙ sym (out_of_range b i t (sym at_same ∙ e))
        | inr (p, e) ↦ ground (
          arith,
          in_range a i t p e,
          in_range b i t p (sym at_same ∙ e),
          same.provider_running i,
          available_key_count-SameHealth i,
          breaker_same,
        )
      ]

  pub provider_available_for_capability-SameHealth :
      (i : ℤ) (c : Capability)
      → provider_available_for_capability a i t c ≡ provider_available_for_capability b i t c
  unfolding provider_available_for_capability
  provider_available_for_capability-SameHealth i c =
      let at_same = ap (λ ps. at? ps i) same.providers in
      ground (arith, provider_available_for_routing-SameHealth i)
