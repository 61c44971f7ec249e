-- ===== src/Failover/Cursors/Targets.antt =====
-- The target of an advisory count-tokens request.
use clipal.Common.{
  ℕ, ◌+◌, ◌%◌, ◌<◌, ◌≡◌, sym, ◌∙◌, true, false, Option, none, some, ℤ, pos, arith, length, inl, inr,
  Bool-cases, Option-cases, at?,
}
use mathlib.Core.Path.{subst}
use native.Mathlib.Decide.{ℕ_discrete}
use clipal.Clock.{Time}
use clipal.Providers.{Provider}
use clipal.Failover.State.{ClientProxy}
use clipal.Failover.Availability.{is_key_deactivated, keys_of, provider_available_for_routing}
use clipal.Failover.Availability.Routing.{available_keyed, provider_available_for_routing_iff}
use clipal.Failover.Ring.{
  search_ring, search_ring_found, search_ring-none, search_ring-zero, passes_every,
}
use clipal.Failover.Cursors.{
  in_range_or_zero, or_default, next_active_key_index, single_shot_at,
  count_tokens_single_shot_target,
}
use clipal.Failover.Cursors.Providers.{in_range_or_zero-lt}
use clipal.Failover.Cursors.Keys.{IsActiveKey, next_active_key_index-IsActiveKey}

module _ (cp : ClientProxy) (now : Time) where
  -- A provider that may be used, with one of its keys that is not quarantined.
  pub record IsTarget (index : ℤ) (provider : Provider) (key_index : ℤ) : Type 0 where
    pub is_at : at? cp.providers index ≡ some provider
    pub usable : provider_available_for_routing cp index now ≡ true
    pub key : IsActiveKey cp index now key_index

  -- The key index that the loop settles on.
  abbrev settled : ℤ → ℤ
  settled index =
      next_active_key_index cp index
        (in_range_or_zero (or_default (at? cp.current_key_index index) (pos 0))
          (length (keys_of cp index)))
        now

  single_shot_lem :
      (index : ℤ) (provider : Provider)
      → at? cp.providers index ≡ some provider
      → provider_available_for_routing cp index now ≡ true
      → 0 < length (keys_of cp index)
      → is_key_deactivated cp index (settled index) now ≡ false
      → single_shot_at cp now index ≡ some (index, provider, settled index)
  unfolding single_shot_at
  single_shot_lem index provider e h k f = ground arith

  missed_lem :
      (index : ℤ)
      → provider_available_for_routing cp index now ≡ false
      → single_shot_at cp now index ≡ none
  unfolding single_shot_at
  missed_lem index h = ground arith

  aimed :
      (index : ℤ)
      → provider_available_for_routing cp index now ≡ true
      → (provider : Provider) × (key_index : ℤ) × (single_shot_at cp now index
          ≡ some (index, provider, key_index))
        × IsTarget index provider key_index
  aimed index h =
      let r = (provider_available_for_routing_iff cp index now).0 h in
      let k =
        next_active_key_index-IsActiveKey cp index now
          (in_range_or_zero (or_default (at? cp.current_key_index index) (pos 0))
            (length (keys_of cp index)))
          (available_keyed cp index now h) in
      let free : is_key_deactivated cp index (settled index) now ≡ false = rw k.is_index k.active in
      (
        r.provider,
        settled index,
        single_shot_lem index r.provider r.is_at h (omega (arith, k.in_range)) free,
        record { is_at = r.is_at; usable = h; key = k },
      )

  -- What the search for a target returns.
  pub data Targeted : Option (ℤ × Provider × ℤ) → Type 0 where
    none_available :
        ((j : ℕ) → j < length cp.providers → provider_available_for_routing cp (pos j) now ≡ false)
        → Targeted none
    target :
        (index : ℤ) (provider : Provider) (key_index : ℤ)
        → IsTarget index provider key_index
        → Targeted (some (index, provider, key_index))

  hit : (j : ℕ) {x : ℤ × Provider × ℤ} → single_shot_at cp now (pos j) ≡ some x → Targeted (some x)
  hit j e = elim (Bool-cases (provider_available_for_routing cp (pos j) now)) [
    | inl h ↦
        let (provider, key_index, found, is_target) = aimed (pos j) h in
        subst Targeted (sym found ∙ e) (target (pos j) provider key_index is_target)
    | inr h ↦ absurd (cc (missed_lem (pos j) h))
  ]

  miss :
      (j : ℕ)
      → single_shot_at cp now (pos j) ≡ none
      → provider_available_for_routing cp (pos j) now ≡ false
  miss j e = elim (Bool-cases (provider_available_for_routing cp (pos j) now)) [
    | inl h ↦ let (provider, key_index, found, is_target) = aimed (pos j) h in cc
    | inr h ↦ h
  ]

  abbrev walk : Option (ℤ × Provider × ℤ)
  walk =
      search_ring (single_shot_at cp now) (in_range_or_zero cp.current_index (length cp.providers))
        (length cp.providers) 0 (length cp.providers)

  walk-some : {x : ℤ × Provider × ℤ} → walk ≡ some x → 0 < length cp.providers → Targeted (some x)
  walk-some e h =
      let n = length cp.providers in
      let (a, w, q) = in_range_or_zero-lt cp.current_index n h in
      let (k, low, high, here, before) =
        search_ring_found (single_shot_at cp now) a n 0 n (rw w at e) in
      hit ((a + k) % n) here

  walk-none :
      walk ≡ none
      → (j : ℕ) → j < length cp.providers
      → provider_available_for_routing cp (pos j) now ≡ false
  walk-none e j h =
      let n = length cp.providers in
      let (a, w, q) = in_range_or_zero-lt cp.current_index n (omega arith) in
      let (i, l, at) = passes_every a n j q h in
      miss j (
        rw at at (
          search_ring-none (single_shot_at cp now) a n 0 n (rw w at e) i (omega arith)
            (omega arith)))

  no_rounds : length cp.providers ≡ 0 → walk ≡ none
  no_rounds e = rw e (search_ring-zero (single_shot_at cp now) _ 0 0)

  -- A target is found exactly when some provider may be used, and it is a provider that may be used
  -- together with one of its keys that is not quarantined.
  pub count_tokens_single_shot_target-Targeted : Targeted (count_tokens_single_shot_target cp now)
  unfolding count_tokens_single_shot_target
  count_tokens_single_shot_target-Targeted = elim (Option-cases walk) [
    | inl e ↦ rw e (none_available (walk-none e))
    | inr (x, e) ↦ elim (ℕ_discrete (length cp.providers) 0) [
      | yes empty ↦ absurd (cc (e, no_rounds empty))
      | no some_provider ↦ rw e (walk-some e (omega arith))
    ]
  ]
