-- ===== src/Failover/Availability/Counting.antt =====
-- What the counts of available providers and keys say.
use clipal.Common.{
  ℕ, suc, ◌+◌, ◌<◌, ◌≤◌, ◌≡◌, Bool, true, false, List, [], ◌∷◌, ℤ, pos, arith, length, Text, inl,
  inr, Bool-cases,
}
use native.Mathlib.Decide.{ℕ_discrete}
use clipal.Clock.{Time}
use clipal.Providers.{Provider}
use clipal.Failover.State.{ClientProxy}
use clipal.Failover.Availability.{
  is_key_deactivated, count_available_keys, keys_of, available_key_count, count_providers,
}

module _ (available : ℤ → Bool) where
  pub count_providers_pos :
      (ps : List Provider) (i : ℕ)
      → 0 < count_providers available ps i
      → (j : ℕ) × (i ≤ j) × (j < i + length ps) × (available (pos j) ≡ true)
  unfolding count_providers
  count_providers_pos [] i h = absurd (omega arith)
  count_providers_pos (p ∷ ps) i h = elim (Bool-cases (available (pos i))) [
    | inl here ↦ (i, omega arith, omega arith, here)
    | inr not_here ↦
        let (j, low, high, there) = count_providers_pos ps (suc i) (ground arith) in
        (j, omega arith, omega arith, there)
  ]

  pub count_providers_zero :
      (ps : List Provider) (i j : ℕ)
      → count_providers available ps i ≡ 0
      → i ≤ j
      → j < i + length ps
      → available (pos j) ≡ false
  unfolding count_providers
  count_providers_zero [] i j h p q = absurd (omega arith)
  count_providers_zero (_ ∷ ps) i j h p q = elim (ℕ_discrete j i) [
    | yes same ↦ rw same (ground arith)
    | no other ↦ count_providers_zero ps (suc i) j (ground arith) (omega arith) (omega arith)
  ]

module _ (cp : ClientProxy) (provider_index : ℤ) (now : Time) where
  count_available_keys_pos :
      (keys : List Text) (k : ℕ)
      → 0 < count_available_keys cp provider_index now keys k
      → (j : ℕ) × (k ≤ j)
        × (j < k + length keys)
        × (is_key_deactivated cp provider_index (pos j) now ≡ false)
  unfolding count_available_keys
  count_available_keys_pos [] k h = absurd (omega arith)
  count_available_keys_pos (_ ∷ keys) k h =
      elim (Bool-cases (is_key_deactivated cp provider_index (pos k) now)) [
        | inr here ↦ (k, omega arith, omega arith, here)
        | inl not_here ↦
            let (j, low, high, there) = count_available_keys_pos keys (suc k) (ground arith) in
            (j, omega arith, omega arith, there)
      ]

  count_available_keys_zero :
      (keys : List Text) (k j : ℕ)
      → count_available_keys cp provider_index now keys k ≡ 0
      → k ≤ j
      → j < k + length keys
      → is_key_deactivated cp provider_index (pos j) now ≡ true
  unfolding count_available_keys
  count_available_keys_zero [] k j h p q = absurd (omega arith)
  count_available_keys_zero (_ ∷ keys) k j h p q = elim (ℕ_discrete j k) [
    | yes same ↦ rw same (ground arith)
    | no other ↦ count_available_keys_zero keys (suc k) j (ground arith) (omega arith) (omega arith)
  ]

  -- A positive count means that a configured key is active.
  pub available_key_count_pos :
      0 < available_key_count cp provider_index now
      → (j : ℕ) × (j < length (keys_of cp provider_index))
        × (is_key_deactivated cp provider_index (pos j) now ≡ false)
  unfolding available_key_count
  available_key_count_pos h =
      let (j, low, high, active) = count_available_keys_pos (keys_of cp provider_index) 0 h in
      (j, omega arith, active)

  -- A zero count means that every configured key is quarantined.
  pub available_key_count_zero :
      (j : ℕ)
      → available_key_count cp provider_index now ≡ 0
      → j < length (keys_of cp provider_index)
      → is_key_deactivated cp provider_index (pos j) now ≡ true
  unfolding available_key_count
  available_key_count_zero j h q =
      count_available_keys_zero (keys_of cp provider_index) 0 j h (omega arith) (omega arith)
