-- ===== src/Failover/Ring.antt =====
-- The loops of internal/proxy/failover_state.go that walk round a slice from a cursor,
-- `for step := ...; step++ { idx := (from + step) % n; ... }`, as one search.
use clipal.Common.{
  ℕ, zero, suc, ◌+◌, ◌-◌, ◌%◌, ◌<◌, ◌≤◌, ◌≡◌, inl, inr, Option, none, some, ℤ, pos, ◌+ℤ◌, rem,
  arith, Option-cases, refl, ap, ◌∙◌,
}
use native.Mathlib.Decide.{ℕ_discrete, dec_le}
use native.Mathlib.Nat.{mod-eq_of_lt, add-mod_right}

module _ {ℓ} {A : Type ℓ} where
  abbrev pub or_else : Option A → Option A → Option A
  or_else none b = b
  or_else (some a) b = some a

  -- The rounds left, and the step of the next one.
  pub search_ring : (ℤ → Option A) → ℤ → ℕ → ℕ → ℕ → Option A
  search_ring pick from n step zero = none
  search_ring pick from n step (suc rounds) =
      let idx = rem (from +ℤ pos step) n in
      or_else (pick idx) (search_ring pick from n (suc step) rounds)

pub search_ring-zero {ℓ} :
    {A : Type ℓ} (pick : ℤ → Option A) (from : ℤ) (n step : ℕ)
    → search_ring pick from n step 0 ≡ none
unfolding search_ring
search_ring-zero pick from n step = refl

rem-+ℤ : (a s n : ℕ) → rem (pos a +ℤ pos s) n ≡ pos ((a + s) % n)
rem-+ℤ a s n = ground arith

module _ {ℓ} {A : Type ℓ} (pick : ℤ → Option A) (a n : ℕ) where
  -- The candidate of a step.
  abbrev pub candidate : ℕ → Option A
  candidate step = pick (pos ((a + step) % n))

  search_ring-suc :
      (step rounds : ℕ)
      → search_ring pick (pos a) n step (suc rounds)
        ≡ or_else (candidate step) (search_ring pick (pos a) n (suc step) rounds)
  unfolding search_ring
  search_ring-suc step rounds = rw (rem-+ℤ a step n) refl

  -- What is found was picked at a step of the walk, and no step before it picks anything.
  pub search_ring_found :
      (step rounds : ℕ) {x : A}
      → search_ring pick (pos a) n step rounds ≡ some x
      → (k : ℕ) × (step ≤ k)
        × (k < step + rounds)
        × (candidate k ≡ some x)
        × ((i : ℕ) → step ≤ i → i < k → candidate i ≡ none)
  search_ring_found step zero e = unfold search_ring in ground arith
  search_ring_found step (suc rounds) {x} e = elim (Option-cases (candidate step)) [
    | inl nothing ↦
        let e' : search_ring pick (pos a) n (suc step) rounds ≡ some x =
          ground (arith, search_ring-suc step rounds) in
        let (k, low, high, found, before) = search_ring_found (suc step) rounds e' in
        (
          k,
          omega arith,
          omega arith,
          found,
          λ i p q. elim (ℕ_discrete i step) [
            | yes same ↦ rw same nothing
            | no other ↦ before i (omega arith) q
          ],
        )
    | inr (y, here) ↦ (
      step,
      omega arith,
      omega arith,
      ground (arith, search_ring-suc step rounds),
      λ i p q. absurd (omega arith),
    )
  ]

  -- Where nothing is found, no step of the walk picks anything.
  pub search_ring-none :
      (step rounds : ℕ)
      → search_ring pick (pos a) n step rounds ≡ none
      → (i : ℕ) → step ≤ i
      → i < step + rounds
      → candidate i ≡ none
  search_ring-none step zero e i p q = absurd (omega arith)
  search_ring-none step (suc rounds) e i p q = elim (ℕ_discrete i step) [
    | yes same ↦ rw same (ground (arith, search_ring-suc step rounds))
    | no other ↦
        search_ring-none (suc step) rounds (ground (arith, search_ring-suc step rounds)) i
          (omega arith) (omega arith)
  ]

-- A full walk from inside the ring passes every index, whether it starts at the cursor or behind it.
pub passes_every : (a n j : ℕ) → a < n → j < n → (i : ℕ) × (i < n) × ((a + i) % n ≡ j)
passes_every a n j p q = elim (dec_le a j) [
  | yes up ↦
      let e : a + (j - a) ≡ j = omega arith in
      (j - a, omega arith, ap (λ t. t % n) e ∙ mod-eq_of_lt q)
  | no down ↦
      let e : a + (j + n - a) ≡ j + n = omega arith in
      (j + n - a, omega arith, ap (λ t. t % n) e ∙ (add-mod_right j n ∙ mod-eq_of_lt q))
]

pub passes_every_behind :
    (a n j : ℕ) → a < n → j < n → (i : ℕ) × (1 ≤ i) × (i < 1 + n) × ((a + i) % n ≡ j)
passes_every_behind a n j p q = elim (dec_le (suc a) j) [
  | yes up ↦
      let e : a + (j - a) ≡ j = omega arith in
      (j - a, omega arith, omega arith, ap (λ t. t % n) e ∙ mod-eq_of_lt q)
  | no down ↦
      let e : a + (j + n - a) ≡ j + n = omega arith in
      (
        j + n - a,
        omega arith,
        omega arith,
        ap (λ t. t % n) e ∙ (add-mod_right j n ∙ mod-eq_of_lt q),
      )
]
