-- ===== src/Common/Lists.antt =====
-- Slices: lists measured and indexed by native numbers, and by Go's signed integers.
use Prim.Native.Nat.{ℕ, zero, suc, ◌+◌, ◌<◌}
use mathlib.Core.Path.{◌≡◌, refl, ap}
use mathlib.Core.Logic.{◌≢◌}
use mathlib.Core.List.{List, [], ◌∷◌, ◌++◌, map}
use mathlib.Core.Option.{Option, none, some}
use native.Mathlib.Omega.{arith}
use clipal.Common.Int.{ℤ, pos, negsuc}

module _ {ℓ} {A : Type ℓ} where
  abbrev pub length : List A → ℕ
  length [] = 0
  length (x ∷ xs) = suc (length xs)

  abbrev pub get_elem? : List A → ℕ → Option A
  get_elem? [] i = none
  get_elem? (x ∷ xs) zero = some x
  get_elem? (x ∷ xs) (suc i) = get_elem? xs i

  -- A write out of bounds changes nothing.
  abbrev pub set : List A → ℕ → A → List A
  set [] i v = []
  set (x ∷ xs) zero v = v ∷ xs
  set (x ∷ xs) (suc i) v = x ∷ set xs i v

  -- `xs[i]` under the guard `0 <= i && i < len(xs)`; `none` where the guard fails.
  abbrev pub at? : List A → ℤ → Option A
  at? xs (pos i) = get_elem? xs i
  at? xs (negsuc i) = none

  -- `xs[i] = v` under the same guard.
  abbrev pub set_at : List A → ℤ → A → List A
  set_at xs (pos i) v = set xs i v
  set_at xs (negsuc i) v = xs

  pub length-append : (xs ys : List A) → length (xs ++ ys) ≡ length xs + length ys
  length-append [] ys = omega arith
  length-append (x ∷ xs) ys = omega (arith, length-append xs ys)

module _ {ℓ} {A : Type ℓ} where
  pub length-set : (xs : List A) (i : ℕ) (v : A) → length (set xs i v) ≡ length xs
  length-set [] i v = refl
  length-set (x ∷ xs) zero v = refl
  length-set (x ∷ xs) (suc i) v = ap suc (length-set xs i v)

  pub get_elem?-set_self :
      (xs : List A) (i : ℕ) (v : A) → i < length xs → get_elem? (set xs i v) i ≡ some v
  get_elem?-set_self [] i v h = elim h [ ]
  get_elem?-set_self (x ∷ xs) zero v h = refl
  get_elem?-set_self (x ∷ xs) (suc i) v h = get_elem?-set_self xs i v (omega arith)

  pub get_elem?-set_ne :
      (xs : List A) {i j : ℕ} (v : A) → i ≢ j → get_elem? (set xs i v) j ≡ get_elem? xs j
  get_elem?-set_ne [] v h = refl
  get_elem?-set_ne (x ∷ xs) {i = zero} {j = zero} v h = absurd (h refl)
  get_elem?-set_ne (x ∷ xs) {i = zero} {j = suc j} v h = refl
  get_elem?-set_ne (x ∷ xs) {i = suc i} {j = zero} v h = refl
  get_elem?-set_ne (x ∷ xs) {i = suc i} {j = suc j} v h = get_elem?-set_ne xs v (λ e. h (ap suc e))

-- The value under `xs[i]`, if there is one, goes through `f`.
abbrev pub map_option {ℓ κ} : {A : Type ℓ} {B : Type κ} → (A → B) → Option A → Option B
map_option f none = none
map_option f (some a) = some (f a)

module _ {ℓ κ} {A : Type ℓ} {B : Type κ} (f : A → B) where
  get_elem?-map : (xs : List A) (i : ℕ) → get_elem? (map f xs) i ≡ map_option f (get_elem? xs i)
  get_elem?-map [] i = refl
  get_elem?-map (x ∷ xs) zero = refl
  get_elem?-map (x ∷ xs) (suc i) = get_elem?-map xs i

  pub at?-map : (xs : List A) (i : ℤ) → at? (map f xs) i ≡ map_option f (at? xs i)
  at?-map xs (pos i) = get_elem?-map xs i
  at?-map xs (negsuc i) = refl

  pub length-map : (xs : List A) → length (map f xs) ≡ length xs
  length-map [] = refl
  length-map (x ∷ xs) = ap suc (length-map xs)

module _ {ℓ} {A : Type ℓ} where
  get_elem?-lt : (xs : List A) (i : ℕ) {a : A} → get_elem? xs i ≡ some a → i < length xs
  get_elem?-lt [] i h = ground arith
  get_elem?-lt (x ∷ xs) zero h = omega arith
  get_elem?-lt (x ∷ xs) (suc i) h = omega (arith, get_elem?-lt xs i h)

  pub at?-set_at_self :
      (xs : List A) (i : ℤ) (v : A) {a : A} → at? xs i ≡ some a → at? (set_at xs i v) i ≡ some v
  at?-set_at_self xs (pos i) v h = get_elem?-set_self xs i v (get_elem?-lt xs i h)
  at?-set_at_self xs (negsuc i) v h = ground arith

  pub at?-set_at_ne : (xs : List A) (i j : ℤ) (v : A) → i ≢ j → at? (set_at xs i v) j ≡ at? xs j
  at?-set_at_ne xs (pos i) (pos j) v h = get_elem?-set_ne xs v (λ e. h (ap pos e))
  at?-set_at_ne xs (pos i) (negsuc j) v h = refl
  at?-set_at_ne xs (negsuc i) j v h = refl

  pub length-set_at : (xs : List A) (i : ℤ) (v : A) → length (set_at xs i v) ≡ length xs
  length-set_at xs (pos i) v = length-set xs i v
  length-set_at xs (negsuc i) v = refl

  set-set : (xs : List A) (i : ℕ) (v w : A) → set (set xs i v) i w ≡ set xs i w
  set-set [] i v w = refl
  set-set (x ∷ xs) zero v w = refl
  set-set (x ∷ xs) (suc i) v w = ap (λ ys. x ∷ ys) (set-set xs i v w)

  set-get_elem? : (xs : List A) (i : ℕ) (v : A) → get_elem? xs i ≡ some v → set xs i v ≡ xs
  set-get_elem? [] i v h = refl
  set-get_elem? (x ∷ xs) zero v h = ground arith
  set-get_elem? (x ∷ xs) (suc i) v h = ap (λ ys. x ∷ ys) (set-get_elem? xs i v h)

  -- Of two writes to one place the second stays.
  pub set_at-set_at : (xs : List A) (i : ℤ) (v w : A) → set_at (set_at xs i v) i w ≡ set_at xs i w
  set_at-set_at xs (pos i) v w = set-set xs i v w
  set_at-set_at xs (negsuc i) v w = refl

  -- A write of the value that is there changes nothing.
  pub set_at-at? : (xs : List A) (i : ℤ) (v : A) → at? xs i ≡ some v → set_at xs i v ≡ xs
  set_at-at? xs (pos i) v h = set-get_elem? xs i v h
  set_at-at? xs (negsuc i) v h = refl

  pub at?-lt : (xs : List A) (i : ℕ) {a : A} → at? xs (pos i) ≡ some a → i < length xs
  at?-lt xs i h = get_elem?-lt xs i h

  -- A write to no place changes nothing.
  pub set_at-none : (xs : List A) (i : ℤ) (v : A) → at? xs i ≡ none → set_at xs i v ≡ xs
  set_at-none [] (pos i) v h = refl
  set_at-none (x ∷ xs) (pos zero) v h = ground arith
  set_at-none (x ∷ xs) (pos (suc i)) v h = ap (λ ys. x ∷ ys) (set_at-none xs (pos i) v h)
  set_at-none xs (negsuc i) v h = refl
