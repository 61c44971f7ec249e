-- ===== src/Common/Maps.antt =====
-- Go's maps with text for keys, as lists of their entries. A write replaces the first entry of its
-- key, so a map that is built by writes lists each key once.
use mathlib.Core.Path.{◌≡◌}
use mathlib.Core.Bool.{Bool, false}
use mathlib.Core.List.{List, [], ◌∷◌}
use mathlib.Core.Option.{Option, none, some}
use native.Mathlib.Omega.{arith}
use clipal.Common.Tests.{if◌then◌else◌}
use clipal.Common.Lists.{length}
use clipal.Common.Strings.{Text, eq_text, eq_text_refl, eq_text_iff}

module _ {ℓ} {A : Type ℓ} where
  -- v, ok := m[k]
  unfoldable pub lookup : List (Text × A) → Text → Option A
  lookup [] k = none
  lookup ((j, v) ∷ m) k = let rest = lookup m k in if eq_text j k then some v else rest

  -- m[k] = v
  unfoldable pub insert : List (Text × A) → Text → A → List (Text × A)
  insert [] k v = (k, v) ∷ []
  insert ((j, w) ∷ m) k v =
      let rest = insert m k v in if eq_text j k then (k, v) ∷ m else (j, w) ∷ rest

  -- delete(m, k)
  unfoldable pub delete : List (Text × A) → Text → List (Text × A)
  delete [] k = []
  delete ((j, w) ∷ m) k = let rest = delete m k in if eq_text j k then rest else (j, w) ∷ rest

  -- A loop over the map that deletes the entries which a test condemns.
  unfoldable pub delete_if : (Text → A → Bool) → List (Text × A) → List (Text × A)
  delete_if test [] = []
  delete_if test ((j, w) ∷ m) =
      let rest = delete_if test m in if test j w then rest else (j, w) ∷ rest

  pub lookup-insert : (m : List (Text × A)) (k : Text) (v : A) → lookup (insert m k v) k ≡ some v
  unfolding lookup insert
  lookup-insert [] k v = let same = eq_text_refl k in ground arith
  lookup-insert ((j, w) ∷ m) k v = let same = eq_text_refl k in ground (arith, lookup-insert m k v)

  pub length-insert_known :
      (m : List (Text × A)) (k : Text) (v : A) {w : A}
      → lookup m k ≡ some w
      → length (insert m k v) ≡ length m
  unfolding lookup insert
  length-insert_known [] k v h = ground arith
  length-insert_known ((j, u) ∷ m) k v {w} h = ground (arith, length-insert_known m k v {w = w})

  -- Writes and deletions under other keys are not seen.
  pub lookup-insert_ne :
      (m : List (Text × A)) (j k : Text) (v : A)
      → eq_text j k ≡ false
      → lookup (insert m j v) k ≡ lookup m k
  unfolding lookup insert
  lookup-insert_ne [] j k v h = ground arith
  lookup-insert_ne ((i, w) ∷ m) j k v h = ground (arith, lookup-insert_ne m j k v, eq_text_iff i j)

  -- What a loop that deletes leaves was there, and is not condemned.
  pub lookup-delete_if :
      (test : Text → A → Bool) (m : List (Text × A)) (k : Text) (v : A)
      → lookup (delete_if test m) k ≡ some v
      → test k v ≡ false
  unfolding lookup delete_if
  lookup-delete_if test [] k v h = ground arith
  lookup-delete_if test ((j, w) ∷ m) k v h =
      ground (arith, lookup-delete_if test m k v, eq_text_iff j k)

  -- An entry that is not condemned stays, if it is the only one of its key.
  pub lookup-delete_if_kept :
      (test : Text → A → Bool) (m : List (Text × A)) (k : Text) (v : A)
      → lookup m k ≡ some v
      → test k v ≡ false
      → lookup (delete_if test m) k ≡ some v
  unfolding lookup delete_if
  lookup-delete_if_kept test [] k v h t = ground arith
  lookup-delete_if_kept test ((j, w) ∷ m) k v h t =
      ground (arith, lookup-delete_if_kept test m k v, eq_text_iff j k)
