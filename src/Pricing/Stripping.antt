-- ===== src/Pricing/Stripping.antt =====
-- The loop of modelCandidates of internal/pricing/catalog.go.
use clipal.Common.{
  ℕ, zero, suc, ◌≤◌, ◌<◌, ◌≡◌, ◌⊎◌, inl, inr, refl, List, [], ◌∷◌, length, Text, text, eq_text,
  eq_text_iff, is_empty, has_prefix, trim_prefix, trim_prefix-length, trim_space, to_lower, arith,
  Bool-cases,
}
use clipal.Pricing.Candidates.{model_prefixes, strip_one, stripped_names, model_candidates}

-- No prefix is empty.
abbrev AreNonempty : List Text → Type 0
AreNonempty [] = Unit {0}
AreNonempty (prefix ∷ prefixes) = (1 ≤ length prefix) × AreNonempty prefixes

strip_one-shorter :
    (prefixes : List Text) (model : Text)
    → AreNonempty prefixes
    → (strip_one prefixes model ≡ model) ⊎ (length (strip_one prefixes model) < length model)
unfolding strip_one
strip_one-shorter [] model h = inl refl
strip_one-shorter (prefix ∷ prefixes) model (long, h) =
    ground (arith, strip_one-shorter prefixes model h, trim_prefix-length model prefix)

-- The last name of a list that begins with `model`.
abbrev pub last_name : Text → List Text → Text
last_name model [] = model
last_name model (next ∷ names) = last_name next names

stripped_names-stable :
    (fuel : ℕ) (model : Text)
    → length model < fuel
    → strip_one model_prefixes (last_name model (stripped_names fuel model))
      ≡ last_name model (stripped_names fuel model)
unfolding stripped_names
stripped_names-stable zero model h = absurd (omega arith)
stripped_names-stable (suc fuel) model h =
    let next = strip_one model_prefixes model in
    elim (Bool-cases (eq_text next model)) [
      | inl same ↦ rw same ((eq_text_iff next model).0 same)
      | inr other ↦ rw other (elim (strip_one-shorter model_prefixes model (omega arith)) [
        | inl e ↦ absurd (ground (arith, (eq_text_iff next model).1 e))
        | inr shorter ↦ stripped_names-stable fuel next (omega arith)
      ])
    ]

strip_one-empty : strip_one model_prefixes [] ≡ []
unfolding strip_one has_prefix
strip_one-empty = refl

-- The loop that strips the name of a model ends for every name, and by its own test: the last of the
-- names that the model is looked up by has none of the prefixes that a further round would take off.
pub model_candidates-stable :
    (given : Text)
    → strip_one model_prefixes (last_name [] (model_candidates given))
      ≡ last_name [] (model_candidates given)
unfolding model_candidates
model_candidates-stable given =
    let model = trim_prefix (to_lower (trim_space given)) (text "/") in
    elim (Bool-cases (is_empty model)) [
      | inl none_left ↦ rw none_left strip_one-empty
      | inr named ↦ rw named (stripped_names-stable (suc (length model)) model (omega arith))
    ]
