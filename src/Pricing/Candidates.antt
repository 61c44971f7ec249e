-- ===== src/Pricing/Candidates.antt =====
-- internal/pricing/catalog.go: under which names a model is looked up.
use clipal.Common.{
  ℕ, zero, suc, Bool, true, if◌then◌else◌, List, [], ◌∷◌, ◌++◌, map, Option, none, some, length,
  Text, text, eq_text, is_empty, has_prefix, trim_prefix, trim_space, to_lower, equal_fold,
  trim_slashes,
}
use clipal.Common.Maps.{lookup}
use clipal.Pricing.Spec.{Platform, platform_openai, platform_anthropic, platform_gemini, ModelSpec}

abbrev pub model_prefixes : List Text
model_prefixes =
    text "models/"
    ∷ text "model/"
    ∷ text "openai/"
    ∷ text "anthropic/"
    ∷ text "google/"
    ∷ text "gemini/"
    ∷ text "claude/"
    ∷ []

-- The loop over the prefixes: the first one that the model has is taken off.
unfoldable pub strip_one : List Text → Text → Text
strip_one [] model = model
strip_one (prefix ∷ prefixes) model =
    let rest = strip_one prefixes model in
    if has_prefix model prefix then trim_prefix model prefix else rest

-- The names after the first one; without fuel the list ends.
unfoldable pub stripped_names : ℕ → Text → List Text
stripped_names zero model = []
stripped_names (suc fuel) model =
    let stripped = strip_one model_prefixes model in
    let more = stripped_names fuel stripped in
    if eq_text stripped model then [] else stripped ∷ more

-- A prefix has more than one byte, so that the length of the name bounds the rounds.
unfoldable pub model_candidates : Text → List Text
model_candidates given =
    let model = trim_prefix (to_lower (trim_space given)) (text "/") in
    if is_empty model then [] else model ∷ stripped_names (suc (length model)) model

unfoldable pub platform_matches_protocol : Text → Platform → Bool
platform_matches_protocol price_platform platform_openai = true
platform_matches_protocol price_platform platform_anthropic =
    equal_fold price_platform (text "anthropic")
platform_matches_protocol price_platform platform_gemini = equal_fold price_platform (text "gemini")

-- The first candidate that the catalog lists for the platform.
unfoldable pub first_listed :
    List (Text × ModelSpec) → Platform → List Text → Option (Text × ModelSpec)
first_listed models platform [] = none
first_listed models platform (candidate ∷ candidates) =
    let rest = first_listed models platform candidates in
    elim (lookup models candidate) [
      | none ↦ rest
      | some spec ↦
          if platform_matches_protocol spec.platform platform then some (candidate, spec) else rest
    ]

-- `none` for the catalog stands for one that did not load.
unfoldable pub resolve_model_with_provider :
    Option (List (Text × ModelSpec)) → Text → Platform → Text → Option (Text × ModelSpec)
resolve_model_with_provider none model platform provider_hint = none
resolve_model_with_provider (some models) model platform provider_hint =
    let candidates = model_candidates model in
    let hint = trim_slashes (to_lower (trim_space provider_hint)) in
    let preferred = map (λ candidate. hint ++ (text "/" ++ candidate)) candidates in
    first_listed models platform (if is_empty hint then candidates else preferred ++ candidates)
