-- ===== src/Pricing/Listed.antt =====
-- resolveModelWithProvider of internal/pricing/catalog.go: the entry that a request is priced by.
use mathlib.Core.List.{Memᴰ}
use mathlib.Core.List.Memᴰ
use clipal.Common.{
  ◌≡◌, ◌⊎◌, refl, sym, subst, true, List, [], ◌∷◌, ◌++◌, map, Option, none, some, Text, text,
  to_lower, trim_space, trim_slashes, equal_fold, is_empty, if◌then◌else◌, arith, Bool-cases,
  Option-cases, inl, inr,
}
use clipal.Common.Maps.{lookup}
use clipal.Pricing.Spec.{Platform, platform_openai, platform_anthropic, platform_gemini, ModelSpec}
use clipal.Pricing.Candidates.{
  model_candidates, first_listed, platform_matches_protocol, resolve_model_with_provider,
}

-- A request to OpenAI is priced by every entry, any other by the entries of its own platform.
abbrev pub Takes : Platform → Text → Type 0
Takes platform_openai price_platform = Unit
Takes platform_anthropic price_platform = equal_fold price_platform (text "anthropic") ≡ true
Takes platform_gemini price_platform = equal_fold price_platform (text "gemini") ≡ true

-- A name that the model is looked up by: a candidate, or one after the provider's name and a slash.
abbrev pub IsName : Text → Text → Text → Type 0
IsName model hint name =
    Memᴰ name (model_candidates model)
    ⊎ ((candidate : Text) × Memᴰ candidate (model_candidates model)
        × (trim_slashes (to_lower (trim_space hint)) ++ (text "/" ++ candidate) ≡ name))

-- The catalog has loaded and lists a name of the model, with a platform that the request's platform
-- takes.
pub record IsListed (catalog : Option (List (Text × ModelSpec))) (model : Text)
    (platform : Platform) (hint name : Text) (spec : ModelSpec) : Type 0 where
  pub is_name : IsName model hint name
  pub models : List (Text × ModelSpec)
  pub loaded : catalog ≡ some models
  pub is_entry : lookup models name ≡ some spec
  pub takes : Takes platform spec.platform

platform_matches_protocol-Takes :
    (platform : Platform) (price_platform : Text)
    → platform_matches_protocol price_platform platform ≡ true
    → Takes platform price_platform
unfolding platform_matches_protocol
platform_matches_protocol-Takes platform_openai price_platform h = tt
platform_matches_protocol-Takes platform_anthropic price_platform h = h
platform_matches_protocol-Takes platform_gemini price_platform h = h

first_listed-some :
    (models : List (Text × ModelSpec)) (platform : Platform) (candidates : List Text) (name : Text)
    (spec : ModelSpec)
    → first_listed models platform candidates ≡ some (name, spec)
    → (lookup models name ≡ some spec)
      × (platform_matches_protocol spec.platform platform ≡ true)
      × Memᴰ name candidates
unfolding first_listed
first_listed-some models platform [] name spec h = absurd (ground arith)
first_listed-some models platform (candidate ∷ candidates) name spec h =
    elim (Option-cases (lookup models candidate)) [
      | inl e ↦
          let later = first_listed-some models platform candidates name spec (ground arith) in
          (later.0, later.1, Memᴰ.tail later.2)
      | inr (s, e) ↦ elim (Bool-cases (platform_matches_protocol s.platform platform)) [
        | inr other ↦
            let later = first_listed-some models platform candidates name spec (ground arith) in
            (later.0, later.1, Memᴰ.tail later.2)
        | inl same ↦
            let entry : Text × ModelSpec = (candidate, s) in
            let wanted : Text × ModelSpec = (name, spec) in
            let found : some entry ≡ some wanted = ground arith in
            let same_name : candidate ≡ name = cc found in
            let same_spec : s ≡ spec = cc found in
            (cc (e, same_name, same_spec), cc (same, same_spec), Memᴰ.head (sym same_name))
      ]
    ]

looked_up-IsName :
    (model hint name : Text)
    → let trimmed = trim_slashes (to_lower (trim_space hint)) in
      let preferred =
        map (λ candidate. trimmed ++ (text "/" ++ candidate)) (model_candidates model) in
      Memᴰ name
        (if is_empty trimmed then model_candidates model else preferred ++ model_candidates model)
      → IsName model hint name
looked_up-IsName model hint name m =
    let candidates = model_candidates model in
    let trimmed = trim_slashes (to_lower (trim_space hint)) in
    let hinted : Text → Text = λ candidate. trimmed ++ (text "/" ++ candidate) in
    elim (Bool-cases (is_empty trimmed)) [
      | inl bare ↦ inl (
          subst (λ b. Memᴰ name (if b then candidates else map hinted candidates ++ candidates))
            bare m)
      | inr named ↦
          elim (Memᴰ.append_cases (map hinted candidates) (
            subst (λ b. Memᴰ name (if b then candidates else map hinted candidates ++ candidates))
              named m)) [
                | inl before ↦ inr (Memᴰ.of_map hinted candidates before)
                | inr behind ↦ inl behind
              ]
    ]

pub resolve_model_with_provider-IsListed :
    (catalog : Option (List (Text × ModelSpec))) (model : Text) (platform : Platform) (hint : Text)
    (name : Text) (spec : ModelSpec)
    → resolve_model_with_provider catalog model platform hint ≡ some (name, spec)
    → IsListed catalog model platform hint name spec
unfolding resolve_model_with_provider
resolve_model_with_provider-IsListed none model platform hint name spec h = absurd (ground arith)
resolve_model_with_provider-IsListed (some models) model platform hint name spec h =
    let candidates = model_candidates model in
    let trimmed = trim_slashes (to_lower (trim_space hint)) in
    let preferred = map (λ candidate. trimmed ++ (text "/" ++ candidate)) candidates in
    let listed =
      first_listed-some models platform
        (if is_empty trimmed then candidates else preferred ++ candidates) name spec h in
    record {
      is_name = looked_up-IsName model hint name listed.2;
      models = models;
      loaded = refl;
      is_entry = listed.0;
      takes = platform_matches_protocol-Takes platform spec.platform listed.1;
    }
