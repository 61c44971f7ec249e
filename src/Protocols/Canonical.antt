-- ===== src/Protocols/Canonical.antt =====
-- internal/proxy/protocols.go: how a path without a version gets one.
use clipal.Common.{
  Bool, false, ◌&&◌, ◌||◌, if◌then◌else◌, List, [], ◌∷◌, ◌++◌, Option, none, some, Text, text,
  eq_text, has_prefix, contains, trim_prefix,
}
use clipal.Protocols.Paths.{
  normalize_upstream_path, path_matches_prefix, matches_exact_path, is_versioned_clipal_path,
  collapse_nested_versioned_path, is_gemini_method_path_with_prefix,
}

unfoldable pub canonicalize_bare_claude_path : Text → Option Text
canonicalize_bare_claude_path path =
    if matches_exact_path path (text "/messages")
    then some (text "/v1/messages")
    else if eq_text path (text "/messages/count_tokens")
        || eq_text path (text "/messages/count_tokens/")
    then some (text "/v1" ++ path)
    else none

unfoldable pub is_gemini_bare_method_path : Text → Text → Bool
is_gemini_bare_method_path path method =
    is_gemini_method_path_with_prefix path (text "/models/") method

unfoldable pub is_gemini_bare_resource_path : Text → Text → Bool
is_gemini_bare_resource_path path resource =
    path_matches_prefix path resource || has_prefix path (resource ++ text ":")

unfoldable pub is_gemini_bare_resource_method_path : Text → Text → Bool
is_gemini_bare_resource_method_path path resource =
    has_prefix path (resource ++ text ":")
    || (has_prefix path (resource ++ text "/")
        && contains (trim_prefix path (resource ++ text "/")) (text ":"))

-- `case` with several conditions.
abbrev pub any_of : (Text → Bool) → List Text → Bool
any_of test [] = false
any_of test (x ∷ xs) = test x || any_of test xs

unfoldable pub canonicalize_bare_gemini_path : Text → Option Text
canonicalize_bare_gemini_path path =
    if any_of (is_gemini_bare_method_path path) (
        text ":generateContent"
        ∷ text ":streamGenerateContent"
        ∷ text ":countTokens"
        ∷ text ":embedContent"
        ∷ text ":batchEmbedContents"
        ∷ text ":predict"
        ∷ text ":predictLongRunning"
        ∷ [])
      || (is_gemini_bare_resource_method_path path (text "/files")
          || (any_of (is_gemini_bare_resource_path path)
                (text "/interactions" ∷ text "/cachedContents" ∷ text "/tunedModels" ∷ [])
              || (is_gemini_bare_resource_method_path path (text "/batches")
                  || any_of (is_gemini_bare_resource_path path) (
                      text "/operations"
                      ∷ text "/fileSearchStores"
                      ∷ text "/generatedFiles"
                      ∷ text "/corpora"
                      ∷ text "/authTokens"
                      ∷ text "/agents"
                      ∷ text "/webhooks"
                      ∷ []))))
    then some (text "/v1beta" ++ path)
    else none

unfoldable pub canonicalize_bare_openai_path : Text → Option Text
canonicalize_bare_openai_path path =
    if any_of (matches_exact_path path) (
        text "/chat/completions"
        ∷ text "/completions"
        ∷ text "/embeddings"
        ∷ text "/moderations"
        ∷ [])
      || any_of (path_matches_prefix path) (
          text "/responses"
          ∷ text "/audio"
          ∷ text "/images"
          ∷ text "/files"
          ∷ text "/uploads"
          ∷ text "/models"
          ∷ text "/fine_tuning"
          ∷ text "/batches"
          ∷ text "/vector_stores"
          ∷ text "/assistants"
          ∷ text "/threads"
          ∷ text "/realtime"
          ∷ [])
    then some (text "/v1" ++ path)
    else none

-- The first of the three that knows the path; else the path as it is.
abbrev pub canonicalize_bare : Text → Text
canonicalize_bare path = elim (canonicalize_bare_claude_path path) [
  | some canonical ↦ canonical
  | none ↦ elim (canonicalize_bare_gemini_path path) [
    | some canonical ↦ canonical
    | none ↦ elim (canonicalize_bare_openai_path path) [ some canonical ↦ canonical | none ↦ path ]
  ]
]

unfoldable pub canonicalize_clipal_path : Text → Text
canonicalize_clipal_path given =
    let path = collapse_nested_versioned_path (normalize_upstream_path given) in
    if is_versioned_clipal_path path then path else canonicalize_bare path
