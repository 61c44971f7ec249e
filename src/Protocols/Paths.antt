-- ===== src/Protocols/Paths.antt =====
-- internal/proxy/protocols.go: the tests on paths that name no resource.
use clipal.Common.{
  ℕ, zero, suc, Bool, ◌&&◌, ◌||◌, not, if◌then◌else◌, List, [], ◌∷◌, ◌++◌, length, Text, text,
  eq_text, is_empty, has_prefix, has_suffix, trim_prefix, trim_space,
}

unfoldable pub path_matches_prefix : Text → Text → Bool
path_matches_prefix path prefix = eq_text path prefix || has_prefix path (prefix ++ text "/")

unfoldable pub matches_exact_path : Text → Text → Bool
matches_exact_path path want = eq_text path want || eq_text path (want ++ text "/")

unfoldable pub normalize_upstream_path : Text → Text
normalize_upstream_path path =
    let trimmed = trim_space path in
    if is_empty trimmed
    then text "/"
    else if has_prefix trimmed (text "/")
    then trimmed
    else text "/" ++ trimmed

abbrev pub versioned_path_roots : List Text
versioned_path_roots = text "/upload/v1beta" ∷ text "/upload/v1" ∷ text "/v1beta" ∷ text "/v1" ∷ []

unfoldable pub is_versioned_clipal_path : Text → Bool
is_versioned_clipal_path path =
    path_matches_prefix path (text "/v1")
    || (path_matches_prefix path (text "/v1beta")
        || (path_matches_prefix path (text "/upload/v1")
            || path_matches_prefix path (text "/upload/v1beta")))

-- The body of the loop over the roots, with the early return.
unfoldable pub collapse_from : List Text → Text → Text
collapse_from [] path = path
collapse_from (root ∷ roots) path =
    let next = collapse_from roots path in
    let tail = trim_prefix path root in
    let rest = normalize_upstream_path tail in
    if not (path_matches_prefix path root)
    then next
    else if is_empty (trim_space tail)
    then next
    else if is_versioned_clipal_path rest
    then rest
    else next

unfoldable pub collapse_one_nested_versioned_path : Text → Text
collapse_one_nested_versioned_path path = collapse_from versioned_path_roots path

-- The loop of `collapseNestedVersionedPath`; without fuel it stops where it is.
unfoldable pub collapse_loop : ℕ → Text → Text
collapse_loop zero path = path
collapse_loop (suc fuel) path =
    let collapsed = collapse_one_nested_versioned_path path in
    let more = collapse_loop fuel collapsed in if eq_text collapsed path then path else more

-- A round shortens the path, so as many rounds as the path has bytes are enough.
unfoldable pub collapse_nested_versioned_path : Text → Text
collapse_nested_versioned_path path =
    let normal = normalize_upstream_path path in collapse_loop (suc (length normal)) normal

unfoldable pub is_gemini_method_path_with_prefix : Text → Text → Text → Bool
is_gemini_method_path_with_prefix path prefix method =
    has_prefix path prefix && (has_suffix path method || has_suffix path (method ++ text "/"))
