-- ===== src/Protocols/Termination.antt =====
-- The loop of collapseNestedVersionedPath of internal/proxy/protocols.go.
use clipal.Common.{
  ℕ, zero, suc, ◌+◌, ◌≤◌, ◌<◌, ◌≡◌, ◌⊎◌, inl, inr, refl, true, List, [], ◌∷◌, length, length-append,
  has_prefix_refl, has_prefix-append, Text, text, eq_text, eq_text_iff, has_prefix, trim_prefix,
  trim_prefix-length, trim_space, trim_space-length, arith, Bool-cases,
}
use clipal.Protocols.Paths.{
  path_matches_prefix, normalize_upstream_path, collapse_from, collapse_one_nested_versioned_path,
  collapse_loop, collapse_nested_versioned_path, versioned_path_roots,
}

normalize_upstream_path-length :
    (path : Text) → length (normalize_upstream_path path) ≤ length path + 1
unfolding normalize_upstream_path
normalize_upstream_path-length path =
    ground (arith, trim_space-length path, length-append (text "/") (trim_space path))

-- All the roots are longer than one byte.
abbrev AreLong : List Text → Type 0
AreLong [] = Unit {0}
AreLong (root ∷ roots) = (2 ≤ length root) × AreLong roots

has_prefix-path_matches_prefix :
    (path root : Text) → path_matches_prefix path root ≡ true → has_prefix path root ≡ true
unfolding path_matches_prefix
has_prefix-path_matches_prefix path root h = elim (Bool-cases (eq_text path root)) [
  | inl same ↦ rw ((eq_text_iff path root).0 same) (has_prefix_refl root)
  | inr other ↦ has_prefix-append path root (text "/") (ground arith)
]

collapse_from-shorter :
    (roots : List Text) (path : Text)
    → AreLong roots
    → (collapse_from roots path ≡ path) ⊎ (length (collapse_from roots path) < length path)
unfolding collapse_from
collapse_from-shorter [] path h = inl refl
collapse_from-shorter (root ∷ roots) path (long, h) =
    let tail = trim_prefix path root in
    ground (
      arith,
      collapse_from-shorter roots path h,
      has_prefix-path_matches_prefix path root,
      trim_prefix-length path root,
      normalize_upstream_path-length tail,
    )

collapse_loop-stable :
    (fuel : ℕ) (path : Text)
    → length path < fuel
    → collapse_one_nested_versioned_path (collapse_loop fuel path) ≡ collapse_loop fuel path
unfolding collapse_loop collapse_one_nested_versioned_path
collapse_loop-stable zero path h = absurd (omega arith)
collapse_loop-stable (suc fuel) path h =
    let next = collapse_from versioned_path_roots path in
    elim (Bool-cases (eq_text next path)) [
      | inl same ↦ rw same ((eq_text_iff next path).0 same)
      | inr other ↦ rw other (elim (collapse_from-shorter versioned_path_roots path (omega arith)) [
        | inl e ↦ absurd (ground (arith, (eq_text_iff next path).1 e))
        | inr shorter ↦ collapse_loop-stable fuel next (omega arith)
      ])
    ]

-- The loop over nested versions ends for every path, and by its own test: what it returns holds no
-- further nested version that a round would remove.
pub collapse_nested_versioned_path-stable :
    (path : Text)
    → collapse_one_nested_versioned_path (collapse_nested_versioned_path path)
      ≡ collapse_nested_versioned_path path
unfolding collapse_nested_versioned_path
collapse_nested_versioned_path-stable path =
    let normal = normalize_upstream_path path in
    collapse_loop-stable (suc (length normal)) normal (omega arith)
