-- ===== src/Reload/Identity.antt =====
-- sameProviderRuntimeIdentity and oldByName of internal/proxy/proxy.go: which provider of the replaced
-- proxy a new one goes on from.
use clipal.Common.{
  ℕ, zero, suc, ◌+◌, ◌<◌, ◌≡◌, ◌≢◌, refl, sym, ◌∙◌, true, false, List, [], ◌∷◌, Option, none, some,
  get_elem?, Text, eq_text_iff, ltb, trim_space, arith, subst, Bool-cases, Option-cases, inl, inr,
}
use clipal.Providers.{Provider, normalized_auth_type, normalized_oauth_provider}
use clipal.Reload.Inherit.{
  Runtime, ProxyPolicy, same_provider_runtime_identity, old_by_name_from, same_at, old_index_of,
}

-- The same name, kind of authentication, address, account and proxy policy.
pub record IsSame (a : Provider) (a_policy : ProxyPolicy) (b : Provider) (b_policy : ProxyPolicy)
    : Type 0 where
  pub name : a.name ≡ b.name
  pub auth_type : normalized_auth_type a ≡ normalized_auth_type b
  pub base_url : trim_space a.base_url ≡ trim_space b.base_url
  pub oauth_provider : normalized_oauth_provider a ≡ normalized_oauth_provider b
  pub oauth_ref : trim_space a.oauth_ref ≡ trim_space b.oauth_ref
  pub mode : a_policy.mode ≡ b_policy.mode
  pub url : a_policy.url ≡ b_policy.url

module _ (a : Provider) (a_policy : ProxyPolicy) (b : Provider) (b_policy : ProxyPolicy) where
  identity-IsSame :
      same_provider_runtime_identity a a_policy b b_policy ≡ true → IsSame a a_policy b b_policy
  unfolding same_provider_runtime_identity
  identity-IsSame h = record {
    name = (eq_text_iff a.name b.name).0 (ground arith);
    auth_type = (eq_text_iff (normalized_auth_type a) (normalized_auth_type b)).0 (ground arith);
    base_url = (eq_text_iff (trim_space a.base_url) (trim_space b.base_url)).0 (ground arith);
    oauth_provider =
        (eq_text_iff (normalized_oauth_provider a) (normalized_oauth_provider b)).0 (ground arith);
    oauth_ref = (eq_text_iff (trim_space a.oauth_ref) (trim_space b.oauth_ref)).0 (ground arith);
    mode = (eq_text_iff a_policy.mode b_policy.mode).0 (ground arith);
    url = (eq_text_iff a_policy.url b_policy.url).0 (ground arith);
  }

  IsSame-identity :
      IsSame a a_policy b b_policy → same_provider_runtime_identity a a_policy b b_policy ≡ true
  unfolding same_provider_runtime_identity
  IsSame-identity h =
      rw
        (
          (eq_text_iff a.name b.name).1 h.name,
          (eq_text_iff (normalized_auth_type a) (normalized_auth_type b)).1 h.auth_type,
          (eq_text_iff (trim_space a.base_url) (trim_space b.base_url)).1 h.base_url,
          (eq_text_iff (normalized_oauth_provider a) (normalized_oauth_provider b)).1
              h.oauth_provider,
          (eq_text_iff (trim_space a.oauth_ref) (trim_space b.oauth_ref)).1 h.oauth_ref,
          (eq_text_iff a_policy.mode b_policy.mode).1 h.mode,
          (eq_text_iff a_policy.url b_policy.url).1 h.url,
        )
        refl

-- The provider at `j` is the last one of a name.
pub record IsLastNamed (ps : List Provider) (name : Text) (j : ℕ) (q : Provider) : Type 0 where
  pub here : get_elem? ps j ≡ some q
  pub named : q.name ≡ name
  pub last : (k : ℕ) (other : Provider) → j < k → get_elem? ps k ≡ some other → other.name ≢ name

old_by_name_from-none :
    (i : ℕ) (ps : List Provider) (name : Text)
    → old_by_name_from i ps name ≡ none
    → (k : ℕ) (q : Provider) → get_elem? ps k ≡ some q
    → q.name ≢ name
unfolding old_by_name_from
old_by_name_from-none i [] name h k q e = absurd (ground arith)
old_by_name_from-none i (p ∷ ps) name h zero q e =
    λ same. let is_same = (eq_text_iff q.name name).1 same in ground arith
old_by_name_from-none i (p ∷ ps) name h (suc k) q e =
    old_by_name_from-none (suc i) ps name (ground arith) k q e

-- The last one behind the first provider is the last one of all.
IsLastNamed-suc :
    (p : Provider) (ps : List Provider) (name : Text) (k : ℕ) (q : Provider)
    → IsLastNamed ps name k q
    → IsLastNamed (p ∷ ps) name (suc k) q
IsLastNamed-suc p ps name k q v = record { here = v.here; named = v.named; last = behind }
  where
    behind :
        (m : ℕ) (other : Provider)
        → suc k < m
        → get_elem? (p ∷ ps) m ≡ some other
        → other.name ≢ name
    behind zero other low found = absurd (omega arith)
    behind (suc m) other low found = v.last m other (omega arith) found

IsLastNamed-zero :
    (p : Provider) (ps : List Provider) (name : Text)
    → p.name ≡ name
    → ((k : ℕ) (q : Provider) → get_elem? ps k ≡ some q → q.name ≢ name)
    → IsLastNamed (p ∷ ps) name 0 p
IsLastNamed-zero p ps name e no_more = record { here = refl; named = e; last = behind }
  where
    behind :
        (m : ℕ) (other : Provider) → 0 < m → get_elem? (p ∷ ps) m ≡ some other → other.name ≢ name
    behind zero other low found = absurd (omega arith)
    behind (suc m) other low found = no_more m other found

old_by_name_from-some :
    (i : ℕ) (ps : List Provider) (name : Text) (j : ℕ)
    → old_by_name_from i ps name ≡ some j
    → (k : ℕ) × (q : Provider) × (j ≡ i + k) × IsLastNamed ps name k q
unfolding old_by_name_from
old_by_name_from-some i [] name j h = absurd (ground arith)
old_by_name_from-some i (p ∷ ps) name j h = elim (Option-cases (old_by_name_from (suc i) ps name)) [
  | inr (l, e) ↦
      let (k, q, at_k, v) = old_by_name_from-some (suc i) ps name l e in
      (suc k, q, ground arith, IsLastNamed-suc p ps name k q v)
  | inl e ↦
      let same = (eq_text_iff p.name name).0 (ground arith) in
      (
        zero,
        p,
        ground arith,
        IsLastNamed-zero p ps name same (old_by_name_from-none (suc i) ps name e),
      )
]

-- Only one index is the last one.
IsLastNamed-unique :
    (ps : List Provider) (name : Text) (j k : ℕ) (q r : Provider)
    → IsLastNamed ps name j q
    → IsLastNamed ps name k r
    → j ≡ k
IsLastNamed-unique ps name j k q r v w = elim (Bool-cases (ltb j k)) [
  | inl below ↦ absurd (v.last k r (ground arith) w.here w.named)
  | inr not_below ↦ elim (Bool-cases (ltb k j)) [
    | inl above ↦ absurd (w.last j q (ground arith) v.here v.named)
    | inr not_above ↦ ground arith
  ]
]

-- The provider of the old proxy that `p` goes on from, if there is one: the last one of its name, if
-- it is the same as `p`.
pub data Successor (old : Runtime) (p : Provider) (policy : ProxyPolicy) : Option ℕ → Type 0 where
  goes_on :
      (j : ℕ) (q : Provider) (old_policy : ProxyPolicy)
      → IsLastNamed old.cp.providers p.name j q
      → get_elem? old.policies j ≡ some old_policy
      → IsSame p policy q old_policy
      → Successor old p policy (some j)
  starts :
      ((j : ℕ) (q : Provider) (old_policy : ProxyPolicy)
        → IsLastNamed old.cp.providers p.name j q
        → get_elem? old.policies j ≡ some old_policy
        → ¬ IsSame p policy q old_policy)
      → Successor old p policy none

module _ (old : Runtime) (p : Provider) (policy : ProxyPolicy) where
  same_at-identity :
      (j : ℕ) (q : Provider) (old_policy : ProxyPolicy)
      → get_elem? old.cp.providers j ≡ some q
      → get_elem? old.policies j ≡ some old_policy
      → same_at old p policy j ≡ same_provider_runtime_identity p policy q old_policy
  unfolding same_at
  same_at-identity j q old_policy e f = ground arith

  same_at-policy :
      (j : ℕ)
      → same_at old p policy j ≡ true
      → (r : ProxyPolicy) × (get_elem? old.policies j ≡ some r)
  unfolding same_at
  same_at-policy j h = elim (Option-cases (get_elem? old.policies j)) [
    | inl e ↦ absurd (ground arith)
    | inr found ↦ found
  ]

  accepted :
      (j : ℕ)
      → old_by_name_from 0 old.cp.providers p.name ≡ some j
      → same_at old p policy j ≡ true
      → Successor old p policy (some j)
  accepted j e h =
      let (k, q, at_k, v) = old_by_name_from-some 0 old.cp.providers p.name j e in
      let here : k ≡ j = omega arith in
      let w = subst (λ n. IsLastNamed old.cp.providers p.name n q) here v in
      let (old_policy, f) = same_at-policy j h in
      goes_on j q old_policy w f
        (identity-IsSame p policy q old_policy (sym (same_at-identity j q old_policy w.here f) ∙ h))

  refused :
      (j : ℕ)
      → old_by_name_from 0 old.cp.providers p.name ≡ some j
      → same_at old p policy j ≡ false
      → Successor old p policy none
  refused j e h = starts λ k q old_policy v f same.
      let (l, r, at_l, w) = old_by_name_from-some 0 old.cp.providers p.name j e in
      let u = IsLastNamed-unique old.cp.providers p.name k l q r v w in
      let here : k ≡ j = omega arith in
      let tested = subst (λ n. same_at old p policy n ≡ false) (sym here) h in
      cc (
        tested,
        same_at-identity k q old_policy v.here f,
        IsSame-identity p policy q old_policy same,
      )

  pub old_index_of-Successor : Successor old p policy (old_index_of old p policy)
  unfolding old_index_of
  old_index_of-Successor = elim (Option-cases (old_by_name_from 0 old.cp.providers p.name)) [
    | inl e ↦
        let found : old_index_of old p policy ≡ none = ground arith in
        subst (Successor old p policy) (sym found) (
          starts λ j q old_policy v f same.
            old_by_name_from-none 0 old.cp.providers p.name e j q v.here v.named)
    | inr (j, e) ↦ elim (Bool-cases (same_at old p policy j)) [
      | inl h ↦
          let found : old_index_of old p policy ≡ some j = ground arith in
          subst (Successor old p policy) (sym found) (accepted j e h)
      | inr h ↦
          let found : old_index_of old p policy ≡ none = ground arith in
          subst (Successor old p policy) (sym found) (refused j e h)
    ]
  ]
