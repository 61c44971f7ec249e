-- ===== src/Reload/Cursors.antt =====
-- inheritRuntimeState of internal/proxy/proxy.go: the cursors of routing.
use clipal.Common.{
  ℕ, suc, ◌+◌, ◌≡◌, refl, ap, ◌∙◌, sym, subst, Bool, true, false, if◌then◌else◌, List, [], ◌∷◌,
  Option, none, some, ℤ, pos, get_elem?, Text, eq_text, eq_text_iff, is_empty, arith, Bool-cases,
  inl, inr,
}
use clipal.Providers.{
  Provider, RoutingScope, scope_default, scope_claude_count_tokens, scope_openai_responses,
  scope_gemini_stream,
}
use clipal.Failover.State.{ClientProxy, mode_auto, scope_index}
use clipal.Reload.Kept.{inherit_key_state-Kept}
use clipal.Reload.Inherit.{
  Runtime, index_by_name_from, provider_index_by_name, provider_name_at_index, name_of, follow_name,
  inherit_providers, inherit_runtime_state, ProxyPolicy, when_some, copy_at, old_index_of,
  inherit_provider,
}

-- Some provider has the name.
abbrev pub is_named : List Provider → Text → Bool
is_named [] name = false
is_named (p ∷ providers) name = if eq_text p.name name then true else is_named providers name

index_by_name_from-found :
    (i : ℕ) (providers : List Provider) (name : Text)
    → is_named providers name ≡ true
    → (k : ℕ) × (index_by_name_from i providers name ≡ pos (i + k))
      × (name_of (get_elem? providers k) ≡ name)
unfolding index_by_name_from
index_by_name_from-found i [] name h = absurd (ground arith)
index_by_name_from-found i (p ∷ providers) name h = elim (Bool-cases (eq_text p.name name)) [
  | inl same ↦ rw same (0, ap pos (omega arith), (eq_text_iff p.name name).0 same)
  | inr other ↦
      let (k, e, n) = index_by_name_from-found (suc i) providers name (ground arith) in
      rw other (suc k, e ∙ ap pos (omega arith), n)
]

provider_name_at_index-pos :
    (providers : List Provider) (k : ℕ)
    → provider_name_at_index providers (pos k) ≡ name_of (get_elem? providers k)
unfolding provider_name_at_index
provider_name_at_index-pos providers k = refl

provider_index_by_name-found :
    (providers : List Provider) (name : Text)
    → is_named providers name ≡ true
    → (k : ℕ) × (provider_index_by_name providers name ≡ pos k)
      × (name_of (get_elem? providers k) ≡ name)
unfolding provider_index_by_name
provider_index_by_name-found providers name h =
    let (k, e, n) = index_by_name_from-found 0 providers name h in (k, e ∙ ap pos (omega arith), n)

follow_name_found :
    (providers old_providers : List Provider) (old_index index : ℤ) (k : ℕ)
    → is_empty (provider_name_at_index old_providers old_index) ≡ false
    → provider_index_by_name providers (provider_name_at_index old_providers old_index) ≡ pos k
    → follow_name mode_auto providers old_providers old_index index ≡ pos k
unfolding follow_name
follow_name_found providers old_providers old_index index k named e = ground arith

-- The name of the provider that a cursor stands at.
abbrev pub cursor_name : ClientProxy → RoutingScope → Text
cursor_name cp scope = provider_name_at_index cp.providers (scope_index cp scope)

follow_name-provider_name_at_index :
    (providers old_providers : List Provider) (old_index index : ℤ)
    → is_empty (provider_name_at_index old_providers old_index) ≡ false
    → is_named providers (provider_name_at_index old_providers old_index) ≡ true
    → provider_name_at_index providers
        (follow_name mode_auto providers old_providers old_index index)
      ≡ provider_name_at_index old_providers old_index
follow_name-provider_name_at_index providers old_providers old_index index named found =
    let name = provider_name_at_index old_providers old_index in
    let (k, e, n) = provider_index_by_name-found providers name found in
    ap (provider_name_at_index providers)
      (follow_name_found providers old_providers old_index index k named e)
    ∙ (provider_name_at_index-pos providers k ∙ n)

-- The providers and the mode of a proxy.
abbrev KeepsRouting : ClientProxy → ClientProxy → Type 0
KeepsRouting cp cp' = (cp'.providers ≡ cp.providers) × (cp'.mode ≡ cp.mode)

inherit_provider-KeepsRouting :
    (cp : ClientProxy) (i : ℕ) (old : ClientProxy) (j : ℕ)
    → KeepsRouting cp (inherit_provider cp i old j)
unfolding inherit_provider
inherit_provider-KeepsRouting cp i old j =
    let healthy : ClientProxy = record cp {
      deactivated = copy_at cp.deactivated i old.deactivated j;
      provider_busy = copy_at cp.provider_busy i old.provider_busy j;
    } in
    let kept = inherit_key_state-Kept healthy i old j in (kept.same_providers, kept.same_mode)

when_some-KeepsRouting :
    (found : Option ℕ) (cp : ClientProxy) (n : ℕ) (old : ClientProxy)
    → KeepsRouting cp (when_some found (λ j. inherit_provider cp n old j) cp)
when_some-KeepsRouting none cp n old = (refl, refl)
when_some-KeepsRouting (some j) cp n old = inherit_provider-KeepsRouting cp n old j

inherit_providers-KeepsRouting :
    (old : Runtime) (n : ℕ) (ps : List Provider) (policies : List ProxyPolicy) (cp : ClientProxy)
    → KeepsRouting cp (inherit_providers old n ps policies cp)
unfolding inherit_providers
inherit_providers-KeepsRouting old n [] policies cp = (refl, refl)
inherit_providers-KeepsRouting old n (p ∷ ps) [] cp = (refl, refl)
inherit_providers-KeepsRouting old n (p ∷ ps) (policy ∷ policies) cp =
    let found = old_index_of old p policy in
    let next : ClientProxy = when_some found (λ j. inherit_provider cp n old.cp j) cp in
    let here = when_some-KeepsRouting found cp n old.cp in
    let rest = inherit_providers-KeepsRouting old (suc n) ps policies next in
    (rest.0 ∙ here.0, rest.1 ∙ here.1)

followed :
    (cp cp' : ClientProxy) (old_providers : List Provider) (old_index index : ℤ)
    → KeepsRouting cp cp'
    → cp.mode ≡ mode_auto
    → is_empty (provider_name_at_index old_providers old_index) ≡ false
    → is_named cp.providers (provider_name_at_index old_providers old_index) ≡ true
    → provider_name_at_index cp'.providers
        (follow_name cp'.mode cp'.providers old_providers old_index index)
      ≡ provider_name_at_index old_providers old_index
followed cp cp' old_providers old_index index (same, mode) auto named found =
    let name = provider_name_at_index old_providers old_index in
    subst
      (λ m.
        provider_name_at_index cp'.providers
          (follow_name m cp'.providers old_providers old_index index)
        ≡ name)
      (sym (mode ∙ auto))
      (follow_name-provider_name_at_index cp'.providers old_providers old_index index named
        (subst (λ ps. is_named ps name ≡ true) (sym same) found))

-- In automatic mode the cursor of each routing scope stands, after a reload, at a provider of the
-- name that it stood at before, wherever that provider is listed now, if the new configuration still
-- has a provider of that name.
pub cursor_name-inherit_runtime_state :
    (new old : Runtime) (scope : RoutingScope)
    → new.cp.mode ≡ mode_auto
    → is_empty (cursor_name old.cp scope) ≡ false
    → is_named new.cp.providers (cursor_name old.cp scope) ≡ true
    → cursor_name (inherit_runtime_state new old).cp scope ≡ cursor_name old.cp scope
unfolding inherit_runtime_state scope_index
cursor_name-inherit_runtime_state new old scope_default auto named found =
    let cp = inherit_providers old 0 new.cp.providers new.policies new.cp in
    followed new.cp cp old.cp.providers old.cp.current_index cp.current_index
      (inherit_providers-KeepsRouting old 0 new.cp.providers new.policies new.cp) auto named found
cursor_name-inherit_runtime_state new old scope_claude_count_tokens auto named found =
    let cp = inherit_providers old 0 new.cp.providers new.policies new.cp in
    followed new.cp cp old.cp.providers old.cp.count_tokens_index cp.count_tokens_index
      (inherit_providers-KeepsRouting old 0 new.cp.providers new.policies new.cp) auto named found
cursor_name-inherit_runtime_state new old scope_openai_responses auto named found =
    let cp = inherit_providers old 0 new.cp.providers new.policies new.cp in
    followed new.cp cp old.cp.providers old.cp.responses_index cp.responses_index
      (inherit_providers-KeepsRouting old 0 new.cp.providers new.policies new.cp) auto named found
cursor_name-inherit_runtime_state new old scope_gemini_stream auto named found =
    let cp = inherit_providers old 0 new.cp.providers new.policies new.cp in
    followed new.cp cp old.cp.providers old.cp.gemini_stream_index cp.gemini_stream_index
      (inherit_providers-KeepsRouting old 0 new.cp.providers new.policies new.cp) auto named found
