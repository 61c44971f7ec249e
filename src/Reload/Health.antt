-- ===== src/Reload/Health.antt =====
-- inheritRuntimeState of internal/proxy/proxy.go: the quarantines and the breakers.
use clipal.Common.{
  ℕ, zero, suc, ◌+◌, ◌<◌, ◌≡◌, ◌≢◌, refl, sym, ap, ◌∙◌, true, List, [], ◌∷◌, Option, none, some,
  pos, at?, get_elem?, at?-set_at_self, at?-set_at_ne, arith, Bool-cases, inl, inr, subst, eqb_ℤ-eq,
}
use clipal.CircuitBreaker.{CircuitBreaker, CircuitBreakerConfig}
use clipal.CircuitBreaker.Invariant.{Inv}
use clipal.Providers.{Provider}
use clipal.Failover.State.{ClientProxy, ProviderDeactivation}
use clipal.Reload.Inherit.{
  Runtime, ProxyPolicy, when_some, put_some, copy_at, old_index_of, inherit_provider,
  inherit_providers, inherit_breaker_state, same_config, inherit_runtime_state,
}
use clipal.Reload.Identity.{Successor, old_index_of-Successor}
use clipal.Reload.Kept.{inherit_key_state-Kept}

pos-injective : {a b : ℕ} → pos a ≡ pos b → a ≡ b
pos-injective e = cc

put_some-ne {ℓ} :
    {A : Type ℓ} (dst : List A) (i : ℕ) (o : Option A) (k : ℕ)
    → i ≢ k
    → at? (put_some dst i o) (pos k) ≡ at? dst (pos k)
put_some-ne dst i none k h = refl
put_some-ne dst i (some v) k h = at?-set_at_ne dst (pos i) (pos k) v (λ s. h (pos-injective s))

abbrev pub or_fresh {ℓ} : {A : Type ℓ} → A → Option A → A
or_fresh fresh none = fresh
or_fresh fresh (some v) = v

put_some-at {ℓ} :
    {A : Type ℓ} (dst : List A) (i : ℕ) (o : Option A) (w : A)
    → at? dst (pos i) ≡ some w
    → at? (put_some dst i o) (pos i) ≡ some (or_fresh w o)
put_some-at dst i none w d = d
put_some-at dst i (some v) w d = at?-set_at_self dst (pos i) v d

inherit_provider-deactivated :
    (cp : ClientProxy) (i : ℕ) (old : ClientProxy) (j : ℕ)
    → (inherit_provider cp i old j).deactivated
      ≡ put_some cp.deactivated i (at? old.deactivated (pos j))
unfolding inherit_provider copy_at
inherit_provider-deactivated cp i old j =
    let healthy : ClientProxy = record cp {
      deactivated = put_some cp.deactivated i (at? old.deactivated (pos j));
      provider_busy = put_some cp.provider_busy i (at? old.provider_busy (pos j));
    } in
    (inherit_key_state-Kept healthy i old j).same_deactivated

when_some-before :
    (found : Option ℕ) (cp : ClientProxy) (n : ℕ) (old : ClientProxy) (i : ℕ)
    → n ≢ i
    → at? (when_some found (λ j. inherit_provider cp n old j) cp).deactivated (pos i)
      ≡ at? cp.deactivated (pos i)
when_some-before none cp n old i h = refl
when_some-before (some j) cp n old i h =
    ap (λ ds. at? ds (pos i)) (inherit_provider-deactivated cp n old j)
    ∙ put_some-ne cp.deactivated n (at? old.deactivated (pos j)) i h

-- The providers before the one that the loop is at keep their state.
inherit_providers-before :
    (old : Runtime) (n : ℕ) (ps : List Provider) (policies : List ProxyPolicy) (cp : ClientProxy)
    (i : ℕ)
    → i < n
    → at? (inherit_providers old n ps policies cp).deactivated (pos i) ≡ at? cp.deactivated (pos i)
unfolding inherit_providers
inherit_providers-before old n [] policies cp i h = refl
inherit_providers-before old n (p ∷ ps) [] cp i h = refl
inherit_providers-before old n (p ∷ ps) (policy ∷ policies) cp i h =
    let next : ClientProxy =
      when_some (old_index_of old p policy) (λ j. inherit_provider cp n old.cp j) cp in
    inherit_providers-before old (suc n) ps policies next i (omega arith)
    ∙ when_some-before (old_index_of old p policy) cp n old.cp i (omega arith)

-- The quarantine that a provider has after a reload: that of the provider which it is the same as.
abbrev pub inherited : Runtime → Option ℕ → ProviderDeactivation → ProviderDeactivation
inherited old none fresh = fresh
inherited old (some j) fresh = or_fresh fresh (at? old.cp.deactivated (pos j))

when_some-inherited :
    (old : Runtime) (found : Option ℕ) (cp : ClientProxy) (n : ℕ) (fresh : ProviderDeactivation)
    → at? cp.deactivated (pos n) ≡ some fresh
    → at? (when_some found (λ j. inherit_provider cp n old.cp j) cp).deactivated (pos n)
      ≡ some (inherited old found fresh)
when_some-inherited old none cp n fresh h = h
when_some-inherited old (some j) cp n fresh h =
    ap (λ ds. at? ds (pos n)) (inherit_provider-deactivated cp n old.cp j)
    ∙ put_some-at cp.deactivated n (at? old.cp.deactivated (pos j)) fresh h

inherit_providers-deactivated :
    (old : Runtime) (n : ℕ) (ps : List Provider) (policies : List ProxyPolicy) (cp : ClientProxy)
    (i : ℕ) (p : Provider) (policy : ProxyPolicy) (fresh : ProviderDeactivation)
    → get_elem? ps i ≡ some p
    → get_elem? policies i ≡ some policy
    → at? cp.deactivated (pos (n + i)) ≡ some fresh
    → at? (inherit_providers old n ps policies cp).deactivated (pos (n + i))
      ≡ some (inherited old (old_index_of old p policy) fresh)
unfolding inherit_providers
inherit_providers-deactivated old n [] policies cp i p policy fresh hp hq h = absurd (ground arith)
inherit_providers-deactivated old n (q ∷ ps) [] cp i p policy fresh hp hq h = absurd (ground arith)
inherit_providers-deactivated old n (q ∷ ps) (r ∷ policies) cp zero p policy fresh hp hq h =
    let found = old_index_of old q r in
    let next : ClientProxy = when_some found (λ j. inherit_provider cp n old.cp j) cp in
    let here : n + 0 ≡ n = omega arith in
    let at_n = subst (λ k. at? cp.deactivated (pos k) ≡ some fresh) here h in
    subst
      (λ k.
        at? (inherit_providers old (suc n) ps policies next).deactivated (pos k)
        ≡ some (inherited old (old_index_of old p policy) fresh))
      (sym here)
      (inherit_providers-before old (suc n) ps policies next n (omega arith)
        ∙ (when_some-inherited old found cp n fresh at_n ∙ cc (hp, hq)))
inherit_providers-deactivated old n (q ∷ ps) (r ∷ policies) cp (suc i) p policy fresh hp hq h =
    let found = old_index_of old q r in
    let next : ClientProxy = when_some found (λ j. inherit_provider cp n old.cp j) cp in
    let there : suc n + i ≡ n + suc i = omega arith in
    subst
      (λ k.
        at? (inherit_providers old (suc n) ps policies next).deactivated (pos k)
        ≡ some (inherited old (old_index_of old p policy) fresh))
      there
      (inherit_providers-deactivated old (suc n) ps policies next i p policy fresh hp hq (
        when_some-before found cp n old.cp (suc n + i) (omega arith)
        ∙ subst (λ k. at? cp.deactivated (pos k) ≡ some fresh) (sym there) h))

deactivated_after :
    (new old : Runtime) (i : ℕ) (p : Provider) (policy : ProxyPolicy) (fresh : ProviderDeactivation)
    → get_elem? new.cp.providers i ≡ some p
    → get_elem? new.policies i ≡ some policy
    → at? new.cp.deactivated (pos i) ≡ some fresh
    → at? (inherit_runtime_state new old).cp.deactivated (pos i)
      ≡ some (inherited old (old_index_of old p policy) fresh)
unfolding inherit_runtime_state
deactivated_after new old i p policy fresh hp hq h =
    let here : 0 + i ≡ i = omega arith in
    subst
      (λ k.
        at? (inherit_providers old 0 new.cp.providers new.policies new.cp).deactivated (pos k)
        ≡ some (inherited old (old_index_of old p policy) fresh))
      here
      (inherit_providers-deactivated old 0 new.cp.providers new.policies new.cp i p policy fresh hp
        hq (subst (λ k. at? new.cp.deactivated (pos k) ≡ some fresh) (sym here) h))

-- The quarantine of each provider after a reload is found as follows. Take the last provider of its
-- name in the replaced proxy. If that one also has its kind of authentication, address, kind of OAuth
-- account, account and proxy policy then the quarantine is that one's entry, whatever became of the
-- place in the list; it is the new proxy's own entry if there is no provider of the name, if the last
-- one differs in any of these, or if the replaced proxy has no entry for it.
pub inherit_runtime_state-deactivated :
    (new old : Runtime) (i : ℕ) (p : Provider) (policy : ProxyPolicy) (fresh : ProviderDeactivation)
    → get_elem? new.cp.providers i ≡ some p
    → get_elem? new.policies i ≡ some policy
    → at? new.cp.deactivated (pos i) ≡ some fresh
    → (from : Option ℕ) × Successor old p policy from
      × (at? (inherit_runtime_state new old).cp.deactivated (pos i)
          ≡ some (inherited old from fresh))
inherit_runtime_state-deactivated new old i p policy fresh hp hq h = (
  old_index_of old p policy,
  old_index_of-Successor old p policy,
  deactivated_after new old i p policy fresh hp hq h,
)

same_config-eq : (a b : CircuitBreakerConfig) → same_config a b ≡ true → a ≡ b
unfolding same_config
same_config-eq a b h = ground (
  arith,
  eqb_ℤ-eq a.failure_threshold b.failure_threshold,
  eqb_ℤ-eq a.success_threshold b.success_threshold,
  eqb_ℤ-eq a.open_timeout b.open_timeout,
  eqb_ℤ-eq a.half_open_max_in_flight b.half_open_max_in_flight,
)

inherit_breaker_state_same :
    (dst src : CircuitBreaker)
    → same_config dst.cfg src.cfg ≡ true
    → inherit_breaker_state (some dst) (some src) ≡ some src
unfolding inherit_breaker_state
inherit_breaker_state_same dst src h = let same = same_config-eq dst.cfg src.cfg h in ground arith

-- A breaker that takes over the state of another one keeps the invariant, since it does so only if
-- their configurations are equal.
pub inherit_breaker_state-Inv :
    (dst src : CircuitBreaker)
    → Inv dst
    → Inv src
    → (b : CircuitBreaker) × (inherit_breaker_state (some dst) (some src) ≡ some b) × Inv b
unfolding inherit_breaker_state
inherit_breaker_state-Inv dst src hd hs = elim (Bool-cases (same_config dst.cfg src.cfg)) [
  | inl same ↦ (src, inherit_breaker_state_same dst src same, hs)
  | inr other ↦ (dst, ground arith, hd)
]
