-- ===== src/Reload/Kept.antt =====
-- inheritKeyState of internal/proxy/proxy.go: what it leaves alone.
use clipal.Common.{
  ℕ, suc, ◌≡◌, refl, ◌∙◌, Bool, true, false, if◌then◌else◌, List, [], ◌∷◌, Option, none, some, ℤ,
  pos, at?, set_at, eqb_ℤ, Text, arith,
}
use clipal.Providers.{
  RoutingScope, scope_default, scope_claude_count_tokens, scope_openai_responses,
  scope_gemini_stream,
}
use clipal.Failover.State.{ClientProxy, key_indices_for_scope, set_key_indices_for_scope}
use clipal.Reload.Inherit.{
  when_some, copy_at, or_empty, follow_key, inherit_key, inherit_keys_from, key_index_by_value,
  inherit_key_state,
}

-- All but the state of the keys is the same.
pub record Kept (cp cp' : ClientProxy) : Type 0 where
  pub same_providers : cp'.providers ≡ cp.providers
  pub same_mode : cp'.mode ≡ cp.mode
  pub same_deactivated : cp'.deactivated ≡ cp.deactivated
  pub same_busy : cp'.provider_busy ≡ cp.provider_busy
  pub same_breakers : cp'.breakers ≡ cp.breakers

Kept-refl : (cp : ClientProxy) → Kept cp cp
Kept-refl cp = record {
  same_providers = refl;
  same_mode = refl;
  same_deactivated = refl;
  same_busy = refl;
  same_breakers = refl;
}

Kept-trans : (a b c : ClientProxy) → Kept a b → Kept b c → Kept a c
Kept-trans a b c h k = record {
  same_providers = k.same_providers ∙ h.same_providers;
  same_mode = k.same_mode ∙ h.same_mode;
  same_deactivated = k.same_deactivated ∙ h.same_deactivated;
  same_busy = k.same_busy ∙ h.same_busy;
  same_breakers = k.same_breakers ∙ h.same_breakers;
}

set_key_indices_for_scope-Kept :
    (cp : ClientProxy) (cur : List ℤ) (scope : RoutingScope)
    → Kept cp (set_key_indices_for_scope cp cur scope)
unfolding set_key_indices_for_scope
set_key_indices_for_scope-Kept cp cur scope_default = ground arith
set_key_indices_for_scope-Kept cp cur scope_claude_count_tokens = ground arith
set_key_indices_for_scope-Kept cp cur scope_openai_responses = ground arith
set_key_indices_for_scope-Kept cp cur scope_gemini_stream = ground arith

when_some-Kept {ℓ} :
    {A : Type ℓ} (o : Option A) (f : A → ClientProxy) (cp : ClientProxy)
    → ((a : A) → Kept cp (f a))
    → Kept cp (when_some o f cp)
when_some-Kept none f cp h = Kept-refl cp
when_some-Kept (some a) f cp h = h a

Kept-if : (b : Bool) (cp x y : ClientProxy) → Kept cp x → Kept cp y → Kept cp (if b then x else y)
Kept-if true cp x y hx hy = hx
Kept-if false cp x y hx hy = hy

module _ (p k : ℕ) (src : ClientProxy) (q l : ℕ) where
  follow_key-Kept :
      (dst : ClientProxy) (scope : RoutingScope) → Kept dst (follow_key dst p k src q l scope)
  follow_key-Kept dst scope =
      let moved = set_at (key_indices_for_scope dst scope) (pos p) (pos k) in
      when_some-Kept (at? (key_indices_for_scope src scope) (pos q))
        (λ cursor. if eqb_ℤ cursor (pos l) then set_key_indices_for_scope dst moved scope else dst)
        dst
        (λ cursor.
          Kept-if (eqb_ℤ cursor (pos l)) dst (set_key_indices_for_scope dst moved scope) dst
            (set_key_indices_for_scope-Kept dst moved scope) (Kept-refl dst))

  follow_twice-Kept :
      (dst : ClientProxy) (first second : RoutingScope)
      → Kept dst (follow_key (follow_key dst p k src q l first) p k src q l second)
  follow_twice-Kept dst first second =
      let a = follow_key dst p k src q l first in
      Kept-trans dst a (follow_key a p k src q l second) (follow_key-Kept dst first)
        (follow_key-Kept a second)

  inherit_key-Kept : (dst : ClientProxy) → Kept dst (inherit_key dst p k src q l)
  unfolding inherit_key
  inherit_key-Kept dst =
      let quarantines =
        copy_at (or_empty (at? dst.key_deactivated (pos p))) k
          (or_empty (at? src.key_deactivated (pos q))) l in
      let dst' : ClientProxy = record dst {
        key_deactivated = set_at dst.key_deactivated (pos p) quarantines;
      } in
      let a = follow_key dst' p k src q l scope_default in
      let b = follow_key a p k src q l scope_claude_count_tokens in
      let c = follow_key b p k src q l scope_openai_responses in
      let d = follow_key c p k src q l scope_gemini_stream in
      Kept-trans dst dst' d (ground arith) (
        Kept-trans dst' b d (follow_twice-Kept dst' scope_default scope_claude_count_tokens)
          (follow_twice-Kept b scope_openai_responses scope_gemini_stream))

inherit_keys_from-Kept :
    (src_keys : List Text) (k : ℕ) (keys : List Text) (p : ℕ) (src : ClientProxy) (q : ℕ)
    (dst : ClientProxy)
    → Kept dst (inherit_keys_from src_keys k keys p src q dst)
unfolding inherit_keys_from
inherit_keys_from-Kept src_keys k [] p src q dst = Kept-refl dst
inherit_keys_from-Kept src_keys k (key ∷ keys) p src q dst =
    let dst' : ClientProxy =
      when_some (key_index_by_value 0 src_keys key) (λ l. inherit_key dst p k src q l) dst in
    Kept-trans dst dst' (inherit_keys_from src_keys (suc k) keys p src q dst')
      (when_some-Kept (key_index_by_value 0 src_keys key) (λ l. inherit_key dst p k src q l) dst
        (λ l. inherit_key-Kept p k src q l dst))
      (inherit_keys_from-Kept src_keys (suc k) keys p src q dst')

pub inherit_key_state-Kept :
    (dst : ClientProxy) (p : ℕ) (src : ClientProxy) (q : ℕ)
    → Kept dst (inherit_key_state dst p src q)
unfolding inherit_key_state
inherit_key_state-Kept dst p src q =
    when_some-Kept (at? dst.provider_keys (pos p))
      (λ dst_keys.
        when_some (at? src.provider_keys (pos q))
          (λ src_keys. inherit_keys_from src_keys 0 dst_keys p src q dst) dst)
      dst
      (λ dst_keys.
        when_some-Kept (at? src.provider_keys (pos q))
          (λ src_keys. inherit_keys_from src_keys 0 dst_keys p src q dst) dst
          (λ src_keys. inherit_keys_from-Kept src_keys 0 dst_keys p src q dst))
