-- ===== src/Failover/Quarantine/Breakers.antt =====
-- That quarantines and cursors are kept apart from the breakers.
use clipal.Common.{◌≡◌, ◌∙◌, ℤ, List, arith, set_at}
use clipal.Clock.{Time, Duration}
use clipal.Providers.{
  RoutingScope, scope_default, scope_claude_count_tokens, scope_openai_responses,
  scope_gemini_stream,
}
use clipal.Failover.State.{
  ClientProxy, ProviderDeactivation, key_indices_for_scope, set_scope_index,
  set_key_indices_for_scope, set_current_key_index_for_scope,
}
use clipal.Failover.Cursors.{next_active_index, next_active_key_index}
use clipal.Failover.Quarantine.{
  Failure, quarantine, advance_scope_indices, advance_scope_index, deactivate_for,
  advance_key_index, advance_key_indices, set_key_deactivation, deactivate_key_for,
}

module _ (cp : ClientProxy) where
  pub set_scope_index-breakers :
      (x : ℤ) (s : RoutingScope) → (set_scope_index cp x s).breakers ≡ cp.breakers
  unfolding set_scope_index
  set_scope_index-breakers x s = ground arith

  set_key_indices-breakers :
      (ks : List ℤ) (s : RoutingScope) → (set_key_indices_for_scope cp ks s).breakers ≡ cp.breakers
  unfolding set_key_indices_for_scope
  set_key_indices-breakers ks s = ground arith

  pub set_current_key_index-breakers :
      (i k : ℤ) (s : RoutingScope)
      → (set_current_key_index_for_scope cp i k s).breakers ≡ cp.breakers
  unfolding set_current_key_index_for_scope
  set_current_key_index-breakers i k s = set_key_indices-breakers _ s

advance_scope_index-breakers :
    (cp : ClientProxy) (i : ℤ) (s : RoutingScope) (t : Time)
    → (advance_scope_index cp i s t).breakers ≡ cp.breakers
unfolding advance_scope_index
advance_scope_index-breakers cp i s t =
    let kept = set_scope_index-breakers cp (next_active_index cp i t) s in ground arith

advance_scope_indices-breakers :
    (cp : ClientProxy) (i : ℤ) (clock : RoutingScope → Time)
    → (advance_scope_indices cp i clock).breakers ≡ cp.breakers
unfolding advance_scope_indices
advance_scope_indices-breakers cp i clock =
    advance_scope_index-breakers _ i scope_gemini_stream _
    ∙ (advance_scope_index-breakers _ i scope_openai_responses _
        ∙ (advance_scope_index-breakers _ i scope_claude_count_tokens _
            ∙ advance_scope_index-breakers cp i scope_default _))

advance_key_index-breakers :
    (cp : ClientProxy) (p k : ℤ) (t : Time) (s : RoutingScope)
    → (advance_key_index cp p k t s).breakers ≡ cp.breakers
unfolding advance_key_index
advance_key_index-breakers cp p k t s =
    let kept =
      set_key_indices-breakers cp
        (set_at (key_indices_for_scope cp s) p (next_active_key_index cp p k t)) s in
    ground arith

advance_key_indices-breakers :
    (cp : ClientProxy) (p k : ℤ) (t : Time) → (advance_key_indices cp p k t).breakers ≡ cp.breakers
unfolding advance_key_indices
advance_key_indices-breakers cp p k t =
    advance_key_index-breakers _ p k t scope_gemini_stream
    ∙ (advance_key_index-breakers _ p k t scope_openai_responses
        ∙ (advance_key_index-breakers _ p k t scope_claude_count_tokens
            ∙ advance_key_index-breakers cp p k t scope_default))

set_key_deactivation-breakers :
    (cp : ClientProxy) (p k : ℤ) (d : ProviderDeactivation)
    → (set_key_deactivation cp p k d).breakers ≡ cp.breakers
unfolding set_key_deactivation
set_key_deactivation-breakers cp p k d = ground arith

pub deactivate_for-breakers :
    (cp : ClientProxy) (i : ℤ) (f : Failure) (d : Duration) (t u : Time)
    (clock : RoutingScope → Time)
    → (deactivate_for cp i f d t u clock).breakers ≡ cp.breakers
unfolding deactivate_for
deactivate_for-breakers cp i f d t u clock =
    let q = quarantine f u d in
    let moved =
      advance_scope_indices-breakers (record cp { deactivated = set_at cp.deactivated i q }) i
        clock in
    ground arith

pub deactivate_key_for-breakers :
    (cp : ClientProxy) (i k : ℤ) (f : Failure) (d : Duration) (t : Time)
    → (deactivate_key_for cp i k f d t).breakers ≡ cp.breakers
unfolding deactivate_key_for
deactivate_key_for-breakers cp i k f d t =
    let out = set_key_deactivation cp i k (quarantine f t d) in
    let moved =
      advance_key_indices-breakers out i k t
      ∙ set_key_deactivation-breakers cp i k (quarantine f t d) in
    ground arith
