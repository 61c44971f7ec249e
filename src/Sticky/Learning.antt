-- ===== src/Sticky/Learning.antt =====
-- learnStickySuccessWithPayload of internal/proxy/sticky.go: the number of bindings after it.
use clipal.Common.{
  Bool, true, false, if◌then◌else◌, [], ◌∷◌, Option, ℤ, pos, negsuc, Text, is_empty,
}
use clipal.Common.Maps.{insert, delete_if}
use clipal.Clock.{Time}
use clipal.Json.{Fields}
use clipal.Providers.{RoutingScope}
use clipal.Protocols.Contexts.{RequestContext}
use clipal.Sticky.Keys.{
  Library, StickyKey, StickyKeyLevel, no_level, l1, l2, l3, sticky_scope_key,
  extract_response_learning_sticky_key_from_root, extract_response_lookup_id,
}
use clipal.Sticky.State.{
  StickyLookupEntry, StickyState, prune_sticky_state, is_stale, dynamic_ttl, bind_dynamic,
  learn_request, learn_message, learn_response, learn_sticky_success_with_payload,
}
use clipal.Sticky.Eviction.{IsWithin, enforce_dynamic_feature_capacity-IsWithin}

pub prune_sticky_state-IsWithin :
    (s : StickyState) (now : Time) → IsWithin (prune_sticky_state s now)
unfolding prune_sticky_state
prune_sticky_state-IsWithin s now =
    let r = s.routing in
    let kept : StickyState = record s {
      sticky_bindings =
          delete_if (λ key entry. is_stale r.explicit_ttl now entry.last_seen_at) s.sticky_bindings;
      response_lookup =
          delete_if (λ key entry. is_stale r.response_lookup_ttl now entry.last_seen_at)
            s.response_lookup;
      dynamic_feature_bindings =
          delete_if (λ key entry. is_stale (dynamic_ttl r entry.source) now entry.last_seen_at)
            s.dynamic_feature_bindings;
    } in
    enforce_dynamic_feature_capacity-IsWithin kept

bind_dynamic-IsWithin :
    (s : StickyState) (key : Text) (i k : ℤ) (now : Time) (source : Text)
    → IsWithin (bind_dynamic s key i k now source)
unfolding bind_dynamic
bind_dynamic-IsWithin s key i k now source =
    let entry : StickyLookupEntry = record {
      provider_index = i;
      key_index = k;
      last_seen_at = now;
      source = source;
    } in
    enforce_dynamic_feature_capacity-IsWithin
      (record s { dynamic_feature_bindings = insert s.dynamic_feature_bindings key entry })

learn_request-IsWithin :
    (scope : RoutingScope) (level : StickyKeyLevel) (key source : Text) (i k : ℤ) (now : Time)
    (s : StickyState)
    → IsWithin s
    → IsWithin
        (learn_request scope (record { level = level; key = key; source = source }) i k now s)
unfolding learn_request
learn_request-IsWithin scope no_level key source i k now s h = h
learn_request-IsWithin scope l1 key source i k now s h = h
learn_request-IsWithin scope l2 key source i k now s h =
    bind_dynamic-IsWithin s (sticky_scope_key scope key) i k now source
learn_request-IsWithin scope l3 key source i k now s h =
    bind_dynamic-IsWithin s (sticky_scope_key scope key) i k now source

IsWithin-if :
    (b : Bool) (s t : StickyState) → IsWithin s → IsWithin t → IsWithin (if b then s else t)
IsWithin-if true s t hs ht = hs
IsWithin-if false s t hs ht = ht

learn_message-IsWithin :
    (scope : RoutingScope) (level : StickyKeyLevel) (key source : Text) (i k : ℤ) (now : Time)
    (s : StickyState)
    → IsWithin s
    → IsWithin
        (learn_message scope (record { level = level; key = key; source = source }) i k now s)
unfolding learn_message
learn_message-IsWithin scope no_level key source i k now s h = h
learn_message-IsWithin scope l1 key source i k now s h = h
learn_message-IsWithin scope l2 key source i k now s h = h
learn_message-IsWithin scope l3 key source i k now s h =
    IsWithin-if (is_empty key) s (bind_dynamic s (sticky_scope_key scope key) i k now source) h
      (bind_dynamic-IsWithin s (sticky_scope_key scope key) i k now source)

learn_response-IsWithin :
    (id : Text) (i k : ℤ) (now : Time) (s : StickyState)
    → IsWithin s
    → IsWithin (learn_response id i k now s)
unfolding learn_response
learn_response-IsWithin [] i k now s h = h
learn_response-IsWithin (c ∷ id) i k now s h = h

pub learn_sticky_success_with_payload-IsWithin :
    (lib : Library) (scope : RoutingScope) (ctx : RequestContext) (key : StickyKey)
    (root : Option Fields) (body : Text) (i k : ℤ) (now : Time) (s : StickyState)
    → IsWithin s
    → IsWithin (learn_sticky_success_with_payload lib scope ctx key root body i k now s)
unfolding learn_sticky_success_with_payload
learn_sticky_success_with_payload-IsWithin lib scope ctx key root body (negsuc i) k now s h = h
learn_sticky_success_with_payload-IsWithin lib scope ctx key root body (pos i) k now s h =
    let learned = extract_response_learning_sticky_key_from_root lib ctx root in
    let pruned = prune_sticky_state s now in
    let bound = learn_request scope key (pos i) k now pruned in
    let said = learn_message scope learned (pos i) k now bound in
    learn_response-IsWithin (extract_response_lookup_id lib ctx body) (pos i) k now said (
      learn_message-IsWithin scope learned.level learned.key learned.source (pos i) k now bound (
        learn_request-IsWithin scope key.level key.key key.source (pos i) k now pruned
          (prune_sticky_state-IsWithin s now)))
