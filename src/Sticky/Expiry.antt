-- ===== src/Sticky/Expiry.antt =====
-- resolveStickyProvider of internal/proxy/sticky.go, after and among what is learnt.
use clipal.Common.{
  ℕ, ◌≡◌, refl, ap, ◌∙◌, false, List, [], ◌∷◌, Option, none, some, ℤ, pos, Text, is_empty,
  trim_space, Bool-cases, Option-cases, inl, inr,
}
use clipal.Common.Maps.{lookup, lookup-insert, length-insert_known, lookup-delete_if_kept}
use clipal.Clock.{Time}
use clipal.Json.{Fields}
use clipal.Providers.{RoutingScope}
use clipal.Protocols.Contexts.{RequestContext}
use clipal.Sticky.Keys.{
  Library, StickyKey, StickyKeyLevel, no_level, l1, l2, l3, sticky_scope_key,
  extract_response_learning_sticky_key_from_root, extract_response_lookup_id,
}
use clipal.Sticky.State.{
  StickyBinding, StickyLookupEntry, StickyState, enforce_dynamic_feature_capacity,
  prune_sticky_state, is_stale, see_dynamic, see_explicit, resolve_in, resolve_sticky_provider,
  bind_dynamic, learn_request, learn_message, learn_response, learn_sticky_success_with_payload,
}
use clipal.Sticky.Eviction.{IsWithin}
use clipal.Sticky.Learning.{prune_sticky_state-IsWithin, learn_sticky_success_with_payload-IsWithin}

see_dynamic-IsWithin :
    (s : StickyState) (key : Text) (now : Time) (found : Option StickyLookupEntry)
    → lookup s.dynamic_feature_bindings key ≡ found
    → IsWithin s
    → IsWithin (see_dynamic s key now found).1
see_dynamic-IsWithin s key now none e h = h
see_dynamic-IsWithin s key now (some entry) e h =
    let seen : StickyLookupEntry = record entry { last_seen_at = now } in
    rw (length-insert_known s.dynamic_feature_bindings key seen e) h

see_explicit-IsWithin :
    (s : StickyState) (scoped key : Text) (now : Time) (found : Option StickyBinding)
    → IsWithin s
    → IsWithin (see_explicit s scoped key now found).1
see_explicit-IsWithin s scoped key now (some entry) h = h
see_explicit-IsWithin s scoped key now none h = elim (Option-cases (lookup s.response_lookup key)) [
  | inl e ↦ rw e h
  | inr (entry, e) ↦ rw e h
]

resolve_in-IsWithin :
    (scope : RoutingScope) (level : StickyKeyLevel) (key source : Text) (s : StickyState)
    (now : Time)
    → IsWithin s
    → IsWithin (resolve_in scope (record { level = level; key = key; source = source }) s now).1
resolve_in-IsWithin scope no_level key source s now h = h
resolve_in-IsWithin scope l1 key source s now h =
    let scoped = sticky_scope_key scope key in
    see_explicit-IsWithin s scoped key now (lookup s.sticky_bindings scoped) h
resolve_in-IsWithin scope l2 key source s now h =
    let scoped = sticky_scope_key scope key in
    see_dynamic-IsWithin s scoped now (lookup s.dynamic_feature_bindings scoped) refl h
resolve_in-IsWithin scope l3 key source s now h =
    let scoped = sticky_scope_key scope key in
    see_dynamic-IsWithin s scoped now (lookup s.dynamic_feature_bindings scoped) refl h

resolve_sticky_provider-IsWithin :
    (s : StickyState) (scope : RoutingScope) (key : StickyKey) (now : Time)
    → IsWithin s
    → IsWithin (resolve_sticky_provider s scope key now).1
unfolding resolve_sticky_provider
resolve_sticky_provider-IsWithin s scope key now h =
    elim (Bool-cases (is_empty (trim_space key.key))) [
      | inl e ↦ rw e h
      | inr e ↦ rw e (
          resolve_in-IsWithin scope key.level key.key key.source (prune_sticky_state s now) now
            (prune_sticky_state-IsWithin s now))
    ]

-- A request is bound, or its success is learnt.
pub data StickyEvent : Type 0 where
  resolves : RoutingScope → StickyKey → Time → StickyEvent
  learns :
      RoutingScope → RequestContext → StickyKey → Option Fields → Text → ℤ → ℤ → Time → StickyEvent

abbrev pub run_sticky : Library → List StickyEvent → StickyState → StickyState
run_sticky lib [] s = s
run_sticky lib (resolves scope key now ∷ events) s =
    run_sticky lib events (resolve_sticky_provider s scope key now).1
run_sticky lib (learns scope ctx key root body i k now ∷ events) s =
    run_sticky lib events (learn_sticky_success_with_payload lib scope ctx key root body i k now s)

-- Whatever requests are resolved and learnt, and in whatever order, a positive capacity of the
-- bindings of features is never exceeded, if it is not at the start.
pub run_sticky-IsWithin :
    (lib : Library) (events : List StickyEvent) (s : StickyState)
    → IsWithin s
    → IsWithin (run_sticky lib events s)
run_sticky-IsWithin lib [] s h = h
run_sticky-IsWithin lib (resolves scope key now ∷ events) s h =
    run_sticky-IsWithin lib events (resolve_sticky_provider s scope key now).1
      (resolve_sticky_provider-IsWithin s scope key now h)
run_sticky-IsWithin lib (learns scope ctx key root body i k now ∷ events) s h =
    run_sticky-IsWithin lib events
      (learn_sticky_success_with_payload lib scope ctx key root body i k now s)
      (learn_sticky_success_with_payload-IsWithin lib scope ctx key root body i k now s h)

learn_message_explicit :
    (scope : RoutingScope) (level : StickyKeyLevel) (key source : Text) (i k : ℤ) (now : Time)
    (s : StickyState)
    → let learned : StickyKey = record { level = level; key = key; source = source } in
      ((learn_message scope learned i k now s).sticky_bindings ≡ s.sticky_bindings)
      × ((learn_message scope learned i k now s).routing ≡ s.routing)
unfolding learn_message bind_dynamic enforce_dynamic_feature_capacity
learn_message_explicit scope no_level key source i k now s = (refl, refl)
learn_message_explicit scope l1 key source i k now s = (refl, refl)
learn_message_explicit scope l2 key source i k now s = (refl, refl)
learn_message_explicit scope l3 [] source i k now s = (refl, refl)
learn_message_explicit scope l3 (c ∷ key) source i k now s = (refl, refl)

learn_response_explicit :
    (id : Text) (i k : ℤ) (now : Time) (s : StickyState)
    → ((learn_response id i k now s).sticky_bindings ≡ s.sticky_bindings)
      × ((learn_response id i k now s).routing ≡ s.routing)
unfolding learn_response
learn_response_explicit [] i k now s = (refl, refl)
learn_response_explicit (c ∷ id) i k now s = (refl, refl)

-- The binding of an explicit key while it lives.
resolve_explicit :
    (s : StickyState) (scope : RoutingScope) (key source : Text) (now : Time) (b : StickyBinding)
    → is_empty (trim_space key) ≡ false
    → lookup s.sticky_bindings (sticky_scope_key scope key) ≡ some b
    → is_stale s.routing.explicit_ttl now b.last_seen_at ≡ false
    → (resolve_sticky_provider s scope (record { level = l1; key = key; source = source }) now).0
      ≡ some (b.provider_index, b.key_index)
unfolding resolve_sticky_provider prune_sticky_state enforce_dynamic_feature_capacity
resolve_explicit s scope key source now b named found fresh = rw named (
    rw
      (lookup-delete_if_kept (λ _ entry. is_stale s.routing.explicit_ttl now entry.last_seen_at)
        s.sticky_bindings (sticky_scope_key scope key) b found fresh)
      refl)

prune_sticky_state-routing :
    (s : StickyState) (now : Time) → (prune_sticky_state s now).routing ≡ s.routing
unfolding prune_sticky_state enforce_dynamic_feature_capacity
prune_sticky_state-routing s now = refl

-- A success that is learnt under an explicit key is read back: the next request in the same scope
-- with that key goes to the same provider and key, as long as the explicit time to live has not run
-- out since, whatever else was learnt with it.
pub resolve_sticky_provider-learn_sticky_success_with_payload :
    (lib : Library) (scope : RoutingScope) (ctx : RequestContext) (key source : Text)
    (root : Option Fields) (body : Text) (i : ℕ) (k : ℤ) (now later : Time) (s : StickyState)
    → is_empty (trim_space key) ≡ false
    → is_stale s.routing.explicit_ttl later now ≡ false
    → let explicit : StickyKey = record { level = l1; key = key; source = source } in
      (resolve_sticky_provider
        (learn_sticky_success_with_payload lib scope ctx explicit root body (pos i) k now s)
        scope
        explicit
        later).0
      ≡ some (pos i, k)
unfolding learn_sticky_success_with_payload learn_request
resolve_sticky_provider-learn_sticky_success_with_payload lib scope ctx key source root body i k now
      later s named fresh =
    let learned = extract_response_learning_sticky_key_from_root lib ctx root in
    let id = extract_response_lookup_id lib ctx body in
    let explicit : StickyKey = record { level = l1; key = key; source = source } in
    let scoped = sticky_scope_key scope key in
    let pruned = prune_sticky_state s now in
    let b : StickyBinding = record {
      provider_index = pos i;
      key_index = k;
      bound_at = now;
      last_seen_at = now;
      level = l1;
      source = source;
    } in
    let bound = learn_request scope explicit (pos i) k now pruned in
    let said = learn_message scope learned (pos i) k now bound in
    let by_response = learn_response_explicit id (pos i) k now said in
    let by_message =
      learn_message_explicit scope learned.level learned.key learned.source (pos i) k now bound in
    resolve_explicit (learn_response id (pos i) k now said) scope key source later b named
      (ap (λ m. lookup m scoped) (by_response.0 ∙ by_message.0)
        ∙ lookup-insert pruned.sticky_bindings scoped b)
      (ap (λ r. is_stale r.explicit_ttl later now)
          (by_response.1 ∙ by_message.1 ∙ prune_sticky_state-routing s now)
        ∙ fresh)
