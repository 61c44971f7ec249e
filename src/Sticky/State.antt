-- ===== src/Sticky/State.antt =====
-- internal/proxy/sticky.go: the bindings that a proxy keeps, how they are read and learnt, and how
-- they go. The keys of a map are distinct, so that the order of `sort.Slice` has one result.
use clipal.Common.{
  ℕ, zero, suc, ◌-◌, ltb, leb, Bool, true, false, if◌then◌else◌, ◌&&◌, ◌||◌, ◌==◌, List, [], ◌∷◌,
  Option, none, some, ℤ, pos, negsuc, ltb_ℤ, Text, text, eq_text, is_empty, trim_space, length,
}
use clipal.Common.Maps.{lookup, insert, delete, delete_if}
use clipal.Clock.{Time, Duration, before, sub}
use clipal.Json.{Fields}
use clipal.Providers.{RoutingScope}
use clipal.Protocols.Contexts.{RequestContext}
use clipal.Sticky.Keys.{
  Library, StickyKeyLevel, no_level, l1, l2, l3, StickyKey, sticky_scope_key,
  extract_response_learning_sticky_key_from_root, extract_response_lookup_id,
}

pub record StickyBinding : Type 0 where
  pub provider_index : ℤ
  pub key_index : ℤ
  pub bound_at : Time
  pub last_seen_at : Time
  pub level : StickyKeyLevel
  pub source : Text

pub record StickyLookupEntry : Type 0 where
  pub provider_index : ℤ
  pub key_index : ℤ
  pub last_seen_at : Time
  pub source : Text

pub record StickySettings : Type 0 where
  pub explicit_ttl : Duration
  pub cache_hint_ttl : Duration
  pub dynamic_feature_ttl : Duration
  pub response_lookup_ttl : Duration
  pub dynamic_feature_capacity : ℤ

pub record StickyState : Type 0 where
  pub sticky_bindings : List (Text × StickyBinding)
  pub response_lookup : List (Text × StickyLookupEntry)
  pub dynamic_feature_bindings : List (Text × StickyLookupEntry)
  pub routing : StickySettings

-- a < b, for strings.
unfoldable pub lt_text : Text → Text → Bool
lt_text s [] = false
lt_text [] (c ∷ t) = true
lt_text (d ∷ s) (c ∷ t) = ltb d c || ((d == c) && lt_text s t)

-- What the eviction sorts: a key and the time when it was last seen.
abbrev pub Candidate : Type 0
Candidate = Text × Time

unfoldable pub comes_first : Candidate → Candidate → Bool
comes_first (key, at) (key', at') = if at == at' then lt_text key key' else before at at'

unfoldable pub place : Candidate → List Candidate → List Candidate
place c [] = c ∷ []
place c (d ∷ ds) = let rest = place c ds in if comes_first d c then d ∷ rest else c ∷ d ∷ ds

unfoldable pub sort_candidates : List Candidate → List Candidate
sort_candidates [] = []
sort_candidates (c ∷ cs) = place c (sort_candidates cs)

unfoldable pub candidates_of : List (Text × StickyLookupEntry) → List Candidate
candidates_of [] = []
candidates_of ((key, entry) ∷ m) = (key, entry.last_seen_at) ∷ candidates_of m

-- The loop that deletes the first candidates, at most `overflow` of them.
unfoldable pub delete_first :
    ℕ → List Candidate → List (Text × StickyLookupEntry) → List (Text × StickyLookupEntry)
delete_first zero cs m = m
delete_first (suc n) [] m = m
delete_first (suc n) ((key, at) ∷ cs) m = delete_first n cs (delete m key)

abbrev pub evict : ℤ → List (Text × StickyLookupEntry) → List (Text × StickyLookupEntry)
evict (negsuc n) m = m
evict (pos zero) m = m
evict (pos (suc c)) m =
    if leb (length m) (suc c)
    then m
    else delete_first (length m - suc c) (sort_candidates (candidates_of m)) m

unfoldable pub enforce_dynamic_feature_capacity : StickyState → StickyState
enforce_dynamic_feature_capacity s = record s {
  dynamic_feature_bindings = evict s.routing.dynamic_feature_capacity s.dynamic_feature_bindings;
}

-- `ttl > 0 && now.Sub(seen) > ttl`
unfoldable pub is_stale : Duration → Time → Time → Bool
is_stale ttl now seen = ltb_ℤ (pos 0) ttl && ltb_ℤ ttl (sub now seen)

unfoldable pub dynamic_ttl : StickySettings → Text → Duration
dynamic_ttl r source =
    if eq_text source (text "prompt_cache_key") then r.cache_hint_ttl else r.dynamic_feature_ttl

unfoldable pub prune_sticky_state : StickyState → Time → StickyState
prune_sticky_state s now =
    let r = s.routing in
    enforce_dynamic_feature_capacity (record s {
      sticky_bindings =
          delete_if (λ key entry. is_stale r.explicit_ttl now entry.last_seen_at) s.sticky_bindings;
      response_lookup =
          delete_if (λ key entry. is_stale r.response_lookup_ttl now entry.last_seen_at)
            s.response_lookup;
      dynamic_feature_bindings =
          delete_if (λ key entry. is_stale (dynamic_ttl r entry.source) now entry.last_seen_at)
            s.dynamic_feature_bindings;
    })

abbrev pub Resolved : Type 0
Resolved = Option (ℤ × ℤ) × StickyState

abbrev pub see_dynamic : StickyState → Text → Time → Option StickyLookupEntry → Resolved
see_dynamic s key now none = (none, s)
see_dynamic s key now (some entry) =
    let seen = record entry { last_seen_at = now } in
    (
      some (entry.provider_index, entry.key_index),
      record s { dynamic_feature_bindings = insert s.dynamic_feature_bindings key seen },
    )

abbrev pub see_response : StickyState → Text → Time → Option StickyLookupEntry → Resolved
see_response s key now none = (none, s)
see_response s key now (some entry) =
    let seen = record entry { last_seen_at = now } in
    (
      some (entry.provider_index, entry.key_index),
      record s { response_lookup = insert s.response_lookup key seen },
    )

abbrev pub see_explicit : StickyState → Text → Text → Time → Option StickyBinding → Resolved
see_explicit s scoped key now none = see_response s key now (lookup s.response_lookup key)
see_explicit s scoped key now (some entry) =
    let seen = record entry { last_seen_at = now } in
    (
      some (entry.provider_index, entry.key_index),
      record s { sticky_bindings = insert s.sticky_bindings scoped seen },
    )

abbrev pub resolve_in : RoutingScope → StickyKey → StickyState → Time → Resolved
resolve_in scope key s now =
    let scoped = sticky_scope_key scope key.key in
    elim key.level [
      | no_level ↦ (none, s)
      | l1 ↦ see_explicit s scoped key.key now (lookup s.sticky_bindings scoped)
      | l2 ↦ see_dynamic s scoped now (lookup s.dynamic_feature_bindings scoped)
      | l3 ↦ see_dynamic s scoped now (lookup s.dynamic_feature_bindings scoped)
    ]

-- The provider and the key that a request is bound to, and the state with the binding seen.
unfoldable pub resolve_sticky_provider : StickyState → RoutingScope → StickyKey → Time → Resolved
resolve_sticky_provider s scope key now =
    if is_empty (trim_space key.key)
    then (none, s)
    else resolve_in scope key (prune_sticky_state s now) now

unfoldable pub bind_dynamic : StickyState → Text → ℤ → ℤ → Time → Text → StickyState
bind_dynamic s key provider_index key_index now source =
    let entry : StickyLookupEntry = record {
      provider_index = provider_index;
      key_index = key_index;
      last_seen_at = now;
      source = source;
    } in
    enforce_dynamic_feature_capacity
      (record s { dynamic_feature_bindings = insert s.dynamic_feature_bindings key entry })

-- What the key of the request is bound to.
unfoldable pub learn_request : RoutingScope → StickyKey → ℤ → ℤ → Time → StickyState → StickyState
learn_request scope key provider_index key_index now s =
    let scoped = sticky_scope_key scope key.key in
    elim key.level [
      | no_level ↦ s
      | l1 ↦ record s {
        sticky_bindings = insert s.sticky_bindings scoped (record {
          provider_index = provider_index;
          key_index = key_index;
          bound_at = now;
          last_seen_at = now;
          level = l1;
          source = key.source;
        });
      }
      | l2 ↦ bind_dynamic s scoped provider_index key_index now key.source
      | l3 ↦ bind_dynamic s scoped provider_index key_index now key.source
    ]

unfoldable pub learn_message : RoutingScope → StickyKey → ℤ → ℤ → Time → StickyState → StickyState
learn_message scope learned provider_index key_index now s = elim learned.level [
  | l3 ↦
      if is_empty learned.key
      then s
      else bind_dynamic s (sticky_scope_key scope learned.key) provider_index key_index now
          learned.source
  | _ ↦ s
]

unfoldable pub learn_response : Text → ℤ → ℤ → Time → StickyState → StickyState
learn_response response_id provider_index key_index now s =
    if is_empty response_id then s else record s {
      response_lookup = insert s.response_lookup response_id (record {
        provider_index = provider_index;
        key_index = key_index;
        last_seen_at = now;
        source = text "response_id";
      });
    }

-- `root` is the decoded request.
unfoldable pub learn_sticky_success_with_payload :
    Library
    → RoutingScope
    → RequestContext
    → StickyKey
    → Option Fields
    → Text
    → ℤ
    → ℤ
    → Time
    → StickyState
    → StickyState
learn_sticky_success_with_payload lib scope ctx key root body (negsuc n) key_index now s = s
learn_sticky_success_with_payload lib scope ctx key root body (pos i) key_index now s =
    let learned = extract_response_learning_sticky_key_from_root lib ctx root in
    let response_id = extract_response_lookup_id lib ctx body in
    learn_response response_id (pos i) key_index now (
      learn_message scope learned (pos i) key_index now
        (learn_request scope key (pos i) key_index now (prune_sticky_state s now)))
