-- ===== src/Sticky/Keys.antt =====
-- internal/proxy/sticky.go: which key a request is remembered by. The decoder, the lower case of a
-- text and the hash are Go's library. The preview of a key, which only logs show, is left out.
use clipal.Common.{
  ℕ, suc, ◌+◌, ◌-◌, leb, Bool, if◌then◌else◌, not, ◌||◌, ◌==◌, List, [], ◌∷◌, ◌++◌, Option, none,
  some, Text, text, is_empty, trim_space, equal_fold, fields, join, index, drop, length, get_elem?,
}
use clipal.Json.{
  Value, Items, Fields, nil, cons, get, as_object, string_from_any, any_slice, str, arr,
}
use clipal.Providers.{openai_responses, RoutingScope}
use clipal.Protocols.Contexts.{RequestContext, family_gemini}
use clipal.Protocols.Names.{capability_text, scope_text, client_text}

-- json.Unmarshal into a map, strings.ToLower, and sha256.Sum256 in hexadecimal.
pub record Library : Type 0 where
  pub unmarshal_object : Text → Option Fields
  pub lower : Text → Text
  pub digest : Text → Text

pub data StickyKeyLevel : Type 0 where
  no_level l1 l2 l3 : StickyKeyLevel

pub record StickyKey : Type 0 where
  pub level : StickyKeyLevel
  pub key : Text
  pub source : Text

abbrev pub no_key : StickyKey
no_key = record { level = no_level; key = []; source = [] }

unfoldable pub sticky_scope_key : RoutingScope → Text → Text
sticky_scope_key scope key = scope_text scope ++ (0 ∷ trim_space key)

-- A map that may be nil.
unfoldable pub string_field : Option Fields → Text → Text
string_field none key = []
string_field (some root) key = string_from_any (get root key)

abbrev slice_field : Option Fields → Text → Items
slice_field none key = nil
slice_field (some root) key = any_slice (get root key)

unfoldable pub decode_sticky_root : Library → Text → Option Fields
decode_sticky_root lib body = if is_empty body then none else lib.unmarshal_object body

abbrev add_text : Text → List Text → List Text
add_text [] texts = texts
add_text (c ∷ s) texts = (c ∷ s) ∷ texts

-- The texts of the objects among the items, without the empty ones.
unfoldable pub item_texts : Items → List Text
unfolding string_field
item_texts nil = []
item_texts (cons item items) =
    let rest = item_texts items in
    elim (as_object item) [
      | none ↦ rest
      | some o ↦ add_text (trim_space (string_field (some o) (text "text"))) rest
    ]

unfoldable pub content_text : Value → Text
unfolding item_texts
content_text (str s) = trim_space s
content_text (arr items) = join (item_texts items) (text " ")
content_text _ = []

is_user : Fields → Bool
is_user o = equal_fold (trim_space (string_field (some o) (text "role"))) (text "user")

messages_from : Items → List Text
messages_from nil = []
messages_from (cons raw msgs) =
    let rest = messages_from msgs in
    elim (as_object raw) [
      | none ↦ rest
      | some msg ↦
          if is_user msg then add_text (content_text (get msg (text "content"))) rest else rest
    ]

unfoldable pub extract_messages_api_human_messages : Option Fields → List Text
unfolding is_user messages_from
extract_messages_api_human_messages root = messages_from (slice_field root (text "messages"))

add_parts : List Text → List Text → List Text
add_parts [] out = out
add_parts (t ∷ texts) out = join (t ∷ texts) (text " ") ∷ out

contents_from : Items → List Text
contents_from nil = []
contents_from (cons raw contents) =
    let rest = contents_from contents in
    elim (as_object raw) [
      | none ↦ rest
      | some content ↦
          if is_user content
          then add_parts (item_texts (any_slice (get content (text "parts")))) rest
          else rest
    ]

unfoldable pub extract_gemini_human_messages : Option Fields → List Text
unfolding is_user add_parts contents_from
extract_gemini_human_messages root = contents_from (slice_field root (text "contents"))

unfoldable pub extract_human_messages : RequestContext → Option Fields → List Text
extract_human_messages ctx root = elim ctx.family [
  | family_gemini ↦ extract_gemini_human_messages root
  | _ ↦ extract_messages_api_human_messages root
]

unfoldable pub normalize_sticky_text : Library → Text → Text
normalize_sticky_text lib given =
    let s = trim_space (lib.lower given) in if is_empty s then [] else join (fields s) (text " ")

-- The first of the bytes `:` and `/`.
cut_at : Text → Text
cut_at [] = []
cut_at (c ∷ s) = let rest = cut_at s in if (c == b':') || (c == b'/') then [] else c ∷ rest

model_in_path : Text → Text
unfolding cut_at
model_in_path path = if is_empty path then [] else elim (index path (text "/models/")) [
  | none ↦ []
  | some idx ↦ trim_space (cut_at (drop (idx + 8) path))
]

unfoldable pub sticky_model_name : RequestContext → Option Fields → Text
unfolding cut_at model_in_path
sticky_model_name ctx root =
    let v = trim_space (string_field root (text "model")) in
    if not (is_empty v) then v else model_in_path (trim_space ctx.upstream_path)

unfoldable pub build_dynamic_feature_key : Library → RequestContext → Text → Text → Text
build_dynamic_feature_key lib ctx model given =
    let normalized = normalize_sticky_text lib given in
    if is_empty normalized
    then []
    else lib.digest (
        join
          (client_text ctx.client_type
            ∷ capability_text ctx.capability
            ∷ trim_space (lib.lower model)
            ∷ normalized
            ∷ [])
          (0 ∷ []))

-- The key of the message that is `back` messages before the last one.
dynamic_key : Library → RequestContext → Option Fields → ℕ → StickyKey
dynamic_key lib ctx root back =
    let human_messages = extract_human_messages ctx root in
    if leb (length human_messages) back
    then no_key
    else elim (get_elem? human_messages (length human_messages - suc back)) [
      | none ↦ no_key
      | some message ↦ record {
        level = l3;
        key = build_dynamic_feature_key lib ctx (sticky_model_name ctx root) message;
        source = text "dynamic_human_feature";
      }
    ]

explicit_key : StickyKeyLevel → Option Fields → Text → StickyKey → StickyKey
explicit_key level root name otherwise =
    let v = trim_space (string_field root name) in
    if is_empty v then otherwise else record { level = level; key = v; source = name }

unfoldable pub extract_request_sticky_key_from_root :
    Library → RequestContext → Option Fields → StickyKey
unfolding dynamic_key explicit_key
extract_request_sticky_key_from_root lib ctx root =
    let dynamic = dynamic_key lib ctx root 1 in
    elim ctx.capability [
      | openai_responses ↦
          explicit_key l1 root (text "previous_response_id")
            (explicit_key l2 root (text "prompt_cache_key") dynamic)
      | _ ↦ dynamic
    ]

unfoldable pub extract_response_learning_sticky_key_from_root :
    Library → RequestContext → Option Fields → StickyKey
unfolding dynamic_key
extract_response_learning_sticky_key_from_root lib ctx root = dynamic_key lib ctx root 0

unfoldable pub extract_response_lookup_id : Library → RequestContext → Text → Text
extract_response_lookup_id lib ctx response_body = elim ctx.capability [
  | openai_responses ↦
      if is_empty response_body
      then []
      else trim_space (string_field (decode_sticky_root lib response_body) (text "id"))
  | _ ↦ []
]
