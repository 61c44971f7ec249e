-- ===== src/Sticky/Tests.antt =====
-- A client that continues a response, and a proxy that keeps one feature.
use clipal.Common.{
  ℕ, ◌≡◌, refl, true, List, [], ◌∷◌, Option, some, pos, Text, text, trim_space, eq_text, arith,
  equal_fold, join, fields, index,
}
use clipal.Clock.{seconds}
use clipal.Common.Maps.{delete}
use clipal.Json.{get, Fields, field, no_fields, str, arr, cons, nil, obj}
use clipal.Providers.{openai_responses, scope_openai_responses}
use clipal.Protocols.Contexts.{RequestContext, client_openai, family_openai}
use clipal.Protocols.Names.{client_text, capability_text, scope_text}
use clipal.Sticky.Keys.{
  Library, StickyKey, l1, l3, extract_request_sticky_key_from_root, string_field,
  extract_response_learning_sticky_key_from_root, extract_human_messages, sticky_model_name,
  extract_messages_api_human_messages, content_text, item_texts, build_dynamic_feature_key,
  normalize_sticky_text, extract_gemini_human_messages, sticky_scope_key,
  extract_response_lookup_id, decode_sticky_root,
}
use clipal.Sticky.State.{
  StickyState, resolve_sticky_provider, learn_sticky_success_with_payload, is_stale,
  sort_candidates, evict, candidates_of, place, comes_first, lt_text, delete_first,
  StickyLookupEntry,
}
use clipal.Sticky.Eviction.{IsWithin}
use clipal.Sticky.Expiry.{
  resolves, learns, run_sticky, run_sticky-IsWithin, StickyEvent,
  resolve_sticky_provider-learn_sticky_success_with_payload,
}

abbrev library : Library
library = record {
  unmarshal_object = λ body. some (field (text "id") (str (text "resp_2")) no_fields);
  lower = λ s. s;
  digest = λ s. s;
}

abbrev context : RequestContext
context = record {
  client_type = client_openai;
  family = family_openai;
  capability = openai_responses;
  upstream_path = text "/v1/responses";
  unified_ingress = true;
}

abbrev entry_seen : ℕ → StickyLookupEntry
entry_seen at = record { provider_index = pos 0; key_index = pos 0; last_seen_at = at; source = [] }

-- {"messages": [{"role": "user", "content": "hello"}]}
abbrev request : Option Fields
request = some (
    field (text "model") (str (text "m")) (
      field (text "messages")
        (arr (
          cons
            (obj (
              field (text "role") (str (text "user"))
                (field (text "content") (str (text "hello")) no_fields)))
            nil))
        no_fields))

abbrev fresh : StickyState
fresh = record {
  sticky_bindings = [];
  response_lookup = [];
  dynamic_feature_bindings = [];
  routing = record {
    explicit_ttl = seconds 1800;
    cache_hint_ttl = seconds 600;
    dynamic_feature_ttl = seconds 600;
    response_lookup_ttl = seconds 900;
    dynamic_feature_capacity = pos 1;
  };
}

abbrev previous : StickyKey
previous = record { level = l1; key = text "resp_1"; source = text "previous_response_id" }

abbrev feature : Text → StickyKey
feature key = record { level = l3; key = key; source = text "dynamic_human_feature" }

abbrev events : List StickyEvent
events =
    learns scope_openai_responses context (feature (text "a")) request (text "{}") (pos 0) (pos 0) 5
    ∷ learns scope_openai_responses context (feature (text "b")) request (text "{}") (pos 1) (pos 0)
        6
    ∷ resolves scope_openai_responses (feature (text "b")) 7
    ∷ []

run_sticky-IsWithin_example : IsWithin (run_sticky library events fresh)
run_sticky-IsWithin_example = run_sticky-IsWithin library events fresh (omega arith)

resolve_sticky_provider-learn_sticky_success_with_payload_example :
    (resolve_sticky_provider
      (learn_sticky_success_with_payload library scope_openai_responses context previous request
        (text "{}")
        (pos 2)
        (pos 1)
        5
        fresh)
      scope_openai_responses
      previous
      900).0
    ≡ some (pos 2, pos 1)
unfolding is_stale trim_space
resolve_sticky_provider-learn_sticky_success_with_payload_example =
    resolve_sticky_provider-learn_sticky_success_with_payload library scope_openai_responses context
      (text "resp_1") (text "previous_response_id") request (text "{}") 2 (pos 1) 5 900 fresh refl
      refl

key_of_explicit :
    extract_request_sticky_key_from_root library context
      (some (field (text "previous_response_id") (str (text " resp_1 ")) no_fields))
    ≡ previous
unfolding extract_request_sticky_key_from_root string_field get eq_text trim_space
key_of_explicit = refl

-- The hash of this library is the text itself.
key_of_message :
    extract_response_learning_sticky_key_from_root library context request
    ≡ feature (text "openai\0openai_responses\0m\0hello")
unfolding extract_response_learning_sticky_key_from_root extract_human_messages
    extract_messages_api_human_messages content_text item_texts string_field get eq_text trim_space
    equal_fold sticky_model_name build_dynamic_feature_key normalize_sticky_text join fields
    client_text capability_text index
key_of_message = refl

id_of_response :
    sticky_scope_key scope_openai_responses (extract_response_lookup_id library context (text "{}"))
    ≡ text "openai_responses\0resp_2"
unfolding sticky_scope_key scope_text extract_response_lookup_id decode_sticky_root string_field get
    eq_text trim_space
id_of_response = refl

gemini_texts : extract_gemini_human_messages (some no_fields) ≡ []
unfolding extract_gemini_human_messages get
gemini_texts = refl

older_goes :
    evict (pos 1) ((text "b", entry_seen 7) ∷ (text "a", entry_seen 5) ∷ [])
    ≡ (text "b", entry_seen 7) ∷ []
unfolding sort_candidates candidates_of place comes_first lt_text delete_first delete eq_text
older_goes = refl
