-- ===== src/Protocols/Agreement.antt =====
-- The contexts of internal/proxy/protocols.go: client, family and capability of a request.
use clipal.Common.{◌≡◌, Bool, Option, none, some, Text, arith}
use clipal.Providers
use clipal.Providers.{
  Capability, RoutingScope, routing_scope_for_capability, scope_default, scope_claude_count_tokens,
  scope_openai_responses, scope_gemini_stream,
}
use clipal.Protocols.Paths.{normalize_upstream_path}
use clipal.Protocols.Canonical.{canonicalize_clipal_path}
use clipal.Protocols.Detect.{
  detect_claude_capability, detect_gemini_capability, detect_openai_capability,
}
use clipal.Protocols.Contexts.{
  ClientType, client_claude, client_openai, client_google, ProtocolFamily, family_claude,
  family_openai, family_gemini, RequestContext, detect_clipal_request_context,
  request_context_for_client_path, capability_or_default,
}

-- The family that speaks for a capability.
pub family_of : Capability → Option ProtocolFamily
family_of Providers.claude_compatible = some family_claude
family_of Providers.claude_messages = some family_claude
family_of Providers.claude_count_tokens = some family_claude
family_of Providers.openai_compatible = some family_openai
family_of Providers.openai_chat_completions = some family_openai
family_of Providers.openai_completions = some family_openai
family_of Providers.openai_responses = some family_openai
family_of Providers.openai_embeddings = some family_openai
family_of Providers.openai_moderations = some family_openai
family_of Providers.openai_audio = some family_openai
family_of Providers.openai_images = some family_openai
family_of Providers.openai_files = some family_openai
family_of Providers.openai_uploads = some family_openai
family_of Providers.openai_models = some family_openai
family_of Providers.openai_fine_tuning = some family_openai
family_of Providers.openai_batches = some family_openai
family_of Providers.openai_vector_stores = some family_openai
family_of Providers.openai_assistants = some family_openai
family_of Providers.openai_threads = some family_openai
family_of Providers.openai_realtime = some family_openai
family_of Providers.gemini_compatible = some family_gemini
family_of Providers.gemini_generate_content = some family_gemini
family_of Providers.gemini_stream_generate = some family_gemini
family_of Providers.gemini_count_tokens = some family_gemini
family_of Providers.gemini_embed_content = some family_gemini
family_of Providers.gemini_batch_embed_contents = some family_gemini
family_of Providers.gemini_predict = some family_gemini
family_of Providers.gemini_predict_long_running = some family_gemini
family_of Providers.gemini_models = some family_gemini
family_of Providers.gemini_files = some family_gemini
family_of Providers.gemini_upload_files = some family_gemini
family_of Providers.gemini_cached_contents = some family_gemini
family_of Providers.gemini_tuned_models = some family_gemini
family_of Providers.gemini_interactions = some family_gemini
family_of Providers.gemini_batches = some family_gemini
family_of Providers.gemini_operations = some family_gemini
family_of Providers.gemini_file_search_stores = some family_gemini
family_of Providers.gemini_generated_files = some family_gemini
family_of Providers.gemini_corpora = some family_gemini
family_of Providers.gemini_auth_tokens = some family_gemini
family_of Providers.gemini_agents = some family_gemini
family_of Providers.gemini_webhooks = some family_gemini
family_of Providers.other = none

abbrev client_of : ProtocolFamily → ClientType
client_of family_claude = client_claude
client_of family_openai = client_openai
client_of family_gemini = client_google

-- The client, the family and the capability of a context belong together.
abbrev pub IsCoherent : RequestContext → Type 0
IsCoherent ctx =
    (family_of ctx.capability ≡ some ctx.family) × (client_of ctx.family ≡ ctx.client_type)

-- A capability that was found is one of the family's.
abbrev IsOf : ProtocolFamily → Option Capability → Type 0
IsOf family none = Unit {0}
IsOf family (some capability) = family_of capability ≡ some family

IsOf-detect_claude_capability : (path : Text) → IsOf family_claude (detect_claude_capability path)
unfolding detect_claude_capability family_of
IsOf-detect_claude_capability path = ground arith

IsOf-detect_gemini_capability : (path : Text) → IsOf family_gemini (detect_gemini_capability path)
unfolding detect_gemini_capability family_of
IsOf-detect_gemini_capability path = ground arith

IsOf-detect_openai_capability : (path : Text) → IsOf family_openai (detect_openai_capability path)
unfolding detect_openai_capability family_of
IsOf-detect_openai_capability path = ground arith

-- The context that is found for a path names a client, a family and a capability that belong
-- together, and the canonical path.
abbrev pub IsContextOf : Text → Option RequestContext → Type 0
IsContextOf given none = Unit {0}
IsContextOf given (some ctx) = IsCoherent ctx × (ctx.upstream_path ≡ canonicalize_clipal_path given)

-- Where a path has a context, the client, the protocol family and the capability in it belong
-- together, and its path is the canonical one of the path given.
pub detect_clipal_request_context-IsContextOf :
    (given : Text) → IsContextOf given (detect_clipal_request_context given)
unfolding detect_clipal_request_context
detect_clipal_request_context-IsContextOf given =
    let path = canonicalize_clipal_path given in
    ground (
      arith,
      IsOf-detect_claude_capability path,
      IsOf-detect_gemini_capability path,
      IsOf-detect_openai_capability path,
    )

-- A request on the path of a client has a capability of that client's family, also where no rule
-- knows the path, and keeps the client.
pub request_context_for_client_path-IsCoherent :
    (client : ClientType) (given : Text) (unified : Bool)
    → IsCoherent (request_context_for_client_path client given unified)
      × ((request_context_for_client_path client given unified).client_type ≡ client)
unfolding request_context_for_client_path capability_or_default family_of
request_context_for_client_path-IsCoherent client_claude given unified =
    ground (arith, IsOf-detect_claude_capability (normalize_upstream_path given))
request_context_for_client_path-IsCoherent client_openai given unified =
    ground (arith, IsOf-detect_openai_capability (normalize_upstream_path given))
request_context_for_client_path-IsCoherent client_google given unified =
    ground (arith, IsOf-detect_gemini_capability (normalize_upstream_path given))
