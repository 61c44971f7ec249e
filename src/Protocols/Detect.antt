-- ===== src/Protocols/Detect.antt =====
-- internal/proxy/protocols.go: the capability that a versioned path stands for. `none` is Go's "".
use clipal.Common.{
  Bool, true, false, ◌&&◌, ◌||◌, not, if◌then◌else◌, ◌++◌, Option, none, some, Text, text, eq_text,
  has_prefix, has_suffix, contains, trim_prefix, trim_space, is_empty, index, take_text,
}
use clipal.Providers
use clipal.Providers.{Capability}
use clipal.Protocols.Paths.{
  path_matches_prefix, matches_exact_path, normalize_upstream_path,
  is_gemini_method_path_with_prefix,
}

unfoldable pub is_claude_count_tokens_path : Text → Bool
is_claude_count_tokens_path path =
    eq_text path (text "/v1/messages/count_tokens")
    || eq_text path (text "/v1/messages/count_tokens/")

unfoldable pub detect_claude_capability : Text → Option Capability
detect_claude_capability path =
    if is_claude_count_tokens_path path
    then some Providers.claude_count_tokens
    else if matches_exact_path path (text "/v1/messages")
    then some Providers.claude_messages
    else none

unfoldable pub is_vertex_project_path : Text → Bool
is_vertex_project_path path =
    has_prefix path (text "/v1/projects/") || has_prefix path (text "/v1beta/projects/")

unfoldable pub is_vertex_gemini_method_path : Text → Text → Bool
is_vertex_gemini_method_path given method =
    let path = normalize_upstream_path given in
    if not (is_vertex_project_path path)
    then false
    else if not (contains path (text "/publishers/google/models/"))
    then false
    else has_suffix path method || has_suffix path (method ++ text "/")

unfoldable pub is_vertex_gemini_models_path : Text → Bool
is_vertex_gemini_models_path given =
    let path = normalize_upstream_path given in
    if not (is_vertex_project_path path)
    then false
    else contains path (text "/publishers/google/models")

unfoldable pub is_vertex_gemini_operations_path : Text → Bool
is_vertex_gemini_operations_path given =
    let path = normalize_upstream_path given in
    if not (is_vertex_project_path path)
    then false
    else if not (contains path (text "/locations/"))
    then false
    else contains path (text "/operations/")
      || (has_suffix path (text "/operations") || contains path (text "/operations:"))

unfoldable pub is_gemini_method_path : Text → Text → Bool
is_gemini_method_path path method =
    is_gemini_method_path_with_prefix path (text "/v1beta/models/") method
    || (is_gemini_method_path_with_prefix path (text "/v1/models/") method
        || is_vertex_gemini_method_path path method)

unfoldable pub is_gemini_v1_model_metadata_path : Text → Bool
is_gemini_v1_model_metadata_path path =
    if not (path_matches_prefix path (text "/v1/models"))
      || matches_exact_path path (text "/v1/models")
    then false
    else let trimmed = trim_prefix path (text "/v1/models/") in
      if is_empty trimmed
      then false
      else let model_id : Text = elim (index trimmed (text "/")) [
        | some idx ↦ take_text idx trimmed
        | none ↦ trimmed
      ] in
        has_prefix (trim_space model_id) (text "gemini")

unfoldable pub is_gemini_models_path : Text → Bool
is_gemini_models_path path =
    path_matches_prefix path (text "/v1beta/models")
    || (is_gemini_v1_model_metadata_path path || is_vertex_gemini_models_path path)

unfoldable pub is_gemini_versioned_resource_path : Text → Text → Bool
is_gemini_versioned_resource_path path resource =
    path_matches_prefix path resource || has_prefix path (resource ++ text ":")

unfoldable pub is_gemini_files_path : Text → Bool
is_gemini_files_path path = is_gemini_versioned_resource_path path (text "/v1beta/files")

unfoldable pub is_gemini_upload_files_path : Text → Bool
is_gemini_upload_files_path path =
    path_matches_prefix path (text "/upload/v1beta/files")
    || path_matches_prefix path (text "/upload/v1/files")

unfoldable pub is_gemini_cached_contents_path : Text → Bool
is_gemini_cached_contents_path path =
    path_matches_prefix path (text "/v1beta/cachedContents")
    || path_matches_prefix path (text "/v1/cachedContents")

unfoldable pub is_gemini_tuned_models_path : Text → Bool
is_gemini_tuned_models_path path =
    path_matches_prefix path (text "/v1beta/tunedModels")
    || path_matches_prefix path (text "/v1/tunedModels")

unfoldable pub is_gemini_interactions_path : Text → Bool
is_gemini_interactions_path path =
    path_matches_prefix path (text "/v1beta/interactions")
    || path_matches_prefix path (text "/v1/interactions")

unfoldable pub is_gemini_batches_path : Text → Bool
is_gemini_batches_path path = is_gemini_versioned_resource_path path (text "/v1beta/batches")

unfoldable pub is_gemini_operations_path : Text → Bool
is_gemini_operations_path given =
    let path = normalize_upstream_path given in
    path_matches_prefix path (text "/v1beta/operations")
    || (path_matches_prefix path (text "/v1/operations")
        || ((has_prefix path (text "/v1beta/models/") && contains path (text "/operations/"))
            || ((has_prefix path (text "/v1/models/") && contains path (text "/operations/"))
                || is_vertex_gemini_operations_path path)))

-- A resource that both versions have.
abbrev is_in_both_versions : Text → Text → Bool
is_in_both_versions path resource =
    is_gemini_versioned_resource_path path (text "/v1beta" ++ resource)
    || is_gemini_versioned_resource_path path (text "/v1" ++ resource)

unfoldable pub is_gemini_file_search_stores_path : Text → Bool
is_gemini_file_search_stores_path path = is_in_both_versions path (text "/fileSearchStores")

unfoldable pub is_gemini_generated_files_path : Text → Bool
is_gemini_generated_files_path path = is_in_both_versions path (text "/generatedFiles")

unfoldable pub is_gemini_corpora_path : Text → Bool
is_gemini_corpora_path path = is_in_both_versions path (text "/corpora")

unfoldable pub is_gemini_auth_tokens_path : Text → Bool
is_gemini_auth_tokens_path path = is_in_both_versions path (text "/authTokens")

unfoldable pub is_gemini_agents_path : Text → Bool
is_gemini_agents_path path = is_in_both_versions path (text "/agents")

unfoldable pub is_gemini_webhooks_path : Text → Bool
is_gemini_webhooks_path path = is_in_both_versions path (text "/webhooks")

unfoldable pub detect_gemini_capability : Text → Option Capability
detect_gemini_capability path =
    if is_gemini_method_path path (text ":generateContent")
    then some Providers.gemini_generate_content
    else if is_gemini_method_path path (text ":streamGenerateContent")
    then some Providers.gemini_stream_generate
    else if is_gemini_method_path path (text ":countTokens")
    then some Providers.gemini_count_tokens
    else if is_gemini_method_path path (text ":embedContent")
    then some Providers.gemini_embed_content
    else if is_gemini_method_path path (text ":batchEmbedContents")
    then some Providers.gemini_batch_embed_contents
    else if is_gemini_method_path path (text ":predict")
    then some Providers.gemini_predict
    else if is_gemini_method_path path (text ":predictLongRunning")
    then some Providers.gemini_predict_long_running
    else if is_gemini_models_path path
    then some Providers.gemini_models
    else if is_gemini_files_path path
    then some Providers.gemini_files
    else if is_gemini_upload_files_path path
    then some Providers.gemini_upload_files
    else if is_gemini_cached_contents_path path
    then some Providers.gemini_cached_contents
    else if is_gemini_tuned_models_path path
    then some Providers.gemini_tuned_models
    else if is_gemini_interactions_path path
    then some Providers.gemini_interactions
    else if is_gemini_batches_path path
    then some Providers.gemini_batches
    else if is_gemini_operations_path path
    then some Providers.gemini_operations
    else if is_gemini_file_search_stores_path path
    then some Providers.gemini_file_search_stores
    else if is_gemini_generated_files_path path
    then some Providers.gemini_generated_files
    else if is_gemini_corpora_path path
    then some Providers.gemini_corpora
    else if is_gemini_auth_tokens_path path
    then some Providers.gemini_auth_tokens
    else if is_gemini_agents_path path
    then some Providers.gemini_agents
    else if is_gemini_webhooks_path path
    then some Providers.gemini_webhooks
    else none

-- isGeminiCompatiblePath(path)
unfoldable pub is_gemini_compatible_path : Text → Bool
is_gemini_compatible_path path = elim (detect_gemini_capability path) [
  | none ↦ false
  | some c ↦ true
]

unfoldable pub detect_openai_capability : Text → Option Capability
detect_openai_capability path =
    if matches_exact_path path (text "/v1/chat/completions")
    then some Providers.openai_chat_completions
    else if matches_exact_path path (text "/v1/completions")
    then some Providers.openai_completions
    else if path_matches_prefix path (text "/v1/responses")
    then some Providers.openai_responses
    else if matches_exact_path path (text "/v1/embeddings")
    then some Providers.openai_embeddings
    else if matches_exact_path path (text "/v1/moderations")
    then some Providers.openai_moderations
    else if path_matches_prefix path (text "/v1/audio")
    then some Providers.openai_audio
    else if path_matches_prefix path (text "/v1/images")
    then some Providers.openai_images
    else if path_matches_prefix path (text "/v1/files")
    then some Providers.openai_files
    else if path_matches_prefix path (text "/v1/uploads")
    then some Providers.openai_uploads
    else if path_matches_prefix path (text "/v1/models")
    then if not (is_gemini_compatible_path path) then some Providers.openai_models else none
    else if path_matches_prefix path (text "/v1/fine_tuning")
    then some Providers.openai_fine_tuning
    else if path_matches_prefix path (text "/v1/batches")
    then some Providers.openai_batches
    else if path_matches_prefix path (text "/v1/vector_stores")
    then some Providers.openai_vector_stores
    else if path_matches_prefix path (text "/v1/assistants")
    then some Providers.openai_assistants
    else if path_matches_prefix path (text "/v1/threads")
    then some Providers.openai_threads
    else if path_matches_prefix path (text "/v1/realtime")
    then some Providers.openai_realtime
    else none
