-- ===== src/Providers.antt =====
-- internal/config/config.go: the parts of a provider's configuration that routing reads, and
-- internal/proxy/oauth_codex.go: which requests a provider can serve. internal/proxy/protocols.go:
-- the capabilities of requests and the routing scope of each. `other` is any further string.
use clipal.Common.{
  Bool, true, false, if◌then◌else◌, Text, text, eq_text, is_empty, to_lower, trim_space,
}

pub data Capability : Type 0 where
  claude_compatible claude_messages claude_count_tokens : Capability
  openai_compatible openai_chat_completions openai_completions openai_responses : Capability
  openai_embeddings openai_moderations openai_audio openai_images openai_files : Capability
  openai_uploads openai_models openai_fine_tuning openai_batches openai_vector_stores : Capability
  openai_assistants openai_threads openai_realtime : Capability
  gemini_compatible gemini_generate_content gemini_stream_generate gemini_count_tokens : Capability
  gemini_embed_content gemini_batch_embed_contents gemini_predict : Capability
  gemini_predict_long_running gemini_models gemini_files gemini_upload_files : Capability
  gemini_cached_contents gemini_tuned_models gemini_interactions gemini_batches : Capability
  gemini_operations gemini_file_search_stores gemini_generated_files gemini_corpora : Capability
  gemini_auth_tokens gemini_agents gemini_webhooks : Capability
  other : Capability

pub data RoutingScope : Type 0 where
  scope_default scope_claude_count_tokens scope_openai_responses scope_gemini_stream : RoutingScope

pub routing_scope_for_capability : Capability → RoutingScope
routing_scope_for_capability claude_count_tokens = scope_claude_count_tokens
routing_scope_for_capability openai_responses = scope_openai_responses
routing_scope_for_capability gemini_stream_generate = scope_gemini_stream
routing_scope_for_capability _ = scope_default

pub record Provider : Type 0 where
  pub name : Text
  pub auth_type : Text
  pub oauth_provider : Text
  pub oauth_ref : Text
  pub base_url : Text

unfoldable pub normalized_auth_type : Provider → Text
normalized_auth_type p =
    let auth_type = to_lower (trim_space p.auth_type) in
    if is_empty auth_type then text "api_key" else auth_type

unfoldable pub normalized_oauth_provider : Provider → Text
normalized_oauth_provider p = to_lower (trim_space p.oauth_provider)

pub uses_oauth : Provider → Bool
unfolding normalized_auth_type
uses_oauth p = eq_text (normalized_auth_type p) (text "oauth")

codex_supports : Capability → Bool
codex_supports openai_responses = true
codex_supports openai_models = true
codex_supports _ = false

claude_supports : Capability → Bool
claude_supports claude_messages = true
claude_supports claude_count_tokens = true
claude_supports _ = false

antigravity_supports : Capability → Bool
antigravity_supports gemini_generate_content = true
antigravity_supports gemini_stream_generate = true
antigravity_supports gemini_count_tokens = true
antigravity_supports gemini_models = true
antigravity_supports _ = false

pub provider_supports_capability : Provider → Capability → Bool
unfolding uses_oauth normalized_oauth_provider codex_supports claude_supports antigravity_supports
provider_supports_capability provider capability =
    let kind = normalized_oauth_provider provider in
    if uses_oauth provider
    then if eq_text kind (text "codex")
      then codex_supports capability
      else if eq_text kind (text "claude")
      then claude_supports capability
      else if eq_text kind (text "antigravity")
      then antigravity_supports capability
      else false
    else true
