-- ===== src/Protocols/Names.antt =====
-- internal/proxy/protocols.go and internal/proxy/proxy.go: the strings that the constants stand for.
use clipal.Common.{[], Text, text}
use clipal.Providers
use clipal.Providers.{
  Capability, RoutingScope, scope_default, scope_claude_count_tokens, scope_openai_responses,
  scope_gemini_stream,
}
use clipal.Protocols.Contexts.{ClientType, client_claude, client_openai, client_google}

-- string(capability); no context has the last one.
unfoldable pub capability_text : Capability → Text
capability_text Providers.claude_compatible = text "claude_compatible"
capability_text Providers.claude_messages = text "claude_messages"
capability_text Providers.claude_count_tokens = text "claude_count_tokens"
capability_text Providers.openai_compatible = text "openai_compatible"
capability_text Providers.openai_chat_completions = text "openai_chat_completions"
capability_text Providers.openai_completions = text "openai_completions"
capability_text Providers.openai_responses = text "openai_responses"
capability_text Providers.openai_embeddings = text "openai_embeddings"
capability_text Providers.openai_moderations = text "openai_moderations"
capability_text Providers.openai_audio = text "openai_audio"
capability_text Providers.openai_images = text "openai_images"
capability_text Providers.openai_files = text "openai_files"
capability_text Providers.openai_uploads = text "openai_uploads"
capability_text Providers.openai_models = text "openai_models"
capability_text Providers.openai_fine_tuning = text "openai_fine_tuning"
capability_text Providers.openai_batches = text "openai_batches"
capability_text Providers.openai_vector_stores = text "openai_vector_stores"
capability_text Providers.openai_assistants = text "openai_assistants"
capability_text Providers.openai_threads = text "openai_threads"
capability_text Providers.openai_realtime = text "openai_realtime"
capability_text Providers.gemini_compatible = text "gemini_compatible"
capability_text Providers.gemini_generate_content = text "gemini_generate_content"
capability_text Providers.gemini_stream_generate = text "gemini_stream_generate_content"
capability_text Providers.gemini_count_tokens = text "gemini_count_tokens"
capability_text Providers.gemini_embed_content = text "gemini_embed_content"
capability_text Providers.gemini_batch_embed_contents = text "gemini_batch_embed_contents"
capability_text Providers.gemini_predict = text "gemini_predict"
capability_text Providers.gemini_predict_long_running = text "gemini_predict_long_running"
capability_text Providers.gemini_models = text "gemini_models"
capability_text Providers.gemini_files = text "gemini_files"
capability_text Providers.gemini_upload_files = text "gemini_upload_files"
capability_text Providers.gemini_cached_contents = text "gemini_cached_contents"
capability_text Providers.gemini_tuned_models = text "gemini_tuned_models"
capability_text Providers.gemini_interactions = text "gemini_interactions"
capability_text Providers.gemini_batches = text "gemini_batches"
capability_text Providers.gemini_operations = text "gemini_operations"
capability_text Providers.gemini_file_search_stores = text "gemini_file_search_stores"
capability_text Providers.gemini_generated_files = text "gemini_generated_files"
capability_text Providers.gemini_corpora = text "gemini_corpora"
capability_text Providers.gemini_auth_tokens = text "gemini_auth_tokens"
capability_text Providers.gemini_agents = text "gemini_agents"
capability_text Providers.gemini_webhooks = text "gemini_webhooks"
capability_text Providers.other = []

unfoldable pub scope_text : RoutingScope → Text
scope_text scope_default = text "default"
scope_text scope_claude_count_tokens = text "claude_count_tokens"
scope_text scope_openai_responses = text "openai_responses"
scope_text scope_gemini_stream = text "gemini_stream_generate_content"

unfoldable pub client_text : ClientType → Text
client_text client_claude = text "claude"
client_text client_openai = text "openai"
client_text client_google = text "google"
