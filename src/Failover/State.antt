-- ===== src/Failover/State.antt =====
-- internal/proxy/failover_state.go and the `ClientProxy` of internal/proxy/proxy.go: the state that
-- failover keeps for each provider and for each of its keys. HTTP clients, telemetry and the OAuth
-- service are left out; the sticky maps stand in Sticky.antt.
use clipal.Common.{ℕ, Bool, not, ◌&&◌, List, [], Option, ℤ, Text, set_at}
use clipal.Clock.{Time, Duration, zero_time, is_zero, before}
use clipal.CircuitBreaker.{CircuitBreaker}
use clipal.Providers.{
  Provider, RoutingScope, scope_default, scope_claude_count_tokens, scope_openai_responses,
  scope_gemini_stream,
}

-- The strings that the package uses as reasons; `no_reason` is the empty one.
pub data Reason : Type 0 where
  no_reason auth billing quota rate_limit overloaded busy server network idle_timeout : Reason
  protocol_incomplete circuit_is_open circuit_is_busy : Reason

pub record ProviderDeactivation : Type 0 where
  pub at : Time
  pub until : Time
  pub reason : Reason
  pub status : ℕ
  pub message : Text

abbrev pub no_deactivation : ProviderDeactivation
no_deactivation = record {
  at = zero_time;
  until = zero_time;
  reason = no_reason;
  status = 0;
  message = [];
}

pub record ProviderBusyState : Type 0 where
  pub until : Time
  pub backoff_step : ℕ
  pub reason : Reason
  pub probe_in_flight : ℕ

abbrev pub not_busy : ProviderBusyState
not_busy = record { until = zero_time; backoff_step = 0; reason = no_reason; probe_in_flight = 0 }

pub data ClientMode : Type 0 where
  mode_auto mode_manual : ClientMode

pub record BusySettings : Type 0 where
  pub busy_retry_delays : List Duration
  pub busy_probe_max_in_flight : ℤ
  pub max_inline_wait : Duration

pub record ClientProxy : Type 0 where
  pub mode : ClientMode
  pub providers : List Provider
  pub provider_keys : List (List Text)
  pub current_index : ℤ
  pub count_tokens_index : ℤ
  pub responses_index : ℤ
  pub gemini_stream_index : ℤ
  pub current_key_index : List ℤ
  pub count_tokens_key_index : List ℤ
  pub responses_key_index : List ℤ
  pub gemini_stream_key_index : List ℤ
  pub deactivated : List ProviderDeactivation
  pub key_deactivated : List (List ProviderDeactivation)
  pub provider_busy : List ProviderBusyState
  pub reactivate_after : Duration
  pub routing : BusySettings
  pub breakers : List (Option CircuitBreaker)

-- `!d.until.IsZero() && now.Before(d.until)`
abbrev pub is_running : ProviderDeactivation → Time → Bool
is_running d now = not (is_zero d.until) && before now d.until

unfoldable pub scope_index : ClientProxy → RoutingScope → ℤ
scope_index cp scope_claude_count_tokens = cp.count_tokens_index
scope_index cp scope_openai_responses = cp.responses_index
scope_index cp scope_gemini_stream = cp.gemini_stream_index
scope_index cp scope_default = cp.current_index

unfoldable pub set_scope_index : ClientProxy → ℤ → RoutingScope → ClientProxy
set_scope_index cp index scope_claude_count_tokens = record cp { count_tokens_index = index }
set_scope_index cp index scope_openai_responses = record cp { responses_index = index }
set_scope_index cp index scope_gemini_stream = record cp { gemini_stream_index = index }
set_scope_index cp index scope_default = record cp { current_index = index }

unfoldable pub key_indices_for_scope : ClientProxy → RoutingScope → List ℤ
key_indices_for_scope cp scope_claude_count_tokens = cp.count_tokens_key_index
key_indices_for_scope cp scope_openai_responses = cp.responses_key_index
key_indices_for_scope cp scope_gemini_stream = cp.gemini_stream_key_index
key_indices_for_scope cp scope_default = cp.current_key_index

-- The slice of a scope is shared with the proxy, so a write to it is a write to the proxy.
unfoldable pub set_key_indices_for_scope : ClientProxy → List ℤ → RoutingScope → ClientProxy
set_key_indices_for_scope cp cur scope_claude_count_tokens = record cp {
  count_tokens_key_index = cur;
}
set_key_indices_for_scope cp cur scope_openai_responses = record cp { responses_key_index = cur }
set_key_indices_for_scope cp cur scope_gemini_stream = record cp { gemini_stream_key_index = cur }
set_key_indices_for_scope cp cur scope_default = record cp { current_key_index = cur }

unfoldable pub set_current_key_index_for_scope : ClientProxy → ℤ → ℤ → RoutingScope → ClientProxy
unfolding key_indices_for_scope set_key_indices_for_scope
set_current_key_index_for_scope cp provider_index key_index scope =
    let cur = key_indices_for_scope cp scope in
    set_key_indices_for_scope cp (set_at cur provider_index key_index) scope
