-- ===== src/Failover/Quarantine.antt =====
-- internal/proxy/failover_state.go: providers and keys are quarantined after a failure and come back
-- when their time is over. Log lines are left out. A function that calls `time.Now()` several times
-- takes the readings as arguments, in the order of the calls.
pub mod Sweep
pub mod Providers
pub mod Keys
pub mod Breakers
use clipal.Common.{
  ℕ, none, some, ℤ, pos, at?, set_at, length, map, leb_ℤ, eqb_ℤ, ◌==◌, if◌then◌else◌, Text,
}
use clipal.Clock.{Time, Duration, is_zero, before, add}
use clipal.Providers.{
  RoutingScope, scope_default, scope_claude_count_tokens, scope_openai_responses,
  scope_gemini_stream,
}
use clipal.Failover.State.{
  Reason, ProviderDeactivation, ClientMode, mode_auto, mode_manual, ClientProxy, no_deactivation,
  is_running, scope_index, set_scope_index, key_indices_for_scope, set_key_indices_for_scope,
}
use clipal.Failover.Availability.{key_deactivation_at?}
use clipal.Failover.Cursors.{next_active_index, next_active_key_index}

-- The body of the loops of `reactivateExpired`.
pub clear_expired : Time → ProviderDeactivation → ProviderDeactivation
clear_expired now d =
    if is_zero d.until then d else if before now d.until then d else no_deactivation

pub reactivate_expired : ClientProxy → Time → ClientProxy
unfolding clear_expired
reactivate_expired cp now =
    if length cp.deactivated == length cp.providers
    then record cp {
      deactivated = map (clear_expired now) cp.deactivated;
      key_deactivated = map (map (clear_expired now)) cp.key_deactivated;
    }
    else cp

advance_scope_index : ClientProxy → ℤ → RoutingScope → Time → ClientProxy
advance_scope_index cp index scope now =
    if eqb_ℤ (scope_index cp scope) index
    then set_scope_index cp (next_active_index cp index now) scope
    else cp

-- The cursors that stand on the index move on; `clock` is the reading for each scope.
pub advance_scope_indices : ClientProxy → ℤ → (RoutingScope → Time) → ClientProxy
unfolding advance_scope_index
advance_scope_indices cp index clock =
    let cp1 = advance_scope_index cp index scope_default (clock scope_default) in
    let cp2 =
      advance_scope_index cp1 index scope_claude_count_tokens (clock scope_claude_count_tokens) in
    let cp3 = advance_scope_index cp2 index scope_openai_responses (clock scope_openai_responses) in
    advance_scope_index cp3 index scope_gemini_stream (clock scope_gemini_stream)

pub record Failure : Type 0 where
  pub reason : Reason
  pub status : ℕ
  pub message : Text

pub quarantine : Failure → Time → Duration → ProviderDeactivation
quarantine f now d = record {
  at = now;
  until = add now d;
  reason = f.reason;
  status = f.status;
  message = f.message;
}

abbrev unless_manual : ClientMode → ClientProxy → ClientProxy → ClientProxy
unless_manual mode_manual a b = a
unless_manual mode_auto a b = b

pub deactivate_for :
    ClientProxy → ℤ → Failure → Duration → Time → Time → (RoutingScope → Time) → ClientProxy
unfolding quarantine
deactivate_for cp index failure d checked now clock =
    if leb_ℤ d (pos 0) then cp else elim (at? cp.deactivated index) [
      | none ↦ cp
      | some old ↦
          let out = record cp {
            deactivated = set_at cp.deactivated index (quarantine failure now d);
          } in
          if is_running old checked
          then cp
          else unless_manual cp.mode out (advance_scope_indices out index clock)
    ]

advance_key_index : ClientProxy → ℤ → ℤ → Time → RoutingScope → ClientProxy
advance_key_index cp provider_index key_index now scope =
    let cur = key_indices_for_scope cp scope in
    elim (at? cur provider_index) [
      | none ↦ cp
      | some k ↦
          let next = next_active_key_index cp provider_index key_index now in
          if eqb_ℤ k key_index
          then set_key_indices_for_scope cp (set_at cur provider_index next) scope
          else cp
    ]

-- `cp.keyDeactivated[providerIndex][keyIndex] = d`
set_key_deactivation : ClientProxy → ℤ → ℤ → ProviderDeactivation → ClientProxy
set_key_deactivation cp provider_index key_index d = elim (at? cp.key_deactivated provider_index) [
  | none ↦ cp
  | some ds ↦ record cp {
    key_deactivated = set_at cp.key_deactivated provider_index (set_at ds key_index d);
  }
]

advance_key_indices : ClientProxy → ℤ → ℤ → Time → ClientProxy
unfolding advance_key_index
advance_key_indices cp provider_index key_index now =
    let cp1 = advance_key_index cp provider_index key_index now scope_default in
    let cp2 = advance_key_index cp1 provider_index key_index now scope_claude_count_tokens in
    let cp3 = advance_key_index cp2 provider_index key_index now scope_openai_responses in
    advance_key_index cp3 provider_index key_index now scope_gemini_stream

pub deactivate_key_for : ClientProxy → ℤ → ℤ → Failure → Duration → Time → ClientProxy
unfolding quarantine
deactivate_key_for cp provider_index key_index failure d now =
    if leb_ℤ d (pos 0) then cp else elim (key_deactivation_at? cp provider_index key_index) [
      | none ↦ cp
      | some old ↦
          if is_running old now
          then cp
          else advance_key_indices
              (set_key_deactivation cp provider_index key_index (quarantine failure now d))
              provider_index key_index now
    ]

pub deactivation_until : ClientProxy → ℤ → Time
deactivation_until cp index = elim (at? cp.deactivated index) [ none ↦ 0 | some d ↦ d.until ]
