-- ===== src/Failover/Availability.antt =====
-- internal/proxy/failover_state.go: which keys and providers may be used at a time `now`. The code
-- indexes `cp.deactivated` by a provider's index and relies on one entry for each provider; where
-- there is none, at which Go panics, the model reads an empty entry.
pub mod Counting
pub mod Routing
pub mod Health
use clipal.Common.{
  ℕ, suc, Bool, true, false, not, ◌&&◌, List, [], ◌∷◌, Option, none, some, ℤ, pos, at?, Text, ltb_ℤ,
  ◌==◌, if◌then◌else◌,
}
use clipal.Clock.{Time}
use clipal.CircuitBreaker.{CircuitBreaker, peek_allow}
use clipal.Providers.{Provider, Capability, provider_supports_capability}
use clipal.Failover.State.{ProviderDeactivation, ClientProxy, no_deactivation, is_running}

unfoldable pub deactivation_at : ClientProxy → ℤ → ProviderDeactivation
deactivation_at cp index = elim (at? cp.deactivated index) [ none ↦ no_deactivation | some d ↦ d ]

unfoldable pub is_deactivated : ClientProxy → ℤ → Time → Bool
is_deactivated cp index now = elim (at? cp.deactivated index) [
  | none ↦ false
  | some d ↦ is_running d now
]

-- `cp.keyDeactivated[providerIndex][keyIndex]`, `none` where an index is out of range.
unfoldable pub key_deactivation_at? : ClientProxy → ℤ → ℤ → Option ProviderDeactivation
key_deactivation_at? cp provider_index key_index = elim (at? cp.key_deactivated provider_index) [
  | none ↦ none
  | some ds ↦ at? ds key_index
]

unfoldable pub is_key_deactivated : ClientProxy → ℤ → ℤ → Time → Bool
unfolding key_deactivation_at?
is_key_deactivated cp provider_index key_index now =
    elim (key_deactivation_at? cp provider_index key_index) [
      | none ↦ false
      | some d ↦ is_running d now
    ]

-- The loop over the keys from index `k` on.
unfoldable pub count_available_keys : ClientProxy → ℤ → Time → List Text → ℕ → ℕ
count_available_keys cp provider_index now [] k = 0
count_available_keys cp provider_index now (key ∷ keys) k =
    let rest = count_available_keys cp provider_index now keys (suc k) in
    if is_key_deactivated cp provider_index (pos k) now then rest else suc rest

-- `cp.providerKeys[providerIndex]`, empty where the index is out of range.
unfoldable pub keys_of : ClientProxy → ℤ → List Text
keys_of cp provider_index = elim (at? cp.provider_keys provider_index) [
  | none ↦ []
  | some keys ↦ keys
]

unfoldable pub available_key_count : ClientProxy → ℤ → Time → ℕ
unfolding keys_of count_available_keys
available_key_count cp provider_index now =
    count_available_keys cp provider_index now (keys_of cp provider_index) 0

-- The breaker's part of `providerAvailableForRoutingLocked`; a nil breaker lets everything through.
unfoldable pub circuit_admits : Option (Option CircuitBreaker) → Time → Bool
circuit_admits none now = true
circuit_admits (some none) now = true
circuit_admits (some (some cb)) now =
    let answer = peek_allow cb now in not (not answer.allowed && ltb_ℤ (pos 0) answer.wait)

unfoldable pub provider_available_for_routing : ClientProxy → ℤ → Time → Bool
provider_available_for_routing cp provider_index now = elim (at? cp.providers provider_index) [
  | none ↦ false
  | some provider ↦
      if is_running (deactivation_at cp provider_index) now
      then false
      else if available_key_count cp provider_index now == 0
      then false
      else circuit_admits (at? cp.breakers provider_index) now
]

unfoldable pub provider_available_for_capability : ClientProxy → ℤ → Time → Capability → Bool
provider_available_for_capability cp provider_index now capability =
    elim (at? cp.providers provider_index) [
      | none ↦ false
      | some provider ↦
          if provider_supports_capability provider capability
          then provider_available_for_routing cp provider_index now
          else false
    ]

-- The loops that count providers, from index `i` on.
pub count_providers : (ℤ → Bool) → List Provider → ℕ → ℕ
count_providers available [] i = 0
count_providers available (p ∷ ps) i =
    let rest = count_providers available ps (suc i) in if available (pos i) then suc rest else rest

pub active_provider_count : ClientProxy → Time → ℕ
unfolding count_providers
active_provider_count cp now =
    count_providers (λ i. provider_available_for_routing cp i now) cp.providers 0
