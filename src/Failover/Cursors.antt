-- ===== src/Failover/Cursors.antt =====
-- internal/proxy/failover_state.go: the routing cursors, one for each scope and one for each scope
-- and provider's keys. The functions that read the clock take its readings as arguments.
pub mod Providers
pub mod Keys
pub mod Targets
pub mod Health
use clipal.Common.{
  ℕ, Bool, true, false, not, ◌||◌, Option, none, some, ℤ, pos, at?, set_at, rem, length, leb_ℤ,
  ltb_ℤ, ◌==◌, if◌then◌else◌,
}
use clipal.Clock.{Time}
use clipal.Providers.{Provider, Capability, RoutingScope}
use clipal.Failover.State.{
  ClientProxy, scope_index, set_scope_index, key_indices_for_scope, set_key_indices_for_scope,
}
use clipal.Failover.Availability.{
  is_key_deactivated, keys_of, available_key_count, provider_available_for_routing,
  provider_available_for_capability, count_providers,
}
use clipal.Failover.Ring.{search_ring}

-- `if i < 0 || i >= n { i = 0 }`
pub in_range_or_zero : ℤ → ℕ → ℤ
in_range_or_zero i n = if ltb_ℤ i (pos 0) || leb_ℤ (pos n) i then pos 0 else i

-- The value where the test holds, for a search.
abbrev pub when {ℓ} : {A : Type ℓ} → Bool → A → Option A
when true a = some a
when false a = none

abbrev pub or_default {ℓ} : {A : Type ℓ} → Option A → A → A
or_default none d = d
or_default (some a) d = a

abbrev usable_key : ClientProxy → ℤ → Time → ℤ → Option ℤ
usable_key cp provider_index now idx = when (not (is_key_deactivated cp provider_index idx now)) idx

pub next_active_key_index : ClientProxy → ℤ → ℤ → Time → ℤ
next_active_key_index cp provider_index from now =
    let n = length (keys_of cp provider_index) in
    let start = in_range_or_zero from n in
    if n == 0
    then pos 0
    else if is_key_deactivated cp provider_index start now
    then or_default (search_ring (usable_key cp provider_index now) start n 1 n) start
    else start

abbrev pub routable : ClientProxy → Time → ℤ → Option ℤ
routable cp now idx = when (provider_available_for_routing cp idx now) idx

pub next_active_index : ClientProxy → ℤ → Time → ℤ
next_active_index cp from now =
    let n = length cp.providers in
    if n == 0 then pos 0 else or_default (search_ring (routable cp now) from n 1 n) (rem from n)

abbrev pub servable : ClientProxy → Time → Capability → ℤ → Option ℤ
servable cp now capability idx = when (provider_available_for_capability cp idx now capability) idx

pub ensure_active_scope_index : ClientProxy → RoutingScope → Time → Capability → ClientProxy × ℤ
ensure_active_scope_index cp scope now capability =
    let n = length cp.providers in
    let idx = in_range_or_zero (scope_index cp scope) n in
    let chosen = or_default (search_ring (servable cp now capability) idx n 0 n) idx in
    (set_scope_index cp chosen scope, chosen)

-- The active count and the start index.
pub get_active_count_and_start_index_for_scope :
    ClientProxy → RoutingScope → Capability → Time → ClientProxy × ℕ × ℤ
get_active_count_and_start_index_for_scope cp scope capability now =
    let active =
      count_providers (λ i. provider_available_for_capability cp i now capability) cp.providers 0 in
    if active == 0 || length cp.providers == 0
    then (cp, active, pos 0)
    else let (cp', start_index) = ensure_active_scope_index cp scope now capability in
      (cp', active, start_index)

pub preferred_key_index_for_scope : ClientProxy → ℤ → RoutingScope → ℤ
preferred_key_index_for_scope cp provider_index scope =
    let n = length (keys_of cp provider_index) in
    if n == 0 then pos 0 else elim (at? (key_indices_for_scope cp scope) provider_index) [
      | none ↦ pos 0
      | some cur ↦ in_range_or_zero cur n
    ]

-- The scope's key cursor, put on the next active key from where it stands.
moved_key_cursor : ClientProxy → ℤ → ℤ → Time → ℤ
moved_key_cursor cp provider_index cur now =
    next_active_key_index cp provider_index
      (in_range_or_zero cur (length (keys_of cp provider_index))) now

-- The active count and the start index.
pub get_active_key_count_and_start_index_for_scope :
    ClientProxy → ℤ → RoutingScope → Time → ClientProxy × ℕ × ℤ
get_active_key_count_and_start_index_for_scope cp provider_index scope now =
    let active = available_key_count cp provider_index now in
    let cursors = key_indices_for_scope cp scope in
    if active == 0 then (cp, 0, pos 0) else elim (at? cursors provider_index) [
      | none ↦ (cp, active, pos 0)
      | some cur ↦
          let moved = moved_key_cursor cp provider_index cur now in
          (set_key_indices_for_scope cp (set_at cursors provider_index moved) scope, active, moved)
    ]

-- The body of the loop of `countTokensSingleShotTarget` at one index; `none` is its `continue`.
single_shot_at : ClientProxy → Time → ℤ → Option (ℤ × Provider × ℤ)
single_shot_at cp now index = elim (at? cp.providers index) [
  | none ↦ none
  | some provider ↦
      let n = length (keys_of cp index) in
      let cur = or_default (at? cp.current_key_index index) (pos 0) in
      let key_index = next_active_key_index cp index (in_range_or_zero cur n) now in
      if provider_available_for_routing cp index now
      then if n == 0
        then none
        else when (not (is_key_deactivated cp index key_index now)) (index, provider, key_index)
      else none
]

-- The provider's index, the provider and the key's index, without any change of the cursors.
pub count_tokens_single_shot_target : ClientProxy → Time → Option (ℤ × Provider × ℤ)
unfolding single_shot_at
count_tokens_single_shot_target cp now =
    let n = length cp.providers in
    search_ring (single_shot_at cp now) (in_range_or_zero cp.current_index n) n 0 n
