-- ===== src/Failover/Forward/Loop.antt =====
-- internal/proxy/failover_forward.go: `forwardWithFailover`, in automatic mode.
use clipal.Common.{
  ℕ, zero, suc, ◌+◌, ◌%◌, ◌==◌, Bool, true, false, not, ◌&&◌, ◌||◌, none, some, ℤ, pos, negsuc,
  length, at?, ltb, ltb_ℤ, if◌then◌else◌,
}
use clipal.Providers.{Capability, RoutingScope, provider_supports_capability}
use clipal.Failover.State.{ClientProxy}
use clipal.Failover.Availability.{is_deactivated, available_key_count}
use clipal.Failover.Cursors.{get_active_key_count_and_start_index_for_scope}
use clipal.Failover.Busy.{provider_busy_wait, acquire_provider_busy_probe}
use clipal.Failover.Permits.{allow_circuit}
use clipal.Failover.Forward.{World, Run, move_on, with_release}
use clipal.Failover.Forward.Turns.{KeysEnd, returns, key_exhausted, Place, now_at}
use clipal.Failover.Forward.Keys.{attempt_keys}

-- What the loop knows of the request.
pub record Request : Type 0 where
  pub scope : RoutingScope
  pub capability : Capability

-- How a turn of the loop ends: `continue` without and with `attempted++`, or `return`.
pub data Visit : Type 0 where
  passes attempts stops : Visit

supports : ClientProxy → ℕ → Capability → Bool
supports cp index capability = elim (at? cp.providers (pos index)) [
  | none ↦ false
  | some p ↦ provider_supports_capability p capability
]

-- `cp` may be used by the loop: the breaker is asked afterwards.
pub usable : World → Request → ℕ → Run → Bool
unfolding supports
usable world request index r =
    supports r.cp index request.capability
    && (not (is_deactivated r.cp (pos index) (now_at world r 0))
        && ltb 0 (available_key_count r.cp (pos index) (now_at world r 1)))

after_keys : KeysEnd → World → ℕ → RoutingScope → Run → Run × Visit
after_keys returns world index scope r = (r, stops)
after_keys key_exhausted world index scope r = (move_on index scope (now_at world r 0) r, attempts)
after_keys _ world index scope r = (r, attempts)

try_keys : World → Place → ℕ → ℕ → Run → Run × Visit
unfolding after_keys
try_keys world at start active r =
    let (r', end) = attempt_keys world at start active r in
    after_keys end world at.index at.scope r'

-- A provider that is busy is waited for where the request began with it, and then probed.
try_provider : World → Place → ℕ → ℕ → Run → Run × Visit
unfolding try_keys
try_provider world at start active r =
    elim (provider_busy_wait r.cp (pos at.index) (now_at world r 4) (now_at world r 5)) [
      | none ↦ try_keys world at start active r
      | some wait ↦
          if not (at.index == at.preferred_index) || ltb_ℤ r.cp.routing.max_inline_wait wait
          then (with_release at.index at.used_probe r, attempts)
          else if not (world.waited r.event)
          then (with_release at.index at.used_probe r, stops)
          else let (cp, acquired) = acquire_provider_busy_probe r.cp (pos at.index) in
            let r' = record r { cp = cp } in
            if acquired
            then try_keys world (record at { busy_retried = true }) start active
                (record r' { busy_probe_held = true })
            else (with_release at.index at.used_probe r', attempts)
    ]

index_of : ℤ → ℕ
index_of (pos n) = n
index_of (negsuc n) = 0

-- With the breaker's permit, whose reserved probe is `used_probe`.
with_permit : World → Request → ℕ → ℕ → Bool → Run → Run × Visit
unfolding try_provider index_of
with_permit world request preferred_index index used_probe r =
    let (cp, active, start) =
      get_active_key_count_and_start_index_for_scope r.cp (pos index) request.scope
        (now_at world r 3) in
    let at : Place = record {
      index = index;
      scope = request.scope;
      used_probe = used_probe;
      preferred_index = preferred_index;
      busy_retried = false;
    } in
    let r' = record r { cp = cp; busy_probe_held = false } in
    if active == 0
    then (with_release index used_probe r', passes)
    else try_provider world at (index_of start) active r'

-- The body of the loop for one provider.
pub visit_provider : World → Request → ℕ → ℕ → Run → Run × Visit
unfolding usable with_permit
visit_provider world request preferred_index index r =
    let (allow, cp) = allow_circuit r.cp (now_at world r 2) (pos index) in
    let r' = record r { cp = cp } in
    if usable world request index r
    then if allow.allowed
      then with_permit world request preferred_index index allow.used_probe r'
      else (r', passes)
    else (r, passes)

pub data LoopEnd : Type 0 where
  stopped ran_out : LoopEnd

-- The loop over the providers, with `left` offsets to go.
pub providers_loop : World → Request → ℕ → ℕ → ℕ → ℕ → ℕ → ℕ → Run → Run × LoopEnd
providers_loop world request preferred_index start active zero offset attempted r = (r, ran_out)
providers_loop world request preferred_index start active (suc left) offset attempted r =
    elim (ltb attempted active) [
      | false ↦ (r, ran_out)
      | true ↦ elim (world.client_left r.event) [
        | true ↦ (r, stopped)
        | false ↦
            let (r', v) =
              visit_provider world request preferred_index
                ((start + offset) % length r.cp.providers) (record r { event = r.event + 1 }) in
            elim v [
              | passes ↦
                  providers_loop world request preferred_index start active left (offset + 1)
                    attempted r'
              | attempts ↦
                  providers_loop world request preferred_index start active left (offset + 1)
                    (attempted + 1) r'
              | stops ↦ (r', stopped)
            ]
      ]
    ]
