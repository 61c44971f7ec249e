-- ===== src/Failover/Forward/Keys.antt =====
-- internal/proxy/failover_forward.go: the loop of `forwardWithFailover` over the keys of a provider.
pub mod Leak
use clipal.Common.{ℕ, zero, suc, ◌+◌, ◌%◌, true, false, List, ◌∷◌, pos, length, ltb}
use clipal.Failover.Availability.{keys_of}
use clipal.Failover.Forward.{World, Run}
use clipal.Failover.Forward.Turns.{
  KeysEnd, keys_done, skips, next_key, restart, leaves, Place, visit,
}

-- The loop, with `left` offsets to go; `again` is the loop from its first key.
pub keys_loop : World → Place → ℕ → ℕ → ℕ → (Run → Run × KeysEnd) → ℕ → ℕ → ℕ → Run → Run × KeysEnd
keys_loop world at keys start active again zero offset tried r = (r, keys_done)
keys_loop world at keys start active again (suc left) offset tried r = elim (ltb tried active) [
  | false ↦ (r, keys_done)
  | true ↦
      let (r', turn) = visit world at ((start + offset) % keys) r in
      elim turn [
        | skips ↦ keys_loop world at keys start active again left (offset + 1) tried r'
        | next_key ↦ keys_loop world at keys start active again left (offset + 1) (tried + 1) r'
        | restart ↦ again r'
        | leaves e ↦ (r', e)
      ]
]

-- The loop runs again at most once, since it then finds the busy retry spent.
pub attempt_keys : World → Place → ℕ → ℕ → Run → Run × KeysEnd
unfolding keys_loop
attempt_keys world at start active r =
    let keys = length (keys_of r.cp (pos at.index)) in
    keys_loop world at keys start active
      (λ r'.
        keys_loop world (record at { busy_retried = true }) keys start active
          (λ r''. (r'', keys_done)) keys 0 0 r')
      keys 0 0 r
