-- ===== src/Failover/Forward/Keys/Leak.antt =====
-- A permit that the loop over the keys never gives back.
use clipal.Common.{
  ℕ, suc, ◌+◌, ◌%◌, ◌<◌, ◌≡◌, refl, ap, ◌∙◌, true, false, pos, arith, Text, ltb, length, at?, some,
  at?-set_at_self,
}
use clipal.Clock.{Time}
use clipal.CircuitBreaker.{CircuitBreaker, allow, circuit_half_open}
use clipal.Failover.State.{ClientProxy}
use clipal.Failover.Availability.{is_key_deactivated, keys_of, available_key_count}
use clipal.Failover.Permits.{allow_circuit}
use clipal.Failover.Permits.Routing.{allow_with}
use clipal.Failover.Forward.{World, Run, refused}
use clipal.Failover.Forward.Turns.{Turn, KeysEnd, keys_done, next_key, Place, visit, now_at}
use clipal.Failover.Forward.Turns.Settled.{
  Settled, kept_by_skip, kept_by_next, given_by_restart, given_by_end, visit-Settled,
}
use clipal.Failover.Forward.Turns.Soft.{soft_limit, visit_soft}
use clipal.Failover.Forward.Keys.{keys_loop, attempt_keys}

-- A turn that goes on with the next key keeps the breakers.
kept :
    (at : Place) (a b : ClientProxy) (t : Turn)
    → Settled at a b t
    → t ≡ next_key
    → b.breakers ≡ a.breakers
kept at a b _ (kept_by_skip h) e = h
kept at a b _ (kept_by_next h) e = h
kept at a b _ (given_by_restart h) e = ground arith
kept at a b _ (given_by_end k h) e = ground arith

-- One turn of the loop, when it goes on with the next key.
keys_loop_next :
    (world : World) (at : Place) (keys start active : ℕ) (again : Run → Run × KeysEnd)
    (left offset tried : ℕ) (r : Run)
    → ltb tried active ≡ true
    → (visit world at ((start + offset) % keys) r).1 ≡ next_key
    → keys_loop world at keys start active again (suc left) offset tried r
      ≡ keys_loop world at keys start active again left
          (offset + 1)
          (tried + 1)
          (visit world at ((start + offset) % keys) r).0
unfolding keys_loop
keys_loop_next world at keys start active again left offset tried r h e = ground arith

module _ (world : World) (at : Place) (start active : ℕ) (r : Run) (status : ℕ) (message : Text)
    (one_key : length (keys_of r.cp (pos at.index)) ≡ 1)
    (free : is_key_deactivated r.cp (pos at.index) (pos 0) (now_at world r 0) ≡ false)
    (counted : 0 < available_key_count r.cp (pos at.index) (now_at world r 3))
    (limited : world.attempt r.event ≡ refused (soft_limit status message)) where
  one_turn : 0 < active → attempt_keys world at start active r ≡ ((visit world at 0 r).0, keys_done)
  unfolding attempt_keys keys_loop
  one_turn h =
      let e = visit_soft world at 0 r status message free limited counted in
      let first : (start + 0) % 1 ≡ 0 = omega arith in
      let open_turn : ltb 0 active ≡ true = ground arith in
      rw one_key (
        keys_loop_next world at 1 start active
          (λ r'.
            keys_loop world (record at { busy_retried = true }) 1 start active
              (λ r''. (r'', keys_done)) 1 0 0 r')
          0 0 0 r open_turn (rw first e)
        ∙ ap (λ k. ((visit world at k r).0, keys_done)) first)

  unreported : 0 < active → (attempt_keys world at start active r).0.cp.breakers ≡ r.cp.breakers
  unreported h = rw (one_turn h) (
      kept at r.cp (visit world at 0 r).0.cp (visit world at 0 r).1 (visit-Settled world at 0 r)
        (visit_soft world at 0 r status message free limited counted))

  exhausted : 0 < active → (attempt_keys world at start active r).1 ≡ keys_done
  exhausted h = rw (one_turn h) refl

-- A half-open breaker with room for one probe, once that is out, blocks at all times.
probe_out :
    (cb : CircuitBreaker) (now t : Time)
    → cb.enabled ≡ true
    → cb.state ≡ circuit_half_open
    → cb.half_open_max_in_flight ≡ pos 1
    → (allow (allow cb now).1 t).0.allowed ≡ false
unfolding allow
probe_out cb now t e s m = ground arith

-- Let an enabled, half-open breaker with room for one probe be asked for a permit, and let the provider,
-- whose one key is not in quarantine, refuse the attempt by a rate limit that names no time to wait.
-- Then the loop over the keys runs out of keys, and the breaker that it leaves blocks a request at
-- whatever time that comes.
pub soft_limit_blocks_forever :
    (world : World) (at : Place) (start active : ℕ) (r : Run) (status : ℕ) (message : Text)
    (cp : ClientProxy) (now t : Time) (cb : CircuitBreaker)
    → at? cp.breakers (pos at.index) ≡ some (some cb)
    → cb.enabled ≡ true
    → cb.state ≡ circuit_half_open
    → cb.half_open_max_in_flight ≡ pos 1
    → r.cp.breakers ≡ (allow_circuit cp now (pos at.index)).1.breakers
    → length (keys_of r.cp (pos at.index)) ≡ 1
    → is_key_deactivated r.cp (pos at.index) (pos 0) (now_at world r 0) ≡ false
    → 0 < available_key_count r.cp (pos at.index) (now_at world r 3)
    → world.attempt r.event ≡ refused (soft_limit status message)
    → 0 < active
    → ((attempt_keys world at start active r).1 ≡ keys_done)
      × ((allow_circuit (attempt_keys world at start active r).0.cp t (pos at.index)).0.allowed
          ≡ false)
soft_limit_blocks_forever world at start active r status message cp now t cb there e s m taken one
      free counted limited h =
    let i = pos at.index in
    let cp' = (attempt_keys world at start active r).0.cp in
    let same =
      unreported world at start active r status message one free counted limited h
      ∙ taken
      ∙ ap (λ x. x.1.breakers) (allow_with cp i now cb there) in
    let after : at? cp'.breakers i ≡ some (some (allow cb now).1) =
      rw same (at?-set_at_self cp.breakers i (some (allow cb now).1) there) in
    (
      exhausted world at start active r status message one free counted limited h,
      rw (allow_with cp' i t (allow cb now).1 after) (probe_out cb now t e s m),
    )
