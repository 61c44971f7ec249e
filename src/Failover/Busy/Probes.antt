-- ===== src/Failover/Busy/Probes.antt =====
-- The probes that are let through to a busy provider: their bound and their return.
use clipal.Common.{
  if◌then◌else◌, set_at-none, leb_ℤ, ltb, ◌-◌, ℕ, ◌+◌, ◌≡◌, sym, ◌∙◌, ap, true, false, List, [],
  ◌∷◌, none, some, inl, inr, ℤ, pos, arith, at?, set_at, at?-set_at_self, at?-set_at_ne,
  set_at-set_at, set_at-at?, eqb_ℤ, eqb_ℤ-eq, eqb_ℤ-ne, ◌≤ℤ◌, Bool-cases, Option-cases,
}
use clipal.Clock.{Time, Duration, add}
use clipal.Failover.State.{Reason, ProviderBusyState, not_busy, ClientProxy}
use clipal.Failover.Busy.{
  merge_busy, mark_provider_busy, clear_provider_busy, probe_limit, acquire_provider_busy_probe,
  release_provider_busy_probe,
}

-- What forwarding does with busy providers.
pub data BusyOp : Type 0 where
  marks : ℤ → Reason → ℕ → Time → Duration → BusyOp
  acquires releases clears : ℤ → BusyOp

pub busy_step : ClientProxy → BusyOp → ClientProxy
busy_step cp (marks i r s now wait) = mark_provider_busy cp i r s now wait
busy_step cp (acquires i) = (acquire_provider_busy_probe cp i).0
busy_step cp (releases i) = release_provider_busy_probe cp i
busy_step cp (clears i) = clear_provider_busy cp i

pub busy_run : ClientProxy → List BusyOp → ClientProxy
busy_run cp [] = cp
busy_run cp (op ∷ ops) = busy_run (busy_step cp op) ops

-- No provider's counter of probes in flight is past the limit. It is the counter that is bounded and
-- not the probes that are out: a clear sets it to zero while probes may be out.
unfoldable pub IsBounded : ClientProxy → Type 0
IsBounded cp =
    (i : ℤ) (b : ProviderBusyState)
    → at? cp.provider_busy i ≡ some b
    → pos b.probe_in_flight ≤ℤ probe_limit cp

IsBounded-at :
    (cp : ClientProxy) (i : ℤ) (b : ProviderBusyState)
    → IsBounded cp
    → at? cp.provider_busy i ≡ some b
    → pos b.probe_in_flight ≤ℤ probe_limit cp
unfolding IsBounded
IsBounded-at cp i b v e = v i b e

put-IsBounded :
    (cp : ClientProxy) (i : ℤ) (old new : ProviderBusyState)
    → IsBounded cp
    → at? cp.provider_busy i ≡ some old
    → pos new.probe_in_flight ≤ℤ probe_limit cp
    → IsBounded (record cp { provider_busy = set_at cp.provider_busy i new })
unfolding IsBounded probe_limit
put-IsBounded cp i old new v here small j b e = elim (Bool-cases (eqb_ℤ i j)) [
  | inl same ↦
      let w = eqb_ℤ-eq i j same in
      let self = at?-set_at_self cp.provider_busy i new here in ground arith
  | inr other ↦
      let there = at?-set_at_ne cp.provider_busy i j new (eqb_ℤ-ne i j other) in
      v j b (sym there ∙ e)
]

unset-IsBounded :
    (cp : ClientProxy) (i : ℤ) (new : ProviderBusyState)
    → IsBounded cp
    → at? cp.provider_busy i ≡ none
    → IsBounded (record cp { provider_busy = set_at cp.provider_busy i new })
unfolding IsBounded probe_limit
unset-IsBounded cp i new v away =
    let same = set_at-none cp.provider_busy i new away in
    λ j b e. v j b (sym (ap (λ bs. at? bs j) same) ∙ e)

marks-IsBounded :
    (cp : ClientProxy) (i : ℤ) (r : Reason) (s : ℕ) (now : Time) (wait : Duration)
    → IsBounded cp
    → IsBounded (mark_provider_busy cp i r s now wait)
unfolding mark_provider_busy
marks-IsBounded cp i r s now wait v = elim (Option-cases (at? cp.provider_busy i)) [
  | inl away ↦
      rw away
        (elim (Bool-cases (leb_ℤ wait (pos 0))) [ inl short ↦ rw short v | inr long ↦ rw long v ])
  | inr (b, here) ↦ rw here (elim (Bool-cases (leb_ℤ wait (pos 0))) [
    | inl short ↦ rw short v
    | inr long ↦ rw long (
        put-IsBounded cp i b (merge_busy b r s (add now wait)) v here
          (ground (arith, IsBounded-at cp i b v here)))
  ])
]

module _ (cp : ClientProxy) (i : ℤ) (b : ProviderBusyState)
    (here : at? cp.provider_busy i ≡ some b) where
  abbrev entered_with : ProviderBusyState → ClientProxy
  entered_with new = record cp { provider_busy = set_at cp.provider_busy i new }

  acquire_lem : acquire_provider_busy_probe cp i ≡ (
      if leb_ℤ (probe_limit cp) (pos b.probe_in_flight)
      then (cp, false)
      else (entered_with (record b { probe_in_flight = b.probe_in_flight + 1 }), true))
  unfolding acquire_provider_busy_probe
  acquire_lem = ground arith

  release_lem : release_provider_busy_probe cp i ≡ (
      if ltb 0 b.probe_in_flight
      then entered_with (record b { probe_in_flight = b.probe_in_flight - 1 })
      else cp)
  unfolding release_provider_busy_probe
  release_lem = ground arith

  acquire_at-IsBounded : IsBounded cp → IsBounded (acquire_provider_busy_probe cp i).0
  acquire_at-IsBounded v = elim (Bool-cases (leb_ℤ (probe_limit cp) (pos b.probe_in_flight))) [
    | inl full ↦ rw (acquire_lem, full) v
    | inr room ↦
        rw (acquire_lem, room)
          (put-IsBounded cp i b (record b { probe_in_flight = b.probe_in_flight + 1 }) v here
            (ground arith))
  ]

  release_at-IsBounded : IsBounded cp → IsBounded (release_provider_busy_probe cp i)
  release_at-IsBounded v =
      let small = IsBounded-at cp i b v here in
      elim (Bool-cases (ltb 0 b.probe_in_flight)) [
        | inl out ↦
            rw (release_lem, out)
              (put-IsBounded cp i b (record b { probe_in_flight = b.probe_in_flight - 1 }) v here
                (ground arith))
        | inr home ↦ rw (release_lem, home) v
      ]

acquires_away :
    (cp : ClientProxy) (i : ℤ)
    → at? cp.provider_busy i ≡ none
    → acquire_provider_busy_probe cp i ≡ (cp, false)
unfolding acquire_provider_busy_probe
acquires_away cp i away = ground arith

releases_away :
    (cp : ClientProxy) (i : ℤ)
    → at? cp.provider_busy i ≡ none
    → release_provider_busy_probe cp i ≡ cp
unfolding release_provider_busy_probe
releases_away cp i away = ground arith

acquires-IsBounded :
    (cp : ClientProxy) (i : ℤ) → IsBounded cp → IsBounded (acquire_provider_busy_probe cp i).0
acquires-IsBounded cp i v = elim (Option-cases (at? cp.provider_busy i)) [
  | inl away ↦ rw (acquires_away cp i away) v
  | inr (b, here) ↦ acquire_at-IsBounded cp i b here v
]

releases-IsBounded :
    (cp : ClientProxy) (i : ℤ) → IsBounded cp → IsBounded (release_provider_busy_probe cp i)
releases-IsBounded cp i v = elim (Option-cases (at? cp.provider_busy i)) [
  | inl away ↦ rw (releases_away cp i away) v
  | inr (b, here) ↦ release_at-IsBounded cp i b here v
]

clears-IsBounded : (cp : ClientProxy) (i : ℤ) → IsBounded cp → IsBounded (clear_provider_busy cp i)
unfolding clear_provider_busy
clears-IsBounded cp i v = elim (Option-cases (at? cp.provider_busy i)) [
  | inl away ↦ unset-IsBounded cp i not_busy v away
  | inr (b, here) ↦
      put-IsBounded cp i b not_busy v here (ground (arith, IsBounded-at cp i b v here))
]

busy_step-IsBounded : (cp : ClientProxy) (op : BusyOp) → IsBounded cp → IsBounded (busy_step cp op)
unfolding busy_step
busy_step-IsBounded cp (marks i r s now wait) v = marks-IsBounded cp i r s now wait v
busy_step-IsBounded cp (acquires i) v = acquires-IsBounded cp i v
busy_step-IsBounded cp (releases i) v = releases-IsBounded cp i v
busy_step-IsBounded cp (clears i) v = clears-IsBounded cp i v

-- From a proxy in which no provider's counter of probes in flight is past the limit, every sequence of
-- marks, acquired and released probes and clears leads to such a proxy. The counter, which a clear
-- sets to zero while probes may be out, is what is bounded.
pub busy_run-IsBounded :
    (cp : ClientProxy) (ops : List BusyOp) → IsBounded cp → IsBounded (busy_run cp ops)
unfolding busy_run
busy_run-IsBounded cp [] v = v
busy_run-IsBounded cp (op ∷ ops) v =
    busy_run-IsBounded (busy_step cp op) ops (busy_step-IsBounded cp op v)

-- A probe that is acquired and released at once leaves the proxy as it was.
pub acquire_release :
    (cp : ClientProxy) (i : ℤ)
    → (acquire_provider_busy_probe cp i).1 ≡ true
    → release_provider_busy_probe (acquire_provider_busy_probe cp i).0 i ≡ cp
acquire_release cp i h = elim (Option-cases (at? cp.provider_busy i)) [
  | inl away ↦ let e = acquires_away cp i away in ground arith
  | inr (b, here) ↦
      let more = record b { probe_in_flight = b.probe_in_flight + 1 } in
      let e = acquire_lem cp i b here in
      let f =
        release_lem (entered_with cp i b here more) i more
          (at?-set_at_self cp.provider_busy i more here) in
      let g = set_at-set_at cp.provider_busy i more b in
      let k = set_at-at? cp.provider_busy i b here in ground arith
]
