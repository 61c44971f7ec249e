-- ===== src/Failover/Permits/Reports.antt =====
-- The report of a permit, as a change of the one breaker that gave it.
use clipal.Common.{
  ◌⊎◌, ◌≡◌, refl, true, false, Bool, List, Option, none, some, inl, inr, ℤ, at?, set_at, arith,
  Bool-cases,
}
use clipal.Clock.{Time}
use clipal.CircuitBreaker.{CircuitBreaker, record_success, record_failure, release_probe_neutral}
use clipal.Failover.State.{Reason, ClientMode, ClientProxy, mode_auto, mode_manual}
use clipal.Failover.Permits.{
  release_circuit_permit, record_circuit_success, record_circuit_failure,
  should_record_circuit_failure,
}

-- The ways to report to a breaker what came of a permit.
pub data Report (used_probe : Bool) : (CircuitBreaker → CircuitBreaker) → Type 0 where
  released : Report used_probe (λ cb. release_probe_neutral cb used_probe)
  succeeded : (t : Time) → Report used_probe (λ cb. record_success cb t used_probe)
  failed : (t : Time) → Report used_probe (λ cb. record_failure cb t used_probe)

-- The breaker at an index, where there is one, goes through `f`.
pub settle :
    (CircuitBreaker → CircuitBreaker)
    → ℤ
    → List (Option CircuitBreaker)
    → List (Option CircuitBreaker)
settle f index bs = elim (at? bs index) [
  | none ↦ bs
  | some none ↦ bs
  | some (some cb) ↦ set_at bs index (some (f cb))
]

-- One report takes the breakers of `a` to those of `b`.
pub record Reported (index : ℤ) (used_probe : Bool) (a b : ClientProxy) : Type 0 where
  pub change : CircuitBreaker → CircuitBreaker
  pub report : Report used_probe change
  pub breakers : b.breakers ≡ settle change index a.breakers

mode_cases : (m : ClientMode) → (m ≡ mode_auto) ⊎ (m ≡ mode_manual)
mode_cases mode_auto = inl refl
mode_cases mode_manual = inr refl

module _ (cp : ClientProxy) (i : ℤ) (u : Bool) (t : Time) where
  released_lem :
      (release_circuit_permit cp i u).breakers
      ≡ settle (λ cb. release_probe_neutral cb u) i cp.breakers
  unfolding release_circuit_permit settle
  released_lem = ground arith

  succeeded_lem :
      cp.mode ≡ mode_auto
      → (record_circuit_success cp t i u).breakers
        ≡ settle (λ cb. record_success cb t u) i cp.breakers
  unfolding record_circuit_success settle
  succeeded_lem m = ground arith

  success_manual :
      cp.mode ≡ mode_manual → record_circuit_success cp t i u ≡ release_circuit_permit cp i u
  unfolding record_circuit_success
  success_manual m = ground arith

  module _ (r : Reason) where
    failed_lem :
        cp.mode ≡ mode_auto
        → should_record_circuit_failure r ≡ true
        → (record_circuit_failure cp t i u r).breakers
          ≡ settle (λ cb. record_failure cb t u) i cp.breakers
    unfolding record_circuit_failure settle
    failed_lem m h = ground arith

    ignored_lem :
        cp.mode ≡ mode_auto
        → should_record_circuit_failure r ≡ false
        → (record_circuit_failure cp t i u r).breakers
          ≡ settle (λ cb. release_probe_neutral cb u) i cp.breakers
    unfolding record_circuit_failure settle
    ignored_lem m h = ground arith

    failure_manual :
        cp.mode ≡ mode_manual → record_circuit_failure cp t i u r ≡ release_circuit_permit cp i u
    unfolding record_circuit_failure
    failure_manual m = ground arith

  pub release-Reported : Reported i u cp (release_circuit_permit cp i u)
  release-Reported = record {
    change = λ cb. release_probe_neutral cb u;
    report = released;
    breakers = released_lem;
  }

  pub success-Reported : Reported i u cp (record_circuit_success cp t i u)
  success-Reported = elim (mode_cases cp.mode) [
    | inl m ↦ record {
      change = λ cb. record_success cb t u;
      report = succeeded t;
      breakers = succeeded_lem m;
    }
    | inr m ↦ rw (success_manual m) release-Reported
  ]

  pub failure-Reported : (r : Reason) → Reported i u cp (record_circuit_failure cp t i u r)
  failure-Reported r = elim (mode_cases cp.mode) [
    | inr m ↦ rw (failure_manual r m) release-Reported
    | inl m ↦ elim (Bool-cases (should_record_circuit_failure r)) [
      | inl h ↦ record {
        change = λ cb. record_failure cb t u;
        report = failed t;
        breakers = failed_lem r m h;
      }
      | inr h ↦ record {
        change = λ cb. release_probe_neutral cb u;
        report = released;
        breakers = ignored_lem r m h;
      }
    ]
  ]
