-- ===== src/Failover/Forward/Settling.antt =====
-- How often an attempt reports to the breaker that let it through.
use clipal.Common.{ℕ, ◌≡◌, refl, ap, ◌∙◌, true, false, Bool, ℤ, pos, arith}
use clipal.Clock.{Time}
use clipal.Providers.{RoutingScope}
use clipal.Failover.State.{
  ClientProxy, protocol_incomplete, set_scope_index, set_current_key_index_for_scope,
}
use clipal.Failover.Quarantine.Breakers.{set_scope_index-breakers, set_current_key_index-breakers}
use clipal.Failover.Busy.Breakers.{release_busy-breakers, clear-breakers}
use clipal.Failover.Permits.Reports.{
  Reported, release-Reported, success-Reported, failure-Reported, settle,
}
use clipal.Failover.Forward.{
  Run, release_held, StreamEnd, finish_stream, retries, completed, incomplete, failed, client_gone,
  broken,
}

pub release_held-breakers : (i : ℕ) (r : Run) → (release_held i r).cp.breakers ≡ r.cp.breakers
unfolding release_held
release_held-breakers i r = ground (arith, release_busy-breakers r.cp (pos i))

-- A step that leaves the breakers alone before and after one report is one report.
pub Reported-between :
    {i : ℤ} {u : Bool} {a b c d : ClientProxy}
    → b.breakers ≡ a.breakers
    → Reported i u b c
    → d.breakers ≡ c.breakers
    → Reported i u a d
Reported-between {i = i} before r after = record {
  change = r.change;
  report = r.report;
  breakers = after ∙ (r.breakers ∙ ap (settle r.change i) before);
}

commit-breakers :
    (cp : ClientProxy) (i k : ℕ) (s : RoutingScope)
    → (set_current_key_index_for_scope (set_scope_index cp (pos i) s) (pos i) (pos k) s).breakers
      ≡ cp.breakers
commit-breakers cp i k s =
    set_current_key_index-breakers _ (pos i) (pos k) s ∙ set_scope_index-breakers cp (pos i) s

-- Every end of a stream reports once to the breaker.
pub finish_stream-Reported :
    (end : StreamEnd) (i k : ℕ) (s : RoutingScope) (u : Bool) (now : Time) (r : Run)
    → Reported (pos i) u r.cp (finish_stream end i k s u now r).cp
unfolding finish_stream
finish_stream-Reported (retries reason) i k s u now r =
    Reported-between refl (failure-Reported r.cp (pos i) u now reason) (release_held-breakers i _)
finish_stream-Reported completed i k s u now r =
    Reported-between
      (clear-breakers _ (pos i) ∙ (release_held-breakers i _ ∙ commit-breakers r.cp i k s))
      (success-Reported _ (pos i) u now) refl
finish_stream-Reported incomplete i k s u now r =
    Reported-between (commit-breakers r.cp i k s)
      (failure-Reported _ (pos i) u now protocol_incomplete) (release_held-breakers i _)
finish_stream-Reported failed i k s u now r =
    Reported-between (commit-breakers r.cp i k s) (release-Reported _ (pos i) u now)
      (release_held-breakers i _)
finish_stream-Reported (client_gone true) i k s u now r =
    Reported-between (commit-breakers r.cp i k s) (release-Reported _ (pos i) u now)
      (release_held-breakers i _)
finish_stream-Reported (client_gone false) i k s u now r =
    Reported-between refl (release-Reported r.cp (pos i) u now) (release_held-breakers i _)
finish_stream-Reported (broken reason) i k s u now r =
    Reported-between (commit-breakers r.cp i k s) (failure-Reported _ (pos i) u now reason)
      (release_held-breakers i _)
