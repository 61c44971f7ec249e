-- ===== src/Failover/Busy/Breakers.antt =====
-- That busy providers are kept apart from the breakers.
use clipal.Common.{ℕ, ◌≡◌, refl, ℤ, arith}
use clipal.Clock.{Time, Duration}
use clipal.Failover.State.{Reason, ClientProxy}
use clipal.Failover.Busy.{
  mark_provider_busy, acquire_provider_busy_probe, release_provider_busy_probe, clear_provider_busy,
}

module _ (cp : ClientProxy) where
  pub mark-breakers :
      (i : ℤ) (r : Reason) (n : ℕ) (t : Time) (d : Duration)
      → (mark_provider_busy cp i r n t d).breakers ≡ cp.breakers
  unfolding mark_provider_busy
  mark-breakers i r n t d = ground arith

  pub acquire-breakers : (i : ℤ) → (acquire_provider_busy_probe cp i).0.breakers ≡ cp.breakers
  unfolding acquire_provider_busy_probe
  acquire-breakers i = ground arith

  pub release_busy-breakers : (i : ℤ) → (release_provider_busy_probe cp i).breakers ≡ cp.breakers
  unfolding release_provider_busy_probe
  release_busy-breakers i = ground arith

  pub clear-breakers : (i : ℤ) → (clear_provider_busy cp i).breakers ≡ cp.breakers
  unfolding clear_provider_busy
  clear-breakers i = refl
