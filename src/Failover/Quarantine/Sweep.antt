-- ===== src/Failover/Quarantine/Sweep.antt =====
-- The sweep that clears expired quarantines changes no answer from its own time on.
use clipal.Common.{
  ◌≤◌, ◌≡◌, refl, Bool, false, Option, none, some, ℤ, arith, at?, at?-map, map_option, map, length,
  ◌==◌, inl, inr, Option-cases,
}
use clipal.Clock.{Time}
use clipal.Failover.State.{ProviderDeactivation, ClientProxy, is_running}
use clipal.Failover.Availability.{
  deactivation_at, key_deactivation_at?, is_key_deactivated, available_key_count,
  provider_available_for_routing,
}
use clipal.Failover.Availability.Health.{
  SameHealth, SameHealth-refl, SameHealth-if, available_key_count-SameHealth,
  provider_available_for_routing-SameHealth,
}
use clipal.Failover.Quarantine.{clear_expired, reactivate_expired}

module _ (now t : Time) (later : now ≤ t) where
  clear_expired-is_running :
      (d : ProviderDeactivation) → is_running (clear_expired now d) t ≡ is_running d t
  unfolding clear_expired
  clear_expired-is_running d = ground arith

  abbrev running_in : Option ProviderDeactivation → Bool
  running_in none = false
  running_in (some d) = is_running d t

  clear_expired-running_in :
      (o : Option ProviderDeactivation)
      → running_in (map_option (clear_expired now) o) ≡ running_in o
  clear_expired-running_in none = refl
  clear_expired-running_in (some d) = clear_expired-is_running d

  deactivation_at-running_in :
      (cp : ClientProxy) (i : ℤ)
      → is_running (deactivation_at cp i) t ≡ running_in (at? cp.deactivated i)
  unfolding deactivation_at
  deactivation_at-running_in cp i = ground arith

  is_key_deactivated-running_in :
      (cp : ClientProxy) (i j : ℤ)
      → is_key_deactivated cp i j t ≡ running_in (key_deactivation_at? cp i j)
  unfolding is_key_deactivated
  is_key_deactivated-running_in cp i j = ground arith

  abbrev cleared : ClientProxy → ClientProxy
  cleared cp = record cp {
    deactivated = map (clear_expired now) cp.deactivated;
    key_deactivated = map (map (clear_expired now)) cp.key_deactivated;
  }

  key_deactivation_at?-cleared :
      (cp : ClientProxy) (i j : ℤ)
      → key_deactivation_at? (cleared cp) i j
        ≡ map_option (clear_expired now) (key_deactivation_at? cp i j)
  unfolding key_deactivation_at?
  key_deactivation_at?-cleared cp i j = elim (Option-cases (at? cp.key_deactivated i)) [
    | inl e ↦ ground (arith, at?-map (map (clear_expired now)) cp.key_deactivated i)
    | inr (ds, e) ↦ ground (
      arith,
      at?-map (map (clear_expired now)) cp.key_deactivated i,
      at?-map (clear_expired now) ds j,
    )
  ]

  cleared-SameHealth : (cp : ClientProxy) → SameHealth (cleared cp) cp t
  cleared-SameHealth cp = record {
    providers = refl;
    provider_keys = refl;
    breakers = refl;
    provider_running = λ i. cc (
      deactivation_at-running_in (cleared cp) i,
      deactivation_at-running_in cp i,
      at?-map (clear_expired now) cp.deactivated i,
      clear_expired-running_in (at? cp.deactivated i),
    );
    key_running = λ i j. cc (
      is_key_deactivated-running_in (cleared cp) i j,
      is_key_deactivated-running_in cp i j,
      key_deactivation_at?-cleared cp i j,
      clear_expired-running_in (key_deactivation_at? cp i j),
    );
  }

  reactivate_expired-SameHealth : (cp : ClientProxy) → SameHealth (reactivate_expired cp now) cp t
  unfolding reactivate_expired
  reactivate_expired-SameHealth cp =
      SameHealth-if (length cp.deactivated == length cp.providers) (cleared cp) cp t
        (cleared-SameHealth cp) (SameHealth-refl cp t)

  -- From its own time on the sweep changes no answer: a provider may be used after it exactly when it
  -- might be used before it, and the numbers of available keys are the same.
  pub reactivate_expired_invisible :
      (cp : ClientProxy) (i : ℤ)
      → (provider_available_for_routing (reactivate_expired cp now) i t
          ≡ provider_available_for_routing cp i t)
        × (available_key_count (reactivate_expired cp now) i t ≡ available_key_count cp i t)
  reactivate_expired_invisible cp i = (
    provider_available_for_routing-SameHealth (reactivate_expired-SameHealth cp) i,
    available_key_count-SameHealth (reactivate_expired-SameHealth cp) i,
  )
