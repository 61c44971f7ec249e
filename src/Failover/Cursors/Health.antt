-- ===== src/Failover/Cursors/Health.antt =====
-- The next active index depends on health only.
use mathlib.Core.Path.{fun_ext, ap₂}
use clipal.Common.{ℕ, ◌≡◌, ap, ℤ, pos, Option, length, rem, ◌==◌, if◌then◌else◌}
use clipal.Clock.{Time}
use clipal.Failover.State.{ClientProxy}
use clipal.Failover.Availability.Health.{SameHealth, provider_available_for_routing-SameHealth}
use clipal.Failover.Ring.{search_ring}
use clipal.Failover.Cursors.{when, or_default, routable, next_active_index}

pub next_active_index-SameHealth :
    {a b : ClientProxy} {t : Time}
    → SameHealth a b t
    → (from : ℤ) → next_active_index a from t ≡ next_active_index b from t
unfolding next_active_index
next_active_index-SameHealth {a} {b} {t} same from =
    let picks : routable a t ≡ routable b t =
      fun_ext (λ i. ap (λ c. when c i) (provider_available_for_routing-SameHealth same i)) in
    ap₂
      (λ (pick : ℤ → Option ℤ) (n : ℕ).
        if n == 0 then pos 0 else or_default (search_ring pick from n 1 n) (rem from n))
      picks (ap length same.providers)
