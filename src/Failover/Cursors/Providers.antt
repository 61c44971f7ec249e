-- ===== src/Failover/Cursors/Providers.antt =====
-- Where the provider cursors go.
use clipal.Common.{
  ℕ, ◌+◌, ◌%◌, ◌<◌, ◌≤◌, ◌≡◌, refl, sym, ◌∙◌, Bool, true, false, Option, none, some, ℤ, pos, negsuc,
  arith, length, inl, inr, Option-cases, ◌==◌,
}
use native.Mathlib.Decide.{ℕ_discrete, dec_lt}
use native.Mathlib.Nat.{mod-eq_of_lt}
use clipal.Clock.{Time}
use clipal.Providers.{Capability, RoutingScope}
use clipal.Failover.State.{ClientProxy, scope_index, set_scope_index}
use clipal.Failover.Availability.{
  provider_available_for_routing, provider_available_for_capability, count_providers,
}
use clipal.Failover.Availability.Counting.{count_providers_pos, count_providers_zero}
use clipal.Failover.Ring.{
  search_ring, candidate, search_ring_found, search_ring-none, passes_every, passes_every_behind,
}
use clipal.Failover.Cursors.{
  in_range_or_zero, when, or_default, routable, servable, next_active_index,
  ensure_active_scope_index, get_active_count_and_start_index_for_scope,
}

pub when-eq-some :
    {A : Type 0} (b : Bool) (a : A) {x : A} → when b a ≡ some x → (b ≡ true) × (a ≡ x)
when-eq-some true a h = ground arith
when-eq-some false a h = ground arith

pub when-eq-none : {A : Type 0} (b : Bool) (a : A) → when b a ≡ none → b ≡ false
when-eq-none true a h = ground arith
when-eq-none false a h = refl

pub in_range_or_zero-lt :
    (i : ℤ) (n : ℕ) → 0 < n → (a : ℕ) × (in_range_or_zero i n ≡ pos a) × (a < n)
unfolding in_range_or_zero
in_range_or_zero-lt (pos i) n h = elim (dec_lt i n) [
  | yes p ↦ (i, ground arith, p)
  | no p ↦ (0, ground arith, h)
]
in_range_or_zero-lt (negsuc i) n h = (0, ground arith, h)

module _ (cp : ClientProxy) (now : Time) where
  abbrev pub available : ℕ → Bool
  available j = provider_available_for_routing cp (pos j) now

  -- The answer of a walk from behind the cursor `a`: the first available provider, or, where there
  -- is none at all, the cursor itself.
  pub data NextActive (a : ℕ) (r : ℤ) : Type 0 where
    found :
        (k : ℕ)
        → 1 ≤ k
        → k ≤ length cp.providers
        → r ≡ pos ((a + k) % length cp.providers)
        → available ((a + k) % length cp.providers) ≡ true
        → ((i : ℕ) → 1 ≤ i → i < k → available ((a + i) % length cp.providers) ≡ false)
        → NextActive a r
    stuck : r ≡ pos a → ((j : ℕ) → j < length cp.providers → available j ≡ false) → NextActive a r

  next_active_index-search :
      (a : ℕ) (o : Option ℤ)
      → a < length cp.providers
      → search_ring (routable cp now) (pos a) (length cp.providers) 1 (length cp.providers) ≡ o
      → next_active_index cp (pos a) now ≡ or_default o (pos a)
  unfolding next_active_index
  next_active_index-search a o h e =
      rw e (ground (arith, mod-eq_of_lt {n = a} {m = length cp.providers} h))

  -- From a cursor in range, the next active index is that of the first available provider behind it,
  -- with the cursor's own coming last; where no provider is available the cursor stays.
  pub next_active_index-NextActive :
      (a : ℕ) → a < length cp.providers → NextActive a (next_active_index cp (pos a) now)
  next_active_index-NextActive a h =
      let n = length cp.providers in
      elim (Option-cases (search_ring (routable cp now) (pos a) n 1 n)) [
        | inl nothing ↦ stuck (next_active_index-search a none h nothing) (λ j q.
            let (i, low, high, e) = passes_every_behind a n j h q in
            when-eq-none (available j) (pos j)
              (rw e at (search_ring-none (routable cp now) a n 1 n nothing i low high)))
        | inr (x, hit) ↦
            let (k, low, high, here, before) = search_ring_found (routable cp now) a n 1 n hit in
            let (yes', same) = when-eq-some _ _ here in
            found k low (omega arith) (next_active_index-search a (some x) h hit ∙ sym same) yes'
              (λ i p q. when-eq-none _ _ (before i p q))
      ]

module _ (cp : ClientProxy) (scope : RoutingScope) (capability : Capability) (now : Time) where
  abbrev pub serves : ℕ → Bool
  serves j = provider_available_for_capability cp (pos j) now capability

  -- The index at which the walk for a scope begins.
  abbrev pub walk_start : ℤ
  walk_start = in_range_or_zero (scope_index cp scope) (length cp.providers)

  -- What a request of the scope is given: the proxy after the call, the number of providers that can
  -- serve it, and the index to begin with.
  pub data Started : ClientProxy × ℕ × ℤ → Type 0 where
    idle : ((j : ℕ) → j < length cp.providers → serves j ≡ false) → Started (cp, 0, pos 0)
    starts :
        (active a k r : ℕ)
        → 0 < active
        → walk_start ≡ pos a
        → a < length cp.providers
        → k < length cp.providers
        → r ≡ (a + k) % length cp.providers
        → serves r ≡ true
        → ((i : ℕ) → i < k → serves ((a + i) % length cp.providers) ≡ false)
        → Started (set_scope_index cp (pos r) scope, active, pos r)

  abbrev serving : ℕ
  serving =
      count_providers (λ i. provider_available_for_capability cp i now capability) cp.providers 0

  idle_lem :
      serving ≡ 0
      → get_active_count_and_start_index_for_scope cp scope capability now ≡ (cp, 0, pos 0)
  unfolding get_active_count_and_start_index_for_scope
  idle_lem h = rw h refl

  ensure_lem :
      (a : ℕ) (r : ℤ)
      → walk_start ≡ pos a
      → search_ring
          (servable cp now capability)
          (pos a)
          (length cp.providers)
          0
          (length cp.providers)
        ≡ some r
      → ensure_active_scope_index cp scope now capability ≡ (set_scope_index cp r scope, r)
  unfolding ensure_active_scope_index
  ensure_lem a r w e = rw (w, e) refl

  starts_lem :
      (r : ℤ)
      → 0 < serving
      → 0 < length cp.providers
      → ensure_active_scope_index cp scope now capability ≡ (set_scope_index cp r scope, r)
      → get_active_count_and_start_index_for_scope cp scope capability now
        ≡ (set_scope_index cp r scope, serving, r)
  unfolding get_active_count_and_start_index_for_scope
  starts_lem r p q e =
      let busy : (serving == 0) ≡ false = ground arith in
      let full : (length cp.providers == 0) ≡ false = ground arith in rw (busy, full, e) refl

  serving_at :
      (a k : ℕ) (r : ℤ)
      → 0 < serving
      → walk_start ≡ pos a
      → a < length cp.providers
      → k < length cp.providers
      → search_ring
          (servable cp now capability)
          (pos a)
          (length cp.providers)
          0
          (length cp.providers)
        ≡ some r
      → candidate (servable cp now capability) a (length cp.providers) k ≡ some r
      → ((i : ℕ)
          → 0 ≤ i
          → i < k
          → candidate (servable cp now capability) a (length cp.providers) i ≡ none)
      → Started (get_active_count_and_start_index_for_scope cp scope capability now)
  serving_at a k r p w q q' e here before =
      let n = length cp.providers in
      let (served, same) = when-eq-some (serves ((a + k) % n)) (pos ((a + k) % n)) here in
      rw (starts_lem r p (omega arith) (ensure_lem a r w e), ← same)
        (starts serving a k ((a + k) % n) p w q q' refl served
          (λ i l. when-eq-none _ _ (before i (omega arith) l)))

  -- If no provider can serve the capability, the proxy is left as it was and the count is zero. If
  -- some can, the count is positive, and the scope's cursor, and nothing else, moves to the first one
  -- that can, walking round from the cursor (from 0 where the cursor is out of range).
  pub get_active_count_and_start_index_for_scope-Started :
      Started (get_active_count_and_start_index_for_scope cp scope capability now)
  get_active_count_and_start_index_for_scope-Started = elim (ℕ_discrete serving 0) [
    | yes none_serve ↦ rw (idle_lem none_serve) (
        idle (λ j q.
          count_providers_zero (λ i. provider_available_for_capability cp i now capability)
            cp.providers 0 j none_serve (omega arith) (omega arith)))
    | no some_serve ↦
        let n = length cp.providers in
        let p : 0 < serving = omega arith in
        let (j, low, high, served) =
          count_providers_pos (λ i. provider_available_for_capability cp i now capability)
            cp.providers 0 p in
        let (a, w, q) = in_range_or_zero-lt (scope_index cp scope) n (omega arith) in
        elim (Option-cases (search_ring (servable cp now capability) (pos a) n 0 n)) [
          | inr (r, e) ↦
              let (k, l, u, here, before) =
                search_ring_found (servable cp now capability) a n 0 n e in
              serving_at a k r p w q (omega arith) e here before
          | inl nothing ↦
              let (i, l, at) = passes_every a n j q (omega arith) in
              let missed =
                search_ring-none (servable cp now capability) a n 0 n nothing i (omega arith)
                  (omega arith) in
              let unserved = when-eq-none (serves j) (pos j) (rw at at missed) in cc
        ]
  ]
