-- ===== src/Failover/Cursors/Keys.antt =====
-- Where the key cursors go.
use clipal.Common.{
  ℕ, ◌+◌, ◌%◌, ◌<◌, ◌≡◌, refl, sym, ◌∙◌, Bool, true, false, not, some, ℤ, pos, arith, length, inl,
  inr, Bool-cases, Option-cases, ◌==◌, at?, set_at,
}
use native.Mathlib.Decide.{ℕ_discrete}
use clipal.Clock.{Time}
use clipal.Providers.{RoutingScope}
use clipal.Failover.State.{ClientProxy, key_indices_for_scope, set_key_indices_for_scope}
use clipal.Failover.Availability.{is_key_deactivated, keys_of, available_key_count}
use clipal.Failover.Availability.Counting.{available_key_count_pos, available_key_count_zero}
use clipal.Failover.Ring.{search_ring, search_ring_found, search_ring-none, passes_every_behind}
use clipal.Failover.Cursors.{
  in_range_or_zero, usable_key, next_active_key_index, moved_key_cursor,
  preferred_key_index_for_scope, get_active_key_count_and_start_index_for_scope,
}
use clipal.Failover.Cursors.Providers.{when-eq-some, when-eq-none, in_range_or_zero-lt}

module _ (cp : ClientProxy) (p : ℤ) (now : Time) where
  abbrev pub key_count : ℕ
  key_count = length (keys_of cp p)

  abbrev pub quarantined : ℕ → Bool
  quarantined j = is_key_deactivated cp p (pos j) now

  -- A key index that is in range and not quarantined.
  pub record IsActiveKey (r : ℤ) : Type 0 where
    pub index : ℕ
    pub is_index : r ≡ pos index
    pub in_range : index < key_count
    pub active : quarantined index ≡ false

  stays :
      (from : ℤ) (a : ℕ)
      → in_range_or_zero from key_count ≡ pos a
      → a < key_count
      → quarantined a ≡ false
      → next_active_key_index cp p from now ≡ pos a
  unfolding next_active_key_index
  stays from a w h q =
      let some_key : (key_count == 0) ≡ false = ground arith in rw (w, some_key, q) refl

  walks :
      (from : ℤ) (a : ℕ) (r : ℤ)
      → in_range_or_zero from key_count ≡ pos a
      → a < key_count
      → quarantined a ≡ true
      → search_ring (usable_key cp p now) (pos a) key_count 1 key_count ≡ some r
      → next_active_key_index cp p from now ≡ r
  unfolding next_active_key_index
  walks from a r w h q e =
      let some_key : (key_count == 0) ≡ false = ground arith in rw (w, some_key, q, e) refl

  walks-IsActiveKey :
      (from : ℤ) (a : ℕ) (r : ℤ)
      → in_range_or_zero from key_count ≡ pos a
      → a < key_count
      → quarantined a ≡ true
      → search_ring (usable_key cp p now) (pos a) key_count 1 key_count ≡ some r
      → IsActiveKey (next_active_key_index cp p from now)
  walks-IsActiveKey from a r w h q e =
      let (k, low, high, here, before) =
        search_ring_found (usable_key cp p now) a key_count 1 key_count e in
      let i = (a + k) % key_count in
      let (open', same) = when-eq-some (not (quarantined i)) (pos i) here in
      record {
        index = i;
        is_index = walks from a r w h q e ∙ sym same;
        in_range = omega arith;
        active = ground arith;
      }

  -- If one of the provider's keys is not quarantined, the next active key index from any cursor is
  -- the index of a key that is not quarantined.
  pub next_active_key_index-IsActiveKey :
      (from : ℤ)
      → 0 < available_key_count cp p now
      → IsActiveKey (next_active_key_index cp p from now)
  next_active_key_index-IsActiveKey from h =
      let n = key_count in
      let (j, q, free) = available_key_count_pos cp p now h in
      let (a, w, l) = in_range_or_zero-lt from n (omega arith) in
      elim (Bool-cases (quarantined a)) [
        | inr free_here ↦ record {
          index = a;
          is_index = stays from a w l free_here;
          in_range = l;
          active = free_here;
        }
        | inl out ↦ elim (Option-cases (search_ring (usable_key cp p now) (pos a) n 1 n)) [
          | inr (r, e) ↦ walks-IsActiveKey from a r w l out e
          | inl nothing ↦
              let (i, low, high, at) = passes_every_behind a n j l q in
              let missed = search_ring-none (usable_key cp p now) a n 1 n nothing i low high in
              let out' = when-eq-none (not (quarantined j)) (pos j) (rw at at missed) in
              ground arith
        ]
      ]

  -- What a request of a scope is given for a provider whose scope has a key cursor: the proxy after
  -- the call, the number of keys that are not quarantined, and the key index to begin with.
  pub data KeyStarted (scope : RoutingScope) (cur : ℤ) : ClientProxy × ℕ × ℤ → Type 0 where
    exhausted :
        ((j : ℕ) → j < key_count → quarantined j ≡ true) → KeyStarted scope cur (cp, 0, pos 0)
    starts :
        (active : ℕ) (r : ℤ)
        → 0 < active
        → IsActiveKey r
        → (IsActiveKey cur → r ≡ cur)
        → KeyStarted scope cur (
          set_key_indices_for_scope cp (set_at (key_indices_for_scope cp scope) p r) scope,
          active,
          r,
        )

  moved_key_cursor-IsActiveKey :
      (cur : ℤ) → 0 < available_key_count cp p now → IsActiveKey (moved_key_cursor cp p cur now)
  unfolding moved_key_cursor
  moved_key_cursor-IsActiveKey cur h =
      next_active_key_index-IsActiveKey (in_range_or_zero cur key_count) h

  in_range_kept : (i : ℕ) → i < key_count → in_range_or_zero (pos i) key_count ≡ pos i
  unfolding in_range_or_zero
  in_range_kept i h = ground arith

  moved_key_cursor-stays : (cur : ℤ) → IsActiveKey cur → moved_key_cursor cp p cur now ≡ cur
  unfolding moved_key_cursor
  moved_key_cursor-stays cur k =
      let kept : in_range_or_zero (pos k.index) key_count ≡ pos k.index =
        in_range_kept k.index k.in_range in
      rw (k.is_index, kept) (stays (pos k.index) k.index kept k.in_range k.active)

  module _ (scope : RoutingScope) where
    no_keys_lem :
        available_key_count cp p now ≡ 0
        → get_active_key_count_and_start_index_for_scope cp p scope now ≡ (cp, 0, pos 0)
    unfolding get_active_key_count_and_start_index_for_scope
    no_keys_lem h = rw h refl

    keys_lem :
        (cur : ℤ)
        → 0 < available_key_count cp p now
        → at? (key_indices_for_scope cp scope) p ≡ some cur
        → get_active_key_count_and_start_index_for_scope cp p scope now ≡ (
          set_key_indices_for_scope cp
              (set_at (key_indices_for_scope cp scope) p (moved_key_cursor cp p cur now))
              scope,
          available_key_count cp p now,
          moved_key_cursor cp p cur now,
        )
    unfolding get_active_key_count_and_start_index_for_scope
    keys_lem cur h e =
        let some_key : (available_key_count cp p now == 0) ≡ false = ground arith in
        rw (some_key, e) refl

    -- If every key of the provider is quarantined, the proxy is left as it was and the count is
    -- zero. If not, the count is positive, and the scope's key cursor, and nothing else, moves to a
    -- key that is not quarantined, and stays where it is if it is on one.
    pub get_active_key_count_and_start_index_for_scope-KeyStarted :
        (cur : ℤ)
        → at? (key_indices_for_scope cp scope) p ≡ some cur
        → KeyStarted scope cur (get_active_key_count_and_start_index_for_scope cp p scope now)
    get_active_key_count_and_start_index_for_scope-KeyStarted cur e =
        elim (ℕ_discrete (available_key_count cp p now) 0) [
          | yes all_out ↦
              rw (no_keys_lem all_out)
                (exhausted (λ j q. available_key_count_zero cp p now j all_out q))
          | no some_in ↦ rw (keys_lem cur (omega arith) e) (
              starts (available_key_count cp p now) (moved_key_cursor cp p cur now) (omega arith)
                (moved_key_cursor-IsActiveKey cur (omega arith)) (moved_key_cursor-stays cur))
        ]

    -- The preferred key index of a provider with keys is the index of one of them.
    pub preferred_key_index_for_scope_in_range :
        0 < key_count
        → (j : ℕ) × (preferred_key_index_for_scope cp p scope ≡ pos j) × (j < key_count)
    unfolding preferred_key_index_for_scope
    preferred_key_index_for_scope_in_range h =
        let some_key : (key_count == 0) ≡ false = ground arith in
        elim (Option-cases (at? (key_indices_for_scope cp scope) p)) [
          | inl e ↦ rw (some_key, e) (0, refl, h)
          | inr (cur, e) ↦ rw (some_key, e) (in_range_or_zero-lt cur key_count h)
        ]
