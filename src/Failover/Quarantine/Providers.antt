-- ===== src/Failover/Quarantine/Providers.antt =====
-- What the quarantine of a provider does to it, to the others and to the routing cursors.
use clipal.Common.{
  ℕ, ◌+◌, ◌<◌, ◌≡◌, ◌≢◌, ap, ◌∙◌, false, none, some, ℤ, pos, arith, at?, set_at, at?-set_at_self,
  at?-set_at_ne, length, ltb, eqb_ℤ, if◌then◌else◌, inl, inr, Bool-cases, eqb_ℤ-eq, eqb_ℤ-ne,
}
use clipal.Clock.{Time}
use clipal.Providers.{
  RoutingScope, scope_default, scope_claude_count_tokens, scope_openai_responses,
  scope_gemini_stream,
}
use clipal.Failover.State.{
  ProviderDeactivation, mode_auto, ClientProxy, is_running, scope_index, set_scope_index,
}
use clipal.Failover.Availability.{is_deactivated}
use clipal.Failover.Availability.Health.{
  SameHealth, SameHealth-refl, SameHealth-if, SameHealth-set_scope_index,
}
use clipal.Failover.Cursors.{next_active_index}
use clipal.Failover.Cursors.Providers.{NextActive, next_active_index-NextActive}
use clipal.Failover.Cursors.Health.{next_active_index-SameHealth}
use clipal.Failover.Quarantine.{
  Failure, quarantine, advance_scope_index, advance_scope_indices, deactivate_for,
}

module _ (cp : ClientProxy) (index : ℤ) (clock : RoutingScope → Time) where
  advance_scope_indices-deactivated :
      (advance_scope_indices cp index clock).deactivated ≡ cp.deactivated
  unfolding advance_scope_indices scope_index set_scope_index
  advance_scope_indices-deactivated = ground arith

module _ (cp : ClientProxy) (index : ℤ) (failure : Failure) (d : ℕ) (checked now : Time)
    (clock : RoutingScope → Time) (old : ProviderDeactivation)
    (known : at? cp.deactivated index ≡ some old) (idle : is_running old checked ≡ false)
    (lasts : 0 < d) where
  abbrev after : ClientProxy
  after = deactivate_for cp index failure (pos d) checked now clock

  -- The proxy with the quarantine entered, before any cursor moves.
  abbrev pub entered : ClientProxy
  entered = record cp { deactivated = set_at cp.deactivated index (quarantine failure now (pos d)) }

  after-deactivated : after.deactivated ≡ entered.deactivated
  unfolding deactivate_for
  after-deactivated = ground (arith, advance_scope_indices-deactivated entered index clock)

  is_deactivated-after :
      (j : ℤ) (t : Time)
      → is_deactivated after j t
        ≡ elim (at? entered.deactivated j) [ none ↦ false | some e ↦ is_running e t ]
  unfolding is_deactivated
  is_deactivated-after j t = let same = ap (λ ds. at? ds j) after-deactivated in ground arith

  at_self : (t : Time) → is_deactivated after index t ≡ ltb t (now + d)
  unfolding quarantine
  at_self t =
      let q : ProviderDeactivation = quarantine failure now (pos d) in
      let there = at?-set_at_self cp.deactivated index q known in
      ground (arith, is_deactivated-after index t)

  at_other : (j : ℤ) (t : Time) → index ≢ j → is_deactivated after j t ≡ is_deactivated cp j t
  unfolding is_deactivated
  at_other j t h =
      let q : ProviderDeactivation = quarantine failure now (pos d) in
      let there = at?-set_at_ne cp.deactivated index j q h in
      ground (arith, is_deactivated-after j t)

  -- A provider that is not quarantined when a failure with a positive cooldown is reported is
  -- quarantined from then until exactly the cooldown later; every other provider is quarantined
  -- exactly when it was.
  pub deactivate_for_exact :
      (j : ℤ) (t : Time)
      → is_deactivated after j t
        ≡ (if eqb_ℤ index j then ltb t (now + d) else is_deactivated cp j t)
  deactivate_for_exact j t = elim (Bool-cases (eqb_ℤ index j)) [
    | inl here ↦ let same = eqb_ℤ-eq index j here in ground (arith, at_self t)
    | inr there ↦ ground (arith, at_other j t (eqb_ℤ-ne index j there))
  ]

-- Where the cursor of a scope stands after the cursors on `index` have moved on.
abbrev moved : ClientProxy → ℤ → (RoutingScope → Time) → RoutingScope → ℤ
moved cp index clock s =
    if eqb_ℤ (scope_index cp s) index
    then next_active_index cp index (clock s)
    else scope_index cp s

advance-SameHealth :
    (cp : ClientProxy) (index : ℤ) (s : RoutingScope) (now t : Time)
    → SameHealth (advance_scope_index cp index s now) cp t
unfolding advance_scope_index
advance-SameHealth cp index s now t =
    SameHealth-if (eqb_ℤ (scope_index cp s) index)
      (set_scope_index cp (next_active_index cp index now) s) cp t
      (SameHealth-set_scope_index cp (next_active_index cp index now) s t) (SameHealth-refl cp t)

module _ (cp : ClientProxy) (index : ℤ) (clock : RoutingScope → Time) where
  abbrev first : ClientProxy
  first = advance_scope_index cp index scope_default (clock scope_default)

  abbrev second : ClientProxy
  second =
      advance_scope_index first index scope_claude_count_tokens (clock scope_claude_count_tokens)

  abbrev third : ClientProxy
  third = advance_scope_index second index scope_openai_responses (clock scope_openai_responses)

  second_same : (t : Time) → next_active_index first index t ≡ next_active_index cp index t
  second_same t =
      next_active_index-SameHealth
        (advance-SameHealth cp index scope_default (clock scope_default) t) index

  third_same : (t : Time) → next_active_index second index t ≡ next_active_index cp index t
  third_same t =
      next_active_index-SameHealth
        (advance-SameHealth first index scope_claude_count_tokens (clock scope_claude_count_tokens)
          t)
        index
      ∙ second_same t

  fourth_same : (t : Time) → next_active_index third index t ≡ next_active_index cp index t
  fourth_same t =
      next_active_index-SameHealth
        (advance-SameHealth second index scope_openai_responses (clock scope_openai_responses) t)
        index
      ∙ third_same t

  scope_index-advance_scope_indices :
      (s : RoutingScope)
      → scope_index (advance_scope_indices cp index clock) s ≡ moved cp index clock s
  unfolding advance_scope_indices scope_index set_scope_index
  scope_index-advance_scope_indices scope_default = ground arith
  scope_index-advance_scope_indices scope_claude_count_tokens =
      ground (arith, second_same (clock scope_claude_count_tokens))
  scope_index-advance_scope_indices scope_openai_responses =
      ground (arith, third_same (clock scope_openai_responses))
  scope_index-advance_scope_indices scope_gemini_stream =
      ground (arith, fourth_same (clock scope_gemini_stream))

module _ (cp : ClientProxy) (a : ℕ) (failure : Failure) (d : ℕ) (checked now : Time)
    (clock : RoutingScope → Time) (old : ProviderDeactivation)
    (known : at? cp.deactivated (pos a) ≡ some old) (idle : is_running old checked ≡ false)
    (lasts : 0 < d) where
  abbrev pub result : ClientProxy
  result = deactivate_for cp (pos a) failure (pos d) checked now clock

  -- The proxy with the quarantine entered, before any cursor moves.
  abbrev pub shut_out : ClientProxy
  shut_out = record cp {
    deactivated = set_at cp.deactivated (pos a) (quarantine failure now (pos d));
  }

  scope_index-result :
      (s : RoutingScope)
      → cp.mode ≡ mode_auto
      → scope_index result s ≡ moved shut_out (pos a) clock s
  unfolding deactivate_for
  scope_index-result s m =
      ground (arith, scope_index-advance_scope_indices shut_out (pos a) clock s)

  moved-eq :
      (s : RoutingScope)
      → scope_index cp s ≡ pos a
      → moved shut_out (pos a) clock s ≡ next_active_index shut_out (pos a) (clock s)
  unfolding scope_index
  moved-eq scope_default e = ground arith
  moved-eq _ e = ground arith

  moved-ne :
      (s : RoutingScope)
      → scope_index cp s ≢ pos a
      → moved shut_out (pos a) clock s ≡ scope_index cp s
  unfolding scope_index
  moved-ne scope_default e = ground arith
  moved-ne _ e = ground arith

  -- When a provider in range is quarantined in automatic mode, a cursor that stood on it goes to the
  -- next provider that is available with the quarantine in force, or stays where there is none, and
  -- every other cursor stays where it is.
  pub deactivate_for_moves :
      (s : RoutingScope)
      → cp.mode ≡ mode_auto
      → a < length cp.providers
      → (scope_index cp s ≡ pos a → NextActive shut_out (clock s) a (scope_index result s))
        × (scope_index cp s ≢ pos a → scope_index result s ≡ scope_index cp s)
  deactivate_for_moves s m h = (
    λ on.
        rw (scope_index-result s m, moved-eq s on)
          (next_active_index-NextActive shut_out (clock s) a h),
    λ off. scope_index-result s m ∙ moved-ne s off,
  )
