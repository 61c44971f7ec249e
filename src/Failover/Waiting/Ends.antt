-- ===== src/Failover/Waiting/Ends.antt =====
-- That the loops over quarantines find the one that ends first.
use clipal.Common.{
  negsuc, sym, if◌then◌else◌, ℕ, zero, suc, ◌<◌, ◌≤◌, ◌≡◌, refl, ◌⊎◌, inl, inr, true, false, List,
  [], ◌∷◌, Option, none, some, ℤ, pos, arith, ap, ◌∙◌, at?, get_elem?, Option-cases, Bool-cases,
  ◌==◌,
}
use clipal.Clock.{Time, Duration, sub}
use clipal.Failover.Availability.{key_deactivation_at?, is_key_deactivated}
use clipal.Failover.State.{Reason, ProviderDeactivation, ClientProxy, is_running}
use clipal.Failover.Waiting.{Soonest, none_yet, consider, soonest_of, time_until_next_key_available}

-- A time is set, and it is no later than `t`.
abbrev pub Reaches : Soonest → Time → Type 0
Reaches s t = (0 < s.at) × (s.at ≤ t)

consider-Reaches :
    (now : Time) (s : Soonest) (d : ProviderDeactivation)
    → is_running d now ≡ true
    → Reaches (consider now s d) d.until
unfolding consider
consider-Reaches now s d h = ground arith

consider_keeps :
    (now : Time) (s : Soonest) (d : ProviderDeactivation) (t : Time)
    → Reaches s t
    → Reaches (consider now s d) t
unfolding consider
consider_keeps now s d t h = ground arith

soonest_of_keeps :
    (now : Time) (s : Soonest) (ds : List ProviderDeactivation) (t : Time)
    → Reaches s t
    → Reaches (soonest_of now s ds) t
unfolding soonest_of
soonest_of_keeps now s [] t h = h
soonest_of_keeps now s (d ∷ ds) t h =
    soonest_of_keeps now (consider now s d) ds t (consider_keeps now s d t h)

pub soonest_of-Reaches :
    (now : Time) (s : Soonest) (ds : List ProviderDeactivation) (j : ℕ) (d : ProviderDeactivation)
    → get_elem? ds j ≡ some d
    → is_running d now ≡ true
    → Reaches (soonest_of now s ds) d.until
unfolding soonest_of
soonest_of-Reaches now s [] j d e h = ground arith
soonest_of-Reaches now s (c ∷ ds) zero d e h =
    soonest_of_keeps now (consider now s c) ds d.until (ground (arith, consider-Reaches now s c))
soonest_of-Reaches now s (c ∷ ds) (suc j) d e h =
    soonest_of-Reaches now (consider now s c) ds j d e h

-- A quarantine of the list that runs, with its end and its reason.
pub record Found (now : Time) (ds : List ProviderDeactivation) (s : Soonest) : Type 0 where
  pub index : ℕ
  pub entry : ProviderDeactivation
  pub is_at : get_elem? ds index ≡ some entry
  pub running : is_running entry now ≡ true
  pub ends : s.at ≡ entry.until
  pub cause : s.reason ≡ entry.reason

consider_cases :
    (now : Time) (s : Soonest) (d : ProviderDeactivation)
    → (consider now s d ≡ s)
      ⊎ ((is_running d now ≡ true)
          × (consider now s d ≡ record { at = d.until; reason = d.reason }))
unfolding consider
consider_cases now s d = ground arith

soonest_of_cases :
    (now : Time) (s : Soonest) (ds : List ProviderDeactivation)
    → (soonest_of now s ds ≡ s) ⊎ Found now ds (soonest_of now s ds)
unfolding soonest_of
soonest_of_cases now s [] = inl refl
soonest_of_cases now s (d ∷ ds) = elim (soonest_of_cases now (consider now s d) ds) [
  | inr f ↦ inr (record {
    index = suc f.index;
    entry = f.entry;
    is_at = f.is_at;
    running = f.running;
    ends = f.ends;
    cause = f.cause;
  })
  | inl same ↦ elim (consider_cases now s d) [
    | inl passed ↦ inl (same ∙ passed)
    | inr (r, taken) ↦ inr (record {
      index = 0;
      entry = d;
      is_at = refl;
      running = r;
      ends = ap (λ x. x.at) (same ∙ taken);
      cause = ap (λ x. x.reason) (same ∙ taken);
    })
  ]
]

-- How long a provider is without keys: either none of its keys is quarantined, and no wait is told,
-- or the wait runs to the end of the quarantine that ends first, with its reason.
pub data KeyWait (cp : ClientProxy) (p : ℤ) (now read : Time)
    : Option (Duration × Reason) → Type 0 where
  no_wait : ((j : ℤ) → is_key_deactivated cp p j now ≡ false) → KeyWait cp p now read none
  waits :
      (d : ProviderDeactivation) (j : ℤ)
      → key_deactivation_at? cp p j ≡ some d
      → is_running d now ≡ true
      → ((i : ℤ) (e : ProviderDeactivation)
          → key_deactivation_at? cp p i ≡ some e
          → is_running e now ≡ true
          → d.until ≤ e.until)
      → KeyWait cp p now read (some (sub d.until read, d.reason))

module _ (cp : ClientProxy) (p : ℤ) (now read : Time) where
  no_slice :
      at? cp.key_deactivated p ≡ none
      → (time_until_next_key_available cp p now read ≡ none)
        × ((j : ℤ) → is_key_deactivated cp p j now ≡ false)
  unfolding time_until_next_key_available is_key_deactivated
  no_slice e = (ground arith, λ j. ground arith)

  module _ (ds : List ProviderDeactivation) (e : at? cp.key_deactivated p ≡ some ds) where
    abbrev end : Soonest
    end = soonest_of now none_yet ds

    wait_lem :
        time_until_next_key_available cp p now read
        ≡ (if end.at == 0 then none else some (sub end.at read, end.reason))
    unfolding time_until_next_key_available
    wait_lem = ground arith

    key_at : (j : ℤ) → key_deactivation_at? cp p j ≡ at? ds j
    unfolding key_deactivation_at?
    key_at j = ground arith

    reaches :
        (j : ℤ) (d : ProviderDeactivation)
        → key_deactivation_at? cp p j ≡ some d
        → is_running d now ≡ true
        → Reaches end d.until
    reaches (pos j) d q h = soonest_of-Reaches now none_yet ds j d (sym (key_at (pos j)) ∙ q) h
    reaches (negsuc j) d q h = let k = key_at (negsuc j) in ground arith

    all_free : end ≡ none_yet → (j : ℤ) → is_key_deactivated cp p j now ≡ false
    unfolding is_key_deactivated
    all_free n j = elim (Option-cases (key_deactivation_at? cp p j)) [
      | inl away ↦ ground arith
      | inr (d, there) ↦ elim (Bool-cases (is_running d now)) [
        | inr idle ↦ ground arith
        | inl running ↦ let r = reaches j d there running in ground arith
      ]
    ]

    keyed : KeyWait cp p now read (time_until_next_key_available cp p now read)
    keyed = elim (soonest_of_cases now none_yet ds) [
      | inl n ↦ rw (wait_lem, n) (no_wait (all_free n))
      | inr f ↦
          let first = soonest_of-Reaches now none_yet ds f.index f.entry f.is_at f.running in
          let set : (end.at == 0) ≡ false = ground arith in
          rw (wait_lem, set, f.ends, f.cause)
            (waits f.entry (pos f.index) (key_at (pos f.index) ∙ f.is_at) f.running
              (λ i d q h. rw (← f.ends) (reaches i d q h).1))
    ]

-- If no key of the provider is quarantined then no wait is told; if some key is, the wait runs to the
-- end of the quarantine that ends first, and is told with the reason of that quarantine.
pub time_until_next_key_available-KeyWait :
    (cp : ClientProxy) (p : ℤ) (now read : Time)
    → KeyWait cp p now read (time_until_next_key_available cp p now read)
time_until_next_key_available-KeyWait cp p now read =
    elim (Option-cases (at? cp.key_deactivated p)) [
      | inl e ↦ let (n, free) = no_slice cp p now read e in rw n (no_wait free)
      | inr (ds, e) ↦ keyed cp p now read ds e
    ]
