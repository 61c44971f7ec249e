-- ===== src/Pricing/Tiers.antt =====
-- ratesForUsage of internal/pricing/calculator.go: the rates of a tier above 272,000 tokens.
use clipal.Common.{
  ◌<◌, ltb, ◌⊎◌, ◌≡◌, refl, subst, Bool, true, false, ◌&&◌, List, [], ◌∷◌, none, some, ℤ, pos, ◌≤ℤ◌,
  arith, Bool-cases, inl, inr,
}
use clipal.Pricing.Rational.{
  Rate, is_nil, first_rate, has_any_rate, AreInt64, plain_sum, sum_non_negative,
  sum_non_negative-plain_sum,
}
use clipal.Pricing.Spec.{
  ModelSpec, Usage, ServiceTier, tier_standard, tier_batch, tier_priority, tier_flex, unknown_tier,
}
use clipal.Pricing.Rates.{
  TokenRates, FourRates, combined_rates_cover_usage, tier_rates, combined_rates, covers, no_input,
  no_cache_write, is_unused, above_272k, overlay, over_272k, rates_above_272k, rates_for_usage,
  rates_of_tier, any_of_four,
}

-- A rate that the tier has of its own is replaced by the one that the tier has above 272,000 tokens,
-- which there is.
abbrev pub IsReplaced : Rate → Rate → Rate → Type 0
IsReplaced tier combined used = is_nil tier ≡ false → (used ≡ combined) × (is_nil combined ≡ false)

-- At least one token was counted.
abbrev pub IsUsed : ℤ → Type 0
IsUsed count = pos 1 ≤ℤ count

-- What holds of the rates for each kind of tokens that was used. Cache writes that are kept for an hour
-- are paid by the rate of the input and by the one of cache writes.
abbrev pub AreReplaced : Usage → FourRates → FourRates → TokenRates → Type 0
AreReplaced usage tier combined used =
    (IsUsed usage.uncached_input_tokens ⊎ IsUsed usage.cache_write_1h_tokens
      → IsReplaced tier.input combined.input used.input)
    × (IsUsed usage.output_tokens → IsReplaced tier.output combined.output used.output)
    × (IsUsed usage.cached_input_tokens
        → IsReplaced tier.cache_read combined.cache_read used.cache_read)
    × (IsUsed usage.cache_write_tokens ⊎ IsUsed usage.cache_write_1h_tokens
        → IsReplaced tier.cache_write combined.cache_write used.cache_write)

abbrev tiered : Usage → ServiceTier → Usage
tiered usage tier = record usage { service_tier = tier }

first_rate-head : (c r : Rate) → is_nil c ≡ false → first_rate (c ∷ r ∷ []) ≡ c
unfolding first_rate
first_rate-head none r h = ground arith
first_rate-head (some c) r h = refl

IsReplaced-first_rate :
    (t c r : Rate)
    → (is_nil t ≡ false → is_nil c ≡ false)
    → IsReplaced t c (first_rate (c ∷ r ∷ []))
IsReplaced-first_rate t c r covered h = (first_rate-head c r (covered h), covered h)

and_four :
    (a b c d : Bool)
    → (a && (b && (c && d))) ≡ true
    → (a ≡ true) × (b ≡ true) × (c ≡ true) × (d ≡ true)
and_four true true true true h = (refl, refl, refl, refl)
and_four true true true false h = absurd (ground arith)
and_four true true false d h = absurd (ground arith)
and_four true false c d h = absurd (ground arith)
and_four false b c d h = absurd (ground arith)

covers-used :
    (unused : Bool) (t c : Rate)
    → covers unused t c ≡ true
    → unused ≡ false
    → is_nil t ≡ false
    → is_nil c ≡ false
unfolding covers
covers-used unused t c h u k = ground arith

is_unused-IsUsed : (n : ℤ) → IsUsed n → is_unused n ≡ false
is_unused-IsUsed n h = ground arith

unused_both : (m n : ℤ) → IsUsed m ⊎ IsUsed n → (is_unused m && is_unused n) ≡ false
unused_both m n (inl h) = ground (arith, is_unused-IsUsed m h)
unused_both m n (inr h) = ground (arith, is_unused-IsUsed n h)

module _ (usage : Usage) (tier combined : FourRates)
    (covered : combined_rates_cover_usage usage tier combined ≡ true) where
  four_covers :
      (covers (no_input usage) tier.input combined.input ≡ true)
      × (covers (is_unused usage.output_tokens) tier.output combined.output ≡ true)
      × (covers (is_unused usage.cached_input_tokens) tier.cache_read combined.cache_read ≡ true)
      × (covers (no_cache_write usage) tier.cache_write combined.cache_write ≡ true)
  unfolding combined_rates_cover_usage
  four_covers =
      and_four (covers (no_input usage) tier.input combined.input)
        (covers (is_unused usage.output_tokens) tier.output combined.output)
        (covers (is_unused usage.cached_input_tokens) tier.cache_read combined.cache_read)
        (covers (no_cache_write usage) tier.cache_write combined.cache_write) covered

  AreReplaced-overlay :
      (rates : TokenRates) → AreReplaced usage tier combined (overlay combined rates)
  AreReplaced-overlay rates = (
    λ used. IsReplaced-first_rate tier.input combined.input rates.input (
        covers-used (no_input usage) tier.input combined.input four_covers.0
          (unused_both usage.uncached_input_tokens usage.cache_write_1h_tokens used)),
    λ used. IsReplaced-first_rate tier.output combined.output rates.output (
        covers-used (is_unused usage.output_tokens) tier.output combined.output four_covers.1
          (is_unused-IsUsed usage.output_tokens used)),
    λ used. IsReplaced-first_rate tier.cache_read combined.cache_read rates.cache_read (
        covers-used (is_unused usage.cached_input_tokens) tier.cache_read combined.cache_read
          four_covers.2 (is_unused-IsUsed usage.cached_input_tokens used)),
    λ used. IsReplaced-first_rate tier.cache_write combined.cache_write rates.cache_write (
        covers-used (no_cache_write usage) tier.cache_write combined.cache_write four_covers.3
          (unused_both usage.cache_write_tokens usage.cache_write_1h_tokens used)),
  )

over_272k-AreReplaced :
    (spec : ModelSpec) (usage : Usage) (tier : ServiceTier) (rates used : TokenRates)
    → over_272k spec (tiered usage tier) tier rates ≡ some used
    → AreReplaced usage (tier_rates spec tier) (combined_rates spec tier) used
over_272k-AreReplaced spec usage tier rates used h =
    let own = tier_rates spec tier in
    let combined = combined_rates spec tier in
    let base = overlay (above_272k spec) rates in
    let covered = combined_rates_cover_usage (tiered usage tier) own combined in
    elim (Bool-cases covered) [
      | inl yes_covered ↦
          let same : overlay combined base ≡ used = ground arith in
          subst (λ u. AreReplaced usage own combined u) same
            (AreReplaced-overlay (tiered usage tier) own combined yes_covered base)
      | inr not_covered ↦ absurd (ground arith)
    ]

rates_above_272k-AreReplaced :
    (spec : ModelSpec) (usage : Usage) (tier : ServiceTier) (rates used : TokenRates)
    → rates_above_272k spec (tiered usage tier) rates ≡ some used
    → AreReplaced usage (tier_rates spec tier) (combined_rates spec tier) used
unfolding rates_above_272k
rates_above_272k-AreReplaced spec usage tier_standard rates used h = (
  λ _ nil. absurd (ground arith),
  λ _ nil. absurd (ground arith),
  λ _ nil. absurd (ground arith),
  λ _ nil. absurd (ground arith),
)
rates_above_272k-AreReplaced spec usage unknown_tier rates used h = (
  λ _ nil. absurd (ground arith),
  λ _ nil. absurd (ground arith),
  λ _ nil. absurd (ground arith),
  λ _ nil. absurd (ground arith),
)
rates_above_272k-AreReplaced spec usage tier_batch rates used h =
    over_272k-AreReplaced spec usage tier_batch rates used h
rates_above_272k-AreReplaced spec usage tier_priority rates used h =
    over_272k-AreReplaced spec usage tier_priority rates used h
rates_above_272k-AreReplaced spec usage tier_flex rates used h =
    over_272k-AreReplaced spec usage tier_flex rates used h

-- The counts that make up the prompt.
abbrev pub prompt_counts : Usage → List ℤ
prompt_counts usage =
    usage.uncached_input_tokens ∷ usage.cached_input_tokens ∷ usage.cache_write_tokens
    ∷ usage.cache_write_1h_tokens ∷ []

-- One of the rates is there.
abbrev pub IsListedRate : FourRates → Type 0
IsListedRate four =
    (is_nil four.input ≡ false)
    ⊎ ((is_nil four.output ≡ false)
        ⊎ ((is_nil four.cache_read ≡ false) ⊎ (is_nil four.cache_write ≡ false)))

any_of_four_lem : (four : FourRates) → IsListedRate four → any_of_four four ≡ true
unfolding has_any_rate first_rate
any_of_four_lem four h = ground arith

-- Let the catalog list a rate of its own for prompts above 272,000 tokens, and let a request have a
-- prompt of more tokens than that: the sum of its counts of uncached and cached input and of both
-- kinds of cache writes, each at most the greatest int64, with negative counts left out. If it gets
-- rates then, for every kind of tokens that it used and that the catalog has a rate of the request's
-- tier for, the catalog has a rate of that tier above 272,000 tokens too, and that is the rate taken.
-- Cache writes kept for an hour count as a use of the input rate and of the rate of cache writes.
pub rates_for_usage-AreReplaced :
    (spec : ModelSpec) (usage : Usage) (tier : ServiceTier) (used : TokenRates)
    → AreInt64 (prompt_counts usage)
    → 272_000 < plain_sum (prompt_counts usage)
    → IsListedRate (above_272k spec)
    → rates_for_usage spec (tiered usage tier) ≡ some used
    → AreReplaced usage (tier_rates spec tier) (combined_rates spec tier) used
unfolding rates_for_usage
rates_for_usage-AreReplaced spec usage tier used fit long listed h =
    let total = sum_non_negative-plain_sum (prompt_counts usage) fit in
    let over : ltb 272_000 (sum_non_negative (prompt_counts usage)) ≡ true = ground arith in
    let any = any_of_four_lem (above_272k spec) listed in
    rates_above_272k-AreReplaced spec usage tier (rates_of_tier spec tier) used (ground arith)
