-- ===== src/Pricing/Rates.antt =====
-- internal/pricing/calculator.go: which rates hold for a request.
use clipal.Common.{
  ℕ, ltb, Bool, true, false, ◌&&◌, ◌||◌, not, if◌then◌else◌, [], ◌∷◌, Option, none, some, ℤ, pos,
  ltb_ℤ, leb_ℤ,
}
use clipal.Pricing.Rational.{Rate, is_nil, first_rate, has_any_rate, sum_non_negative}
use clipal.Pricing.Spec.{
  ModelSpec, Usage, ServiceTier, tier_standard, tier_batch, tier_priority, tier_flex,
}

pub record TokenRates : Type 0 where
  pub input : Rate
  pub output : Rate
  pub cache_read : Rate
  pub cache_write : Rate
  pub audio_input : Rate
  pub reasoning : Rate

abbrev above_200k_threshold : ℕ
above_200k_threshold = 200_000

abbrev above_272k_threshold : ℕ
above_272k_threshold = 272_000

-- value > 0
abbrev pub is_positive : ℤ → Bool
is_positive value = ltb_ℤ (pos 0) value

-- value <= 0
abbrev pub is_unused : ℤ → Bool
is_unused value = leb_ℤ value (pos 0)

-- The four rates that depend on the tier.
pub record FourRates : Type 0 where
  pub input : Rate
  pub output : Rate
  pub cache_read : Rate
  pub cache_write : Rate

-- One kind of tokens is not used, has no rate of the tier, or has one of the tier above 272,000.
unfoldable pub covers : Bool → Rate → Rate → Bool
covers unused tier combined = unused || (is_nil tier || not (is_nil combined))

abbrev pub no_input : Usage → Bool
no_input usage = is_unused usage.uncached_input_tokens && is_unused usage.cache_write_1h_tokens

abbrev pub no_cache_write : Usage → Bool
no_cache_write usage = is_unused usage.cache_write_tokens && is_unused usage.cache_write_1h_tokens

unfoldable pub combined_rates_cover_usage : Usage → FourRates → FourRates → Bool
combined_rates_cover_usage usage tier combined =
    covers (no_input usage) tier.input combined.input
    && (covers (is_unused usage.output_tokens) tier.output combined.output
        && (covers (is_unused usage.cached_input_tokens) tier.cache_read combined.cache_read
            && covers (no_cache_write usage) tier.cache_write combined.cache_write))

unfoldable pub usage_uses_rates : Usage → FourRates → Bool
usage_uses_rates usage rates =
    ((is_positive usage.uncached_input_tokens || is_positive usage.cache_write_1h_tokens)
      && not (is_nil rates.input))
    || ((is_positive usage.output_tokens && not (is_nil rates.output))
        || ((is_positive usage.cached_input_tokens && not (is_nil rates.cache_read))
            || ((is_positive usage.cache_write_tokens || is_positive usage.cache_write_1h_tokens)
                && not (is_nil rates.cache_write))))

-- The rates of the catalog for a tier, and for a tier above 272,000 tokens.
abbrev pub tier_rates : ModelSpec → ServiceTier → FourRates
tier_rates spec tier_batch = record {
  input = spec.batch_input;
  output = spec.batch_output;
  cache_read = spec.batch_cache_read;
  cache_write = spec.batch_cache_write;
}
tier_rates spec tier_priority = record {
  input = spec.priority_input;
  output = spec.priority_output;
  cache_read = spec.priority_cache_read;
  cache_write = spec.priority_cache_write;
}
tier_rates spec tier_flex = record {
  input = spec.flex_input;
  output = spec.flex_output;
  cache_read = spec.flex_cache_read;
  cache_write = spec.flex_cache_write;
}
tier_rates spec _ = record { input = none; output = none; cache_read = none; cache_write = none }

abbrev pub combined_rates : ModelSpec → ServiceTier → FourRates
combined_rates spec tier_batch = record {
  input = spec.above_272k_batch_input;
  output = spec.above_272k_batch_output;
  cache_read = spec.above_272k_batch_cache_read;
  cache_write = spec.above_272k_batch_cache_write;
}
combined_rates spec tier_priority = record {
  input = spec.above_272k_priority_input;
  output = spec.above_272k_priority_output;
  cache_read = spec.above_272k_priority_cache_read;
  cache_write = spec.above_272k_priority_cache_write;
}
combined_rates spec tier_flex = record {
  input = spec.above_272k_flex_input;
  output = spec.above_272k_flex_output;
  cache_read = spec.above_272k_flex_cache_read;
  cache_write = spec.above_272k_flex_cache_write;
}
combined_rates spec _ = record {
  input = none;
  output = none;
  cache_read = none;
  cache_write = none;
}

unfoldable pub tier_rates_affect_usage : ModelSpec → Usage → Bool
tier_rates_affect_usage spec usage = elim usage.service_tier [
  | tier_batch ↦ usage_uses_rates usage (tier_rates spec tier_batch)
  | tier_priority ↦ usage_uses_rates usage (tier_rates spec tier_priority)
  | tier_flex ↦ usage_uses_rates usage (tier_rates spec tier_flex)
  | _ ↦ false
]

abbrev base_rates : ModelSpec → TokenRates
base_rates spec = record {
  input = spec.input;
  output = spec.output;
  cache_read = spec.cache_read;
  cache_write = spec.cache_write;
  audio_input = spec.audio_input;
  reasoning = spec.reasoning_output;
}

-- Each rate is the first of the two that there is.
abbrev pub overlay : FourRates → TokenRates → TokenRates
overlay four rates = record rates {
  input = first_rate (four.input ∷ rates.input ∷ []);
  output = first_rate (four.output ∷ rates.output ∷ []);
  cache_read = first_rate (four.cache_read ∷ rates.cache_read ∷ []);
  cache_write = first_rate (four.cache_write ∷ rates.cache_write ∷ []);
}

-- The rates after the first `switch`; a tier without rates of its own has the base rates.
unfoldable pub rates_of_tier : ModelSpec → ServiceTier → TokenRates
rates_of_tier spec tier_batch = overlay (tier_rates spec tier_batch) (base_rates spec)
rates_of_tier spec tier_priority = overlay (tier_rates spec tier_priority) (base_rates spec)
rates_of_tier spec tier_flex = overlay (tier_rates spec tier_flex) (base_rates spec)
rates_of_tier spec _ = base_rates spec

abbrev pub above_272k : ModelSpec → FourRates
above_272k spec = record {
  input = spec.above_272k_input;
  output = spec.above_272k_output;
  cache_read = spec.above_272k_cache_read;
  cache_write = spec.above_272k_cache_write;
}

abbrev above_200k : ModelSpec → FourRates
above_200k spec = record {
  input = spec.above_200k_input;
  output = spec.above_200k_output;
  cache_read = spec.above_200k_cache_read;
  cache_write = spec.above_200k_cache_write;
}

abbrev pub any_of_four : FourRates → Bool
any_of_four four = has_any_rate (four.input ∷ four.output ∷ four.cache_read ∷ four.cache_write ∷ [])

-- The rates of a tier above 272,000 tokens, if the catalog covers what the request used of it.
abbrev pub over_272k : ModelSpec → Usage → ServiceTier → TokenRates → Option TokenRates
over_272k spec usage tier rates =
    if not (combined_rates_cover_usage usage (tier_rates spec tier) (combined_rates spec tier))
    then none
    else some (overlay (combined_rates spec tier) (overlay (above_272k spec) rates))

unfoldable pub rates_above_272k : ModelSpec → Usage → TokenRates → Option TokenRates
rates_above_272k spec usage rates = elim usage.service_tier [
  | tier_batch ↦ over_272k spec usage tier_batch rates
  | tier_priority ↦ over_272k spec usage tier_priority rates
  | tier_flex ↦ over_272k spec usage tier_flex rates
  | _ ↦ some (overlay (above_272k spec) rates)
]

abbrev is_standard : ServiceTier → Bool
is_standard tier_standard = true
is_standard _ = false

unfoldable pub rates_above_200k : ModelSpec → Usage → TokenRates → Option TokenRates
rates_above_200k spec usage rates =
    if not (is_standard usage.service_tier) && tier_rates_affect_usage spec usage
    then none
    else some (overlay (above_200k spec) rates)

unfoldable pub rates_for_usage : ModelSpec → Usage → Option TokenRates
rates_for_usage spec usage =
    let rates = rates_of_tier spec usage.service_tier in
    let input_tokens = sum_non_negative (
      usage.uncached_input_tokens ∷ usage.cached_input_tokens ∷ usage.cache_write_tokens
      ∷ usage.cache_write_1h_tokens ∷ []) in
    if ltb above_272k_threshold input_tokens && any_of_four (above_272k spec)
    then rates_above_272k spec usage rates
    else if ltb above_200k_threshold input_tokens && any_of_four (above_200k spec)
    then rates_above_200k spec usage rates
    else some rates
