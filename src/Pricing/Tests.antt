-- ===== src/Pricing/Tests.antt =====
-- A model with prices for a tier, and requests of it.
use clipal.Common.{
  ℕ, inl, inr, ◌≡◌, refl, false, arith, List, [], ◌∷◌, none, some, pos, negsuc, Text, text, eq_text,
  trim_space, has_prefix, trim_prefix,
}
use clipal.Pricing.Rational.{
  Rate, sum_from, has_any_rate, sum_non_negative, round_rat_checked, first_rate, non_negative,
}
use clipal.Pricing.Decimal.{decimal_rat, is_exponent, has_exponent, micros, dollars_to_micros}
use clipal.Pricing.Amounts.{IsTimesTen, dollars_to_micros-IsRounded}
use clipal.Pricing.Rational.{IsRounded}
use clipal.Pricing.Spec.{Usage, ModelSpec, tier_batch}
use clipal.Pricing.Rates.{
  TokenRates, rates_above_272k, tier_rates, combined_rates, combined_rates_cover_usage, covers,
  rates_for_usage, rates_of_tier,
}
use clipal.Pricing.Tiers.{AreReplaced, rates_for_usage-AreReplaced}

-- n millionths of a dollar for each token.
abbrev per_token : ℕ → Rate
per_token n = some (record { num = n; den = 1_000_000 })

abbrev sonnet : ModelSpec
sonnet = record {
  platform = text "anthropic";
  search_context = [];
  input = per_token 3;
  output = per_token 15;
  cache_read = none;
  cache_write = none;
  cache_write_1h = none;
  audio_input = none;
  reasoning_output = none;
  batch_input = none;
  batch_output = per_token 7;
  batch_cache_read = none;
  batch_cache_write = none;
  priority_input = none;
  priority_output = none;
  priority_cache_read = none;
  priority_cache_write = none;
  flex_input = none;
  flex_output = none;
  flex_cache_read = none;
  flex_cache_write = none;
  above_200k_input = none;
  above_200k_output = none;
  above_200k_cache_read = none;
  above_200k_cache_write = none;
  above_272k_input = none;
  above_272k_output = per_token 30;
  above_272k_cache_read = none;
  above_272k_cache_write = none;
  above_272k_flex_input = none;
  above_272k_flex_output = none;
  above_272k_flex_cache_read = none;
  above_272k_flex_cache_write = none;
  above_272k_priority_input = none;
  above_272k_priority_output = none;
  above_272k_priority_cache_read = none;
  above_272k_priority_cache_write = none;
  above_272k_batch_input = none;
  above_272k_batch_output = per_token 20;
  above_272k_batch_cache_read = none;
  above_272k_batch_cache_write = none;
  fast_mode_uplift = none;
  regional_us_uplift = none;
}

abbrev models : List (Text × ModelSpec)
models = (text "claude-sonnet", sonnet) ∷ []

abbrev used : Usage
used = record {
  uncached_input_tokens = pos 300_000;
  cached_input_tokens = pos 0;
  cache_write_tokens = pos 0;
  cache_write_1h_tokens = pos 0;
  audio_input_tokens = pos 0;
  output_tokens = pos 100;
  reasoning_tokens = pos 40;
  search_queries = pos 0;
  search_context_size = [];
  service_tier = tier_batch;
  fast_mode = false;
  inference_geo = [];
}

abbrev own_rates : TokenRates
own_rates = record {
  input = per_token 3;
  output = per_token 20;
  cache_read = none;
  cache_write = none;
  audio_input = none;
  reasoning = none;
}

-- " 2.5e-3 " is 2,500 millionths.
dollars_to_micros-IsRounded_example :
    (a : ℕ) × (d : ℕ) × IsTimesTen 25 (negsuc 2) 1 a d
    × IsRounded (micros a d) (dollars_to_micros (λ s. some (negsuc 2)) (text " 2.5e-3 "))
unfolding trim_space is_exponent has_exponent
dollars_to_micros-IsRounded_example =
    dollars_to_micros-IsRounded (λ s. some (negsuc 2)) (text " 2.5e-3 ") (2 ∷ []) (some (5 ∷ []))
      (some (b'e', text "-3")) (negsuc 2) (omega arith, tt) (omega arith, tt)
      (refl, refl, refl, omega arith, omega arith) (omega arith) (omega arith) (omega arith) refl

micros_read : dollars_to_micros (λ s. some (negsuc 2)) (text " 2.5e-3 ") ≡ some 2_500
unfolding dollars_to_micros decimal_rat round_rat_checked trim_space eq_text has_prefix trim_prefix
micros_read = refl

rates_for_usage-AreReplaced_example :
    AreReplaced used (tier_rates sonnet tier_batch) (combined_rates sonnet tier_batch) own_rates
unfolding rates_for_usage rates_of_tier sum_non_negative sum_from non_negative has_any_rate
    rates_above_272k combined_rates_cover_usage covers first_rate
rates_for_usage-AreReplaced_example =
    rates_for_usage-AreReplaced sonnet used tier_batch own_rates
      (omega arith, (omega arith, (omega arith, (omega arith, tt)))) (omega arith) (inr (inl refl))
      refl
