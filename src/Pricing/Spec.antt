-- ===== src/Pricing/Spec.antt =====
-- internal/pricing/catalog.go: what a request used, and the prices that the catalog has of a model.
use clipal.Common.{Bool, List, ℤ, Text}
use clipal.Pricing.Rational.{Rate}

pub data Platform : Type 0 where
  platform_openai platform_anthropic platform_gemini : Platform

-- `unknown_tier` is any string but the four.
pub data ServiceTier : Type 0 where
  tier_standard tier_batch tier_priority tier_flex unknown_tier : ServiceTier

pub record Usage : Type 0 where
  pub uncached_input_tokens : ℤ
  pub cached_input_tokens : ℤ
  pub cache_write_tokens : ℤ
  pub cache_write_1h_tokens : ℤ
  pub audio_input_tokens : ℤ
  pub output_tokens : ℤ
  pub reasoning_tokens : ℤ
  pub search_queries : ℤ
  pub search_context_size : Text
  pub service_tier : ServiceTier
  pub fast_mode : Bool
  pub inference_geo : Text

pub record ModelSpec : Type 0 where
  pub platform : Text
  pub input : Rate
  pub output : Rate
  pub cache_read : Rate
  pub cache_write : Rate
  pub cache_write_1h : Rate
  pub audio_input : Rate
  pub reasoning_output : Rate
  pub batch_input : Rate
  pub batch_output : Rate
  pub batch_cache_read : Rate
  pub batch_cache_write : Rate
  pub priority_input : Rate
  pub priority_output : Rate
  pub priority_cache_read : Rate
  pub priority_cache_write : Rate
  pub flex_input : Rate
  pub flex_output : Rate
  pub flex_cache_read : Rate
  pub flex_cache_write : Rate
  pub above_200k_input : Rate
  pub above_200k_output : Rate
  pub above_200k_cache_read : Rate
  pub above_200k_cache_write : Rate
  pub above_272k_input : Rate
  pub above_272k_output : Rate
  pub above_272k_cache_read : Rate
  pub above_272k_cache_write : Rate
  pub above_272k_flex_input : Rate
  pub above_272k_flex_output : Rate
  pub above_272k_flex_cache_read : Rate
  pub above_272k_flex_cache_write : Rate
  pub above_272k_priority_input : Rate
  pub above_272k_priority_output : Rate
  pub above_272k_priority_cache_read : Rate
  pub above_272k_priority_cache_write : Rate
  pub above_272k_batch_input : Rate
  pub above_272k_batch_output : Rate
  pub above_272k_batch_cache_read : Rate
  pub above_272k_batch_cache_write : Rate
  pub search_context : List (Text × Rate)
  pub fast_mode_uplift : Rate
  pub regional_us_uplift : Rate
