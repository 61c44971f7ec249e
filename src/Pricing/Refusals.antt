-- ===== src/Pricing/Refusals.antt =====
-- CostMicrosForProvider of internal/pricing/calculator.go: what a request must be to be priced.
use clipal.Common.{pos, ◌≤ℤ◌}
use clipal.Pricing.Spec.{Usage}

-- The counts of a request that can be priced.
abbrev pub IsCounted : Usage → Type 0
IsCounted usage =
    (pos 0 ≤ℤ usage.uncached_input_tokens)
    × (pos 0 ≤ℤ usage.cached_input_tokens)
    × (pos 0 ≤ℤ usage.cache_write_tokens)
    × (pos 0 ≤ℤ usage.cache_write_1h_tokens)
    × (pos 0 ≤ℤ usage.output_tokens)
    × (pos 0 ≤ℤ usage.search_queries)
    × (pos 0 ≤ℤ usage.audio_input_tokens)
    × (usage.audio_input_tokens ≤ℤ usage.uncached_input_tokens)
    × (pos 0 ≤ℤ usage.reasoning_tokens)
    × (usage.reasoning_tokens ≤ℤ usage.output_tokens)
