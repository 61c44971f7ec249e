-- ===== src/Pricing/Cost.antt =====
-- internal/pricing/calculator.go: the cost of a request.
use clipal.Common.{
  ℕ, Bool, ◌&&◌, ◌||◌, not, if◌then◌else◌, List, [], ◌∷◌, ◌++◌, Option, none, some, ℤ, pos, ◌-ℤ◌,
  ltb_ℤ, Text, text, eq_text, trim_space, equal_fold,
}
use clipal.Common.Maps.{lookup}
use clipal.Pricing.Rational.{
  Rational, Rate, whole, mul, quo, is_nil, first_rate, non_negative, round_rat, add_token_cost,
}
use clipal.Pricing.Spec.{Platform, ModelSpec, Usage}
use clipal.Pricing.Rates.{TokenRates, rates_for_usage, is_positive}
use clipal.Pricing.Candidates.{resolve_model_with_provider}

abbrev zero_cost : Rational
zero_cost = record { num = 0; den = 1 }

-- `rate{}` for a key that is missing.
abbrev rate_at : Option Rate → Rate
rate_at none = none
rate_at (some r) = r

unfoldable pub search_rate : List (Text × Rate) → Text → Rate
search_rate prices context_size =
    let price = rate_at (lookup prices (text "search_context_size_" ++ context_size)) in
    if is_nil price then rate_at (lookup prices (text "search_context_size_medium")) else price

unfoldable pub add_search_cost : Rational → List (Text × Rate) → Usage → Rational
add_search_cost total prices usage =
    if not (is_positive usage.search_queries)
    then total
    else add_token_cost total usage.search_queries (search_rate prices usage.search_context_size)
        (whole 1)

unfoldable pub cache_write_1h_rate : ModelSpec → TokenRates → Rate
cache_write_1h_rate spec rates = elim spec.cache_write_1h [
  | none ↦ first_rate (spec.cache_write_1h ∷ rates.cache_write ∷ rates.input ∷ [])
  | some per_hour ↦ elim spec.input [
    | none ↦ first_rate (spec.cache_write_1h ∷ rates.cache_write ∷ rates.input ∷ [])
    | some base ↦ elim rates.input [
      | none ↦ first_rate (spec.cache_write_1h ∷ rates.cache_write ∷ rates.input ∷ [])
      | some input ↦ some (quo (mul input per_hour) base)
    ]
  ]
]

unfoldable pub fast_mode_fallback_uplift : Text → Option ℕ
fast_mode_fallback_uplift model_id =
    if eq_text model_id (text "claude-opus-4-6")
      || eq_text model_id (text "claude-opus-4-6-20260205")
    then some 6
    else none

abbrev uplift : Rational → Rate → Rational
uplift multiplier none = multiplier
uplift multiplier (some r) = mul multiplier r

abbrev fast_uplift : Rate → Option ℕ → Rate
fast_uplift (some r) fallback = some r
fast_uplift none none = none
fast_uplift none (some n) = some (whole n)

unfoldable pub token_rate_multiplier : Text → ModelSpec → Usage → Rational
token_rate_multiplier model_id spec usage =
    let fast =
      if usage.fast_mode
      then uplift (whole 1) (fast_uplift spec.fast_mode_uplift (fast_mode_fallback_uplift model_id))
      else whole 1 in
    if equal_fold (trim_space usage.inference_geo) (text "us")
    then uplift fast spec.regional_us_uplift
    else fast

-- The counts that `CostMicrosForProvider` refuses at once.
abbrev pub is_negative : ℤ → Bool
is_negative value = ltb_ℤ value (pos 0)

unfoldable pub is_malformed : Usage → Bool
is_malformed usage =
    is_negative usage.uncached_input_tokens
    || (is_negative usage.cached_input_tokens
        || (is_negative usage.cache_write_tokens
            || (is_negative usage.cache_write_1h_tokens
                || (is_negative usage.audio_input_tokens
                    || (is_negative usage.output_tokens
                        || (is_negative usage.reasoning_tokens
                            || (is_negative usage.search_queries
                                || (ltb_ℤ usage.uncached_input_tokens usage.audio_input_tokens
                                    || ltb_ℤ usage.output_tokens usage.reasoning_tokens))))))))

abbrev text_input : Usage → ℤ
text_input usage = non_negative usage.uncached_input_tokens -ℤ non_negative usage.audio_input_tokens

abbrev text_output : Usage → ℤ
text_output usage = non_negative usage.output_tokens -ℤ non_negative usage.reasoning_tokens

-- A kind of tokens that the request used has no rate.
unfoldable pub is_unpriced : ModelSpec → TokenRates → Usage → Bool
is_unpriced spec rates usage =
    (is_positive (text_input usage) && is_nil rates.input)
    || ((is_positive (non_negative usage.audio_input_tokens)
          && is_nil (first_rate (rates.audio_input ∷ rates.input ∷ [])))
        || ((is_positive usage.cached_input_tokens
              && is_nil (first_rate (rates.cache_read ∷ rates.input ∷ [])))
            || ((is_positive usage.cache_write_tokens
                  && is_nil (first_rate (rates.cache_write ∷ rates.input ∷ [])))
                || ((is_positive usage.cache_write_1h_tokens
                      && is_nil (cache_write_1h_rate spec rates))
                    || ((is_positive (text_output usage) && is_nil rates.output)
                        || ((is_positive (non_negative usage.reasoning_tokens)
                              && is_nil (first_rate (rates.reasoning ∷ rates.output ∷ [])))
                            || (is_positive usage.search_queries
                                && is_nil (
                                    search_rate spec.search_context
                                      usage.search_context_size))))))))

unfoldable pub total_cost : Text → ModelSpec → TokenRates → Usage → Rational
total_cost model_id spec rates usage =
    let m = token_rate_multiplier model_id spec usage in
    let a = add_token_cost zero_cost (text_input usage) rates.input m in
    let b =
      add_token_cost a (non_negative usage.audio_input_tokens)
        (first_rate (rates.audio_input ∷ rates.input ∷ [])) m in
    let c =
      add_token_cost b (non_negative usage.cached_input_tokens)
        (first_rate (rates.cache_read ∷ rates.input ∷ [])) m in
    let d =
      add_token_cost c (non_negative usage.cache_write_tokens)
        (first_rate (rates.cache_write ∷ rates.input ∷ [])) m in
    let e =
      add_token_cost d (non_negative usage.cache_write_1h_tokens) (cache_write_1h_rate spec rates)
        m in
    let f = add_token_cost e (text_output usage) rates.output m in
    let g =
      add_token_cost f (non_negative usage.reasoning_tokens)
        (first_rate (rates.reasoning ∷ rates.output ∷ [])) m in
    add_search_cost g spec.search_context usage

abbrev has_no_rates : TokenRates → Bool
has_no_rates rates =
    is_nil rates.input
    && (is_nil rates.output && (is_nil rates.cache_read && is_nil rates.cache_write))

abbrev pub cost_of_model : Text × ModelSpec → Usage → Option ℕ
cost_of_model (model_id, spec) usage = elim (rates_for_usage spec usage) [
  | none ↦ none
  | some rates ↦
      if has_no_rates rates
      then none
      else if is_unpriced spec rates usage
      then none
      else some (round_rat (total_cost model_id spec rates usage))
]

-- `none` is the result `0, false`.
unfoldable pub cost_micros_for_provider :
    Option (List (Text × ModelSpec)) → Text → Platform → Text → Usage → Option ℕ
cost_micros_for_provider catalog model platform provider_hint usage =
    if is_malformed usage
    then none
    else elim (resolve_model_with_provider catalog model platform provider_hint) [
      | none ↦ none
      | some found ↦ cost_of_model found usage
    ]

unfoldable pub cost_micros : Option (List (Text × ModelSpec)) → Text → Platform → Usage → Option ℕ
cost_micros catalog model platform usage = cost_micros_for_provider catalog model platform [] usage
