-- ===== src/Pricing/Rational.antt =====
-- The fractions of math/big that prices are, and internal/pricing/calculator.go: how they are summed
-- and rounded. A price is not negative. The denominator is zero only where Go's `Quo` panics.
use clipal.Common.{
  ℕ, suc, ◌+◌, ◌*◌, ◌-◌, ◌/◌, ◌%◌, ◌^◌, ◌≤◌, ◌<◌, ◌≡◌, ltb, leb, Bool, true, false, if◌then◌else◌,
  List, [], ◌∷◌, Option, none, some, ℤ, pos, negsuc, pos_part, arith, Bool-cases, inl, inr, leb→le,
}

pub record Rational : Type 0 where
  pub num : ℕ
  pub den : ℕ

-- `rate`: nil where the catalog has no price.
abbrev pub Rate : Type 0
Rate = Option Rational

abbrev pub whole : ℕ → Rational
whole n = record { num = n; den = 1 }

abbrev pub mul : Rational → Rational → Rational
mul a b = record { num = a.num * b.num; den = a.den * b.den }

abbrev pub add : Rational → Rational → Rational
add a b = record { num = a.num * b.den + b.num * a.den; den = a.den * b.den }

abbrev pub quo : Rational → Rational → Rational
quo a b = record { num = a.num * b.den; den = a.den * b.num }

abbrev pub max_int64 : ℕ
max_int64 = 2 ^ 63 - 1

unfoldable pub non_negative : ℤ → ℤ
non_negative (pos n) = pos n
non_negative (negsuc n) = pos 0

-- The loop of `sumNonNegative`, from a total that is not negative.
unfoldable pub sum_from : ℕ → List ℤ → ℕ
sum_from total [] = total
sum_from total (value ∷ values) =
    let v = pos_part (non_negative value) in
    let rest = sum_from (total + v) values in if ltb (max_int64 - v) total then max_int64 else rest

unfoldable pub sum_non_negative : List ℤ → ℕ
sum_non_negative values = sum_from 0 values

-- The nearest whole number, halves up; `none` if it does not fit an int64.
unfoldable pub round_rat_checked : Rational → Option ℕ
round_rat_checked value =
    let quotient = value.num / value.den in
    let remainder = value.num % value.den in
    let rounded = if leb value.den (2 * remainder) then quotient + 1 else quotient in
    if leb rounded max_int64 then some rounded else none

unfoldable pub round_rat : Rational → ℕ
round_rat value = elim (round_rat_checked value) [ none ↦ max_int64 | some n ↦ n ]

-- The first rate that the catalog has.
unfoldable pub first_rate : List Rate → Rate
first_rate [] = none
first_rate (none ∷ rates) = first_rate rates
first_rate (some r ∷ rates) = some r

abbrev pub is_nil : Rate → Bool
is_nil none = true
is_nil (some r) = false

unfoldable pub has_any_rate : List Rate → Bool
has_any_rate rates = elim (first_rate rates) [ none ↦ false | some r ↦ true ]

abbrev pub micros_per_dollar : ℕ
micros_per_dollar = 1_000_000

unfoldable pub add_token_cost : Rational → ℤ → Rate → Rational → Rational
add_token_cost total (pos (suc n)) (some price) multiplier =
    add total (mul (mul (mul price (whole (suc n))) (whole micros_per_dollar)) multiplier)
add_token_cost total units price multiplier = total

-- The sum of the values that are not negative.
abbrev pub plain_sum : List ℤ → ℕ
plain_sum [] = 0
plain_sum (value ∷ values) = pos_part value + plain_sum values

-- No value is greater than an int64 can be.
abbrev pub AreInt64 : List ℤ → Type 0
AreInt64 [] = Unit {0}
AreInt64 (value ∷ values) = (pos_part value ≤ max_int64) × AreInt64 values

sum_from-plain_sum :
    (values : List ℤ) (total : ℕ)
    → AreInt64 values
    → total ≤ max_int64
    → sum_from total values
      ≡ (if leb (total + plain_sum values) max_int64 then total + plain_sum values else max_int64)
unfolding sum_from non_negative
sum_from-plain_sum [] total fit h = ground arith
sum_from-plain_sum (pos n ∷ values) total (f, fit) h =
    ground (arith, sum_from-plain_sum values (total + n) fit)
sum_from-plain_sum (negsuc n ∷ values) total (f, fit) h =
    ground (arith, sum_from-plain_sum values (total + 0) fit)

-- The sum of token counts, each an int64, leaves out the negative ones and stops at the greatest
-- int64 where the exact sum would pass it.
pub sum_non_negative-plain_sum :
    (values : List ℤ)
    → AreInt64 values
    → sum_non_negative values
      ≡ (if leb (plain_sum values) max_int64 then plain_sum values else max_int64)
unfolding sum_non_negative
sum_non_negative-plain_sum values fit = ground (arith, sum_from-plain_sum values 0 fit)

-- `n` is the whole number nearest to the fraction, and the greater one of two.
abbrev pub IsNearest : Rational → ℕ → Type 0
IsNearest value n =
    (2 * n * value.den ≤ 2 * value.num + value.den) × (2 * value.num < (2 * n + 1) * value.den)

abbrev pub IsRounded : Rational → Option ℕ → Type 0
IsRounded value none = (n : ℕ) × IsNearest value n × (max_int64 < n)
IsRounded value (some n) = IsNearest value n × (n ≤ max_int64)

nearest : (value : Rational) → ℕ
nearest value =
    if leb value.den (2 * (value.num % value.den))
    then value.num / value.den + 1
    else value.num / value.den

nearest-IsNearest : (value : Rational) → 0 < value.den → IsNearest value (nearest value)
unfolding nearest
nearest-IsNearest value h = grind arith

round_rat_checked_fits :
    (value : Rational)
    → leb (nearest value) max_int64 ≡ true
    → round_rat_checked value ≡ some (nearest value)
unfolding round_rat_checked nearest
round_rat_checked_fits value h = ground arith

round_rat_checked_over :
    (value : Rational) → leb (nearest value) max_int64 ≡ false → round_rat_checked value ≡ none
unfolding round_rat_checked nearest
round_rat_checked_over value h = ground arith

-- A price is rounded to the nearest whole number, halves up; it is refused exactly where that number
-- does not fit an int64.
pub round_rat_checked-IsRounded :
    (value : Rational) → 0 < value.den → IsRounded value (round_rat_checked value)
round_rat_checked-IsRounded value h =
    let near = nearest-IsNearest value h in
    elim (Bool-cases (leb (nearest value) max_int64)) [
      | inl fits ↦
          rw (round_rat_checked_fits value fits) (near, leb→le (nearest value) max_int64 fits)
      | inr over ↦ rw (round_rat_checked_over value over) (nearest value, near, ground arith)
    ]

-- What is charged is never more than an int64 holds.
pub round_rat-le : (value : Rational) → round_rat value ≤ max_int64
unfolding round_rat round_rat_checked
round_rat-le value = ground arith
