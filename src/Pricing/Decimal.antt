-- ===== src/Pricing/Decimal.antt =====
-- internal/pricing/catalog.go and calculator.go: how a price is read. `strconv.Atoi` is a parameter.
use clipal.Common.{
  ℕ, zero, suc, ◌+◌, ◌*◌, ◌-◌, ◌^◌, ◌≡◌, refl, ltb, leb, ◌==◌, Bool, false, ◌&&◌, ◌||◌,
  if◌then◌else◌, List, [], ◌∷◌, ◌++◌, length, Option, none, some, ℤ, pos, negsuc, ltb_ℤ, ◌-ℤ◌, Text,
  text, eq_text, is_empty, has_prefix, trim_prefix, trim_space,
}
use clipal.Pricing.Rational.{Rational, mul, whole, micros_per_dollar, round_rat_checked}

-- `priced n d` is the fraction n/d; `absent` is the nil that is no error.
pub data Price : Type 0 where
  absent failed : Price
  priced : ℤ → ℕ → Price

unfoldable pub is_exponent : ℕ → Bool
is_exponent c = (c == b'e') || (c == b'E')

-- What stands before and after the first `e` or `E`.
unfoldable pub cut_exponent : Text → Option (Text × Text)
cut_exponent [] = none
cut_exponent (c ∷ s) =
    let later : Option (Text × Text) = elim (cut_exponent s) [
      | none ↦ none
      | some (before, after) ↦ some (c ∷ before, after)
    ] in
    if is_exponent c then some ([], s) else later

unfoldable pub has_exponent : Text → Bool
has_exponent [] = false
has_exponent (c ∷ s) = is_exponent c || has_exponent s

-- strings.Split(s, "."), as the first part and the others.
unfoldable pub split_dots : Text → Text × List Text
split_dots [] = ([], [])
split_dots (c ∷ s) =
    let rest = split_dots s in if c == b'.' then ([], rest.0 ∷ rest.1) else (c ∷ rest.0, rest.1)

-- The value of decimal digits, the first of them the highest.
unfoldable pub digits_value : ℕ → Text → Option ℕ
digits_value acc [] = some acc
digits_value acc (c ∷ s) =
    let rest = digits_value (10 * acc + (c - b'0')) s in
    if leb b'0' c && leb c b'9' then rest else none

abbrev negated : Option ℕ → Option ℤ
negated none = none
negated (some zero) = some (pos 0)
negated (some (suc n)) = some (negsuc n)

abbrev pub unsigned : Option ℕ → Option ℤ
unsigned none = none
unsigned (some n) = some (pos n)

-- new(big.Int).SetString(digits, 10), which takes a sign.
unfoldable pub set_string : Text → Option ℤ
unfolding digits_value
set_string [] = none
set_string (c ∷ s) =
    if c == b'-'
    then if is_empty s then none else negated (digits_value 0 s)
    else if c == b'+'
    then if is_empty s then none else unsigned (digits_value 0 s)
    else unsigned (digits_value 0 (c ∷ s))

abbrev scaled : ℤ → ℕ → ℤ
scaled (pos n) factor = pos (n * factor)
scaled (negsuc n) factor = if factor == 0 then pos 0 else negsuc (suc n * factor - 1)

-- The fraction of a numerator and the number of digits that are behind the point.
abbrev pub with_scale : ℤ → ℤ → Price
with_scale numerator (pos scale) = priced numerator (10 ^ scale)
with_scale numerator (negsuc n) = priced (scaled numerator (10 ^ suc n)) 1

abbrev pub of_digits : Text → ℤ → Price
of_digits digits scale =
    if is_empty digits || ltb 32 (length digits)
    then failed
    else elim (set_string digits) [ none ↦ failed | some n ↦ with_scale n scale ]

abbrev pub of_parts : Text → List Text → ℤ → Price
of_parts first [] exponent = of_digits first (pos 0 -ℤ exponent)
of_parts first (fraction ∷ []) exponent =
    of_digits (first ++ fraction) (pos (length fraction) -ℤ exponent)
of_parts first (_ ∷ _ ∷ _) exponent = failed

unfoldable pub of_mantissa : Text → ℤ → Price
of_mantissa mantissa exponent = of_parts (split_dots mantissa).0 (split_dots mantissa).1 exponent

-- The exponent lies between -18 and 18.
abbrev pub of_exponent : (Text → Option ℤ) → Text → Text → Price
of_exponent atoi mantissa exponent =
    if has_exponent exponent then failed else elim (atoi exponent) [
      | none ↦ failed
      | some parsed ↦
          if ltb_ℤ parsed (negsuc 17) || ltb_ℤ (pos 18) parsed
          then failed
          else of_mantissa mantissa parsed
    ]

unfoldable pub of_unsigned : (Text → Option ℤ) → Text → Price
of_unsigned atoi raw = elim (cut_exponent raw) [
  | none ↦ of_mantissa raw (pos 0)
  | some cut ↦ of_exponent atoi cut.0 cut.1
]

unfoldable pub decimal_rat : (Text → Option ℤ) → Text → Price
unfolding is_exponent cut_exponent has_exponent digits_value split_dots set_string of_mantissa
    of_unsigned
decimal_rat atoi given =
    let raw = trim_space given in
    if is_empty raw || eq_text raw (text "null")
    then absent
    else if ltb 64 (length raw)
    then failed
    else if has_prefix raw (text "-")
    then failed
    else of_unsigned atoi (trim_prefix raw (text "+"))

-- `value.Sign() < 0` and the rounding.
abbrev pub micros_of : Price → Option ℕ
micros_of absent = none
micros_of failed = none
micros_of (priced (negsuc n) d) = none
micros_of (priced (pos n) d) =
    round_rat_checked (mul (record { num = n; den = d }) (whole micros_per_dollar))

unfoldable pub dollars_to_micros : (Text → Option ℤ) → Text → Option ℕ
dollars_to_micros atoi raw = micros_of (decimal_rat atoi raw)

price_read : decimal_rat (λ s. some (negsuc 6)) (text " +2.50e-7 ") ≡ priced (pos 250) (10 ^ 9)
unfolding decimal_rat trim_space eq_text has_prefix trim_prefix
price_read = refl

-- A sign after the sign gets past the test for negative prices.
negative_read : decimal_rat (λ s. none) (text "+-5") ≡ priced (negsuc 4) 1
unfolding decimal_rat trim_space eq_text has_prefix trim_prefix
negative_read = refl

-- The amount in dollars that a price stands for, in millionths.
abbrev pub micros : ℕ → ℕ → Rational
micros n d = mul (record { num = n; den = d }) (whole micros_per_dollar)
