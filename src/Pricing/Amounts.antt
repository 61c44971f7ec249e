-- ===== src/Pricing/Amounts.antt =====
-- decimalRat and dollarsToMicros of internal/pricing: what the decimal notations
-- of amounts are read as.
use mathlib.Core.List.{append-nil}
use native.Mathlib.Nat.{mul_assoc, pow-succ'}
use clipal.Common.{
  ℕ, zero, suc, ◌+◌, ◌*◌, ◌-◌, ◌^◌, ◌≤◌, ◌<◌, ◌≡◌, refl, sym, ◌∙◌, ap, subst, leb, Bool, true,
  false, ◌&&◌, List, [], ◌∷◌, ◌++◌, length, Option, none, some, ℤ, pos, negsuc, ◌-ℤ◌, ◌≤ℤ◌, Text,
  eq_text, has_prefix, trim_prefix, trim_space, arith, Bool-cases, inl, inr,
}
use clipal.Pricing.Rational.{round_rat_checked-IsRounded, IsRounded}
use clipal.Pricing.Decimal.{
  priced, is_exponent, has_exponent, with_scale, of_parts, of_digits, of_mantissa, of_unsigned,
  decimal_rat, dollars_to_micros, micros_of, micros,
}
use clipal.Pricing.Digits.{
  AreDigits-append, AreDigits, value_of, spelled, length-spelled, cut_exponent-none,
  cut_exponent-append, has_exponent-append, has_exponent-spelled, split_dots-spelled,
  split_dots-append, spelled-append, of_digits-spelled,
}

-- An optional point with more digits, and an optional exponent after its letter.
abbrev pub Fraction : Type 0
Fraction = Option (List ℕ)

abbrev pub Exponent : Type 0
Exponent = Option (ℕ × Text)

abbrev pub IsFraction : Fraction → Type 0
IsFraction none = Unit {0}
IsFraction (some fs) = AreDigits fs

abbrev pub digits_of : List ℕ → Fraction → List ℕ
digits_of ds none = ds
digits_of ds (some fs) = ds ++ fs

-- The number of digits behind the point.
abbrev pub behind : Fraction → ℕ
behind none = 0
behind (some fs) = length fs

abbrev pub mantissa_of : List ℕ → Fraction → Text
mantissa_of ds none = spelled ds
mantissa_of ds (some fs) = spelled ds ++ b'.' ∷ spelled fs

abbrev pub written : List ℕ → Fraction → Exponent → Text
written ds fraction none = mantissa_of ds fraction
written ds fraction (some (letter, x)) = mantissa_of ds fraction ++ letter ∷ x

-- No exponent stands for 0; an exponent follows an `e` or `E`, has no further one, and is read as a
-- number between -18 and 18.
abbrev pub IsExponent : (Text → Option ℤ) → Exponent → ℤ → Type 0
IsExponent atoi none e = e ≡ pos 0
IsExponent atoi (some (letter, x)) e =
    (is_exponent letter ≡ true)
    × (has_exponent x ≡ false)
    × (atoi x ≡ some e)
    × (negsuc 17 ≤ℤ e)
    × (e ≤ℤ pos 18)

-- The fraction `a / d` is `v` times ten to the power `e - f`.
abbrev pub IsTimesTen : ℕ → ℤ → ℕ → ℕ → ℕ → Type 0
IsTimesTen v (pos n) f a d = (0 < d) × (a * 10 ^ f ≡ v * 10 ^ n * d)
IsTimesTen v (negsuc n) f a d = (0 < d) × (a * 10 ^ (f + suc n) ≡ v * d)

pow_pos : (k : ℕ) → 0 < 10 ^ k
pow_pos zero = omega arith
pow_pos (suc k) = omega (arith, pow_pos k)

pow_add : (j k : ℕ) → 10 ^ (j + k) ≡ 10 ^ j * 10 ^ k
pow_add zero k =
    let bare : 0 + k ≡ k = omega arith in
    let once : 1 * 10 ^ k ≡ 10 ^ k = omega arith in ap (λ n. 10 ^ n) bare ∙ sym once
pow_add (suc j) k =
    let within : suc j + k ≡ suc (j + k) = omega arith in
    ap (λ n. 10 ^ n) within
    ∙ pow-succ' 10 (j + k)
    ∙ ap (λ p. 10 * p) (pow_add j k)
    ∙ sym (mul_assoc 10 (10 ^ j) (10 ^ k))
    ∙ ap (λ p. p * 10 ^ k) (sym (pow-succ' 10 j))

with_scale-IsTimesTen :
    (v f : ℕ) (e : ℤ)
    → (a : ℕ) × (d : ℕ) × (with_scale (pos v) (pos f -ℤ e) ≡ priced (pos a) d)
      × IsTimesTen v e f a d
with_scale-IsTimesTen v f (negsuc n) =
    (v, 10 ^ (f + suc n), ground arith, (pow_pos (f + suc n), refl))
with_scale-IsTimesTen v f (pos n) = elim (Bool-cases (leb n f)) [
  | inl inner ↦
      let whole : f ≡ n + (f - n) = ground arith in
      let powers =
        ap (λ k. v * 10 ^ k) whole
        ∙ ap (λ p. v * p) (pow_add n (f - n))
        ∙ sym (mul_assoc v (10 ^ n) (10 ^ (f - n))) in
      (v, 10 ^ (f - n), ground arith, (pow_pos (f - n), powers))
  | inr outer ↦
      let whole : n ≡ (n - f) + f = ground arith in
      let powers =
        mul_assoc v (10 ^ (n - f)) (10 ^ f)
        ∙ ap (λ p. v * p) (sym (pow_add (n - f) f))
        ∙ ap (λ k. v * 10 ^ k) (sym whole) in
      let once : v * 10 ^ n ≡ v * 10 ^ n * 1 = omega arith in
      (v * 10 ^ (n - f), 1, ground arith, (omega arith, powers ∙ once))
]

module _ (ds : List ℕ) (h : AreDigits ds) where
  of_mantissa-spelled :
      (fraction : Fraction) (e : ℤ)
      → IsFraction fraction
      → 0 < length (digits_of ds fraction)
      → length (digits_of ds fraction) ≤ 32
      → of_mantissa (mantissa_of ds fraction) e
        ≡ with_scale (pos (value_of (digits_of ds fraction))) (pos (behind fraction) -ℤ e)
  unfolding of_mantissa
  of_mantissa-spelled none e k lo hi =
      rw (split_dots-spelled ds h) (of_digits-spelled ds (pos 0 -ℤ e) h lo hi)
  of_mantissa-spelled (some fs) e k lo hi =
      ap (λ (parts : Text × List Text). of_parts parts.0 parts.1 e)
        (split_dots-append ds (spelled fs) h)
      ∙ ap (λ (parts : Text × List Text). of_parts (spelled ds) (parts.0 ∷ parts.1) e)
          (split_dots-spelled fs k)
      ∙ ap (λ n. of_digits (spelled ds ++ spelled fs) (pos n -ℤ e)) (length-spelled fs)
      ∙ ap (λ digits. of_digits digits (pos (length fs) -ℤ e)) (spelled-append ds fs)
      ∙ of_digits-spelled (ds ++ fs) (pos (length fs) -ℤ e) (AreDigits-append ds fs h k) lo hi

  has_exponent-mantissa_of :
      (fraction : Fraction) → IsFraction fraction → has_exponent (mantissa_of ds fraction) ≡ false
  unfolding has_exponent is_exponent
  has_exponent-mantissa_of none k = has_exponent-spelled ds h
  has_exponent-mantissa_of (some fs) k =
      has_exponent-append (spelled ds) (b'.' ∷ spelled fs) (has_exponent-spelled ds h)
        (has_exponent-spelled fs k)

  of_unsigned-written :
      (atoi : Text → Option ℤ) (fraction : Fraction) (exponent : Exponent) (e : ℤ)
      → IsFraction fraction
      → IsExponent atoi exponent e
      → of_unsigned atoi (written ds fraction exponent) ≡ of_mantissa (mantissa_of ds fraction) e
  unfolding of_unsigned
  of_unsigned-written atoi fraction none e k x =
      let cut = cut_exponent-none (mantissa_of ds fraction) (has_exponent-mantissa_of fraction k) in
      ground arith
  of_unsigned-written atoi fraction (some (letter, t)) e k (is_letter, no_other, is_read, lo, hi) =
      let cut =
        cut_exponent-append (mantissa_of ds fraction) letter t (has_exponent-mantissa_of fraction k)
          is_letter in
      ground arith

-- The byte is a digit or a point.
abbrev starts_number : Text → Bool
starts_number [] = false
starts_number (c ∷ s) = leb b'.' c && leb c b'9'

starts_number-mantissa_of :
    (ds : List ℕ) (fraction : Fraction) (t : Text)
    → AreDigits ds
    → IsFraction fraction
    → 0 < length (digits_of ds fraction)
    → starts_number (mantissa_of ds fraction ++ t) ≡ true
starts_number-mantissa_of [] none t h k lo = absurd (omega arith)
starts_number-mantissa_of [] (some fs) t h k lo = refl
starts_number-mantissa_of (d ∷ ds) none t h k lo = ground arith
starts_number-mantissa_of (d ∷ ds) (some fs) t h k lo = ground arith

starts_number-written :
    (ds : List ℕ) (fraction : Fraction) (exponent : Exponent)
    → AreDigits ds
    → IsFraction fraction
    → 0 < length (digits_of ds fraction)
    → starts_number (written ds fraction exponent) ≡ true
starts_number-written ds fraction none h k lo =
    subst (λ s. starts_number s ≡ true) (append-nil (mantissa_of ds fraction))
      (starts_number-mantissa_of ds fraction [] h k lo)
starts_number-written ds fraction (some (letter, x)) h k lo =
    starts_number-mantissa_of ds fraction (letter ∷ x) h k lo

decimal_rat-starts_number :
    (atoi : Text → Option ℤ) (given raw : Text)
    → trim_space given ≡ raw
    → length raw ≤ 64
    → starts_number raw ≡ true
    → decimal_rat atoi given ≡ of_unsigned atoi raw
unfolding decimal_rat eq_text has_prefix trim_prefix
decimal_rat-starts_number atoi given [] e short h = absurd (ground arith)
decimal_rat-starts_number atoi given (c ∷ s) e short h = rw e (ground arith)

IsTimesTen-pos : (v : ℕ) (e : ℤ) (f a d : ℕ) → IsTimesTen v e f a d → 0 < d
IsTimesTen-pos v (pos n) f a d h = h.0
IsTimesTen-pos v (negsuc n) f a d h = h.0

-- Amounts in dollars are read exactly and rounded once. Let a text, without the spaces around it, be
-- at most 64 bytes of decimal digits, perhaps a point with more digits, between 1 and 32 digits in
-- all, and perhaps an `e` or `E` with a text that holds no further one and that `strconv.Atoi` reads
-- as an exponent between -18 and 18. With `v` the number that the digits spell, `f` the number of
-- them behind the point and `e` the exponent (0 where there is none), the amount is `v` times ten to
-- the power `e - f` dollars; the result is the number of millionths that is nearest to this amount,
-- halves up, and nothing if that number does not fit an int64.
pub dollars_to_micros-IsRounded :
    (atoi : Text → Option ℤ) (raw : Text) (ds : List ℕ) (fraction : Fraction) (exponent : Exponent)
    (e : ℤ)
    → AreDigits ds
    → IsFraction fraction
    → IsExponent atoi exponent e
    → 0 < length (digits_of ds fraction)
    → length (digits_of ds fraction) ≤ 32
    → length (written ds fraction exponent) ≤ 64
    → trim_space raw ≡ written ds fraction exponent
    → (a : ℕ) × (d : ℕ) × IsTimesTen (value_of (digits_of ds fraction)) e (behind fraction) a d
      × IsRounded (micros a d) (dollars_to_micros atoi raw)
unfolding dollars_to_micros
dollars_to_micros-IsRounded atoi raw ds fraction exponent e h k x lo hi short t =
    let read =
      decimal_rat-starts_number atoi raw (written ds fraction exponent) t short
        (starts_number-written ds fraction exponent h k lo)
      ∙ of_unsigned-written ds h atoi fraction exponent e k x
      ∙ of_mantissa-spelled ds h fraction e k lo hi in
    let (a, d, scaled, is_amount) =
      with_scale-IsTimesTen (value_of (digits_of ds fraction)) (behind fraction) e in
    let rounded = round_rat_checked-IsRounded (micros a d) (
      ground (
        arith,
        IsTimesTen-pos (value_of (digits_of ds fraction)) e (behind fraction) a d is_amount,
      )) in
    (
      a,
      d,
      is_amount,
      subst (λ price. IsRounded (micros a d) (micros_of price)) (sym (read ∙ scaled)) rounded,
    )
