-- ===== src/Pricing/Digits.antt =====
-- decimalRat of internal/pricing/catalog.go: its parts on texts of decimal digits.
use native.Mathlib.Nat.{pow-succ'}
use clipal.Common.{
  ℕ, suc, ◌+◌, ◌*◌, ◌^◌, ◌≤◌, ◌<◌, ◌≡◌, refl, sym, ap, subst, true, false, List, [], ◌∷◌, ◌++◌,
  length, none, some, ℤ, pos, Text, arith, map,
}
use clipal.Pricing.Decimal.{
  is_exponent, cut_exponent, has_exponent, split_dots, digits_value, set_string, with_scale,
  of_digits,
}

-- Decimal digits, the highest first.
abbrev pub AreDigits : List ℕ → Type 0
AreDigits [] = Unit {0}
AreDigits (d ∷ ds) = (d < 10) × AreDigits ds

abbrev pub value_of : List ℕ → ℕ
value_of [] = 0
value_of (d ∷ ds) = d * 10 ^ length ds + value_of ds

abbrev pub spelled : List ℕ → Text
spelled ds = map (λ d. d + b'0') ds

shifted : (acc d p v : ℕ) → (10 * acc + d) * p + v ≡ acc * (10 * p) + (d * p + v)
shifted acc d p v = grind arith

-- The digits are read from the highest one on.
digits_value-spelled :
    (ds : List ℕ) (acc : ℕ)
    → AreDigits ds
    → digits_value acc (spelled ds) ≡ some (acc * 10 ^ length ds + value_of ds)
unfolding digits_value
digits_value-spelled [] acc h = ground arith
digits_value-spelled (d ∷ ds) acc (h, hs) =
    let ih = digits_value-spelled ds (10 * acc + d) hs in
    let same =
      subst
        (λ p.
          (10 * acc + d) * 10 ^ length ds + value_of ds
          ≡ acc * p + (d * 10 ^ length ds + value_of ds))
        (sym (pow-succ' 10 (length ds))) (shifted acc d (10 ^ length ds) (value_of ds)) in
    ground arith

pub length-spelled : (ds : List ℕ) → length (spelled ds) ≡ length ds
length-spelled [] = refl
length-spelled (d ∷ ds) = ap suc (length-spelled ds)

-- Without an exponent in front, the first `e` is where the exponent begins.
pub cut_exponent-none : (s : Text) → has_exponent s ≡ false → cut_exponent s ≡ none
unfolding cut_exponent has_exponent
cut_exponent-none [] h = refl
cut_exponent-none (c ∷ s) h = ground (arith, cut_exponent-none s)

pub cut_exponent-append :
    (s : Text) (c : ℕ) (x : Text)
    → has_exponent s ≡ false
    → is_exponent c ≡ true
    → cut_exponent (s ++ c ∷ x) ≡ some (s, x)
unfolding cut_exponent has_exponent
cut_exponent-append [] c x h e = ground arith
cut_exponent-append (b ∷ s) c x h e = ground (arith, cut_exponent-append s c x)

pub has_exponent-append :
    (s t : Text) → has_exponent s ≡ false → has_exponent t ≡ false → has_exponent (s ++ t) ≡ false
unfolding has_exponent
has_exponent-append [] t h k = k
has_exponent-append (c ∷ s) t h k = ground (arith, has_exponent-append s t)

pub has_exponent-spelled : (ds : List ℕ) → AreDigits ds → has_exponent (spelled ds) ≡ false
unfolding has_exponent is_exponent
has_exponent-spelled [] h = refl
has_exponent-spelled (d ∷ ds) (h, hs) = ground (arith, has_exponent-spelled ds hs)

pub split_dots-spelled : (ds : List ℕ) → AreDigits ds → split_dots (spelled ds) ≡ (spelled ds, [])
unfolding split_dots
split_dots-spelled [] h = refl
split_dots-spelled (d ∷ ds) (h, hs) = ground (arith, split_dots-spelled ds hs)

pub split_dots-append :
    (ds : List ℕ) (t : Text)
    → AreDigits ds
    → split_dots (spelled ds ++ b'.' ∷ t) ≡ (spelled ds, (split_dots t).0 ∷ (split_dots t).1)
unfolding split_dots
split_dots-append [] t h = refl
split_dots-append (d ∷ ds) t (h, hs) = ground (arith, split_dots-append ds t hs)

pub AreDigits-append : (ds fs : List ℕ) → AreDigits ds → AreDigits fs → AreDigits (ds ++ fs)
AreDigits-append [] fs h k = k
AreDigits-append (d ∷ ds) fs (h, hs) k = (h, AreDigits-append ds fs hs k)

pub spelled-append : (ds fs : List ℕ) → spelled ds ++ spelled fs ≡ spelled (ds ++ fs)
spelled-append [] fs = refl
spelled-append (d ∷ ds) fs = ap (λ s. (d + b'0') ∷ s) (spelled-append ds fs)

set_string-spelled :
    (d : ℕ) (ds : List ℕ)
    → AreDigits (d ∷ ds)
    → set_string (spelled (d ∷ ds)) ≡ some (pos (value_of (d ∷ ds)))
unfolding set_string
set_string-spelled d ds (h, hs) = let read = digits_value-spelled (d ∷ ds) 0 (h, hs) in ground arith

pub of_digits-spelled :
    (ds : List ℕ) (scale : ℤ)
    → AreDigits ds
    → 0 < length ds
    → length ds ≤ 32
    → of_digits (spelled ds) scale ≡ with_scale (pos (value_of ds)) scale
of_digits-spelled [] scale h lo hi = absurd (omega arith)
of_digits-spelled (d ∷ ds) scale h lo hi =
    let read = set_string-spelled d ds h in let same = length-spelled ds in ground arith
