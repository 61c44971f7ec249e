-- ===== src/Common/Strings.antt =====
-- Go's strings as lists of code points, and the functions of package strings that the code calls.
-- Case mapping covers ASCII and the four letters outside ASCII whose lower or upper case is ASCII;
-- any other letter keeps its code. The code compares the results with ASCII text only, so no test
-- depends on the difference.
use Prim.Native.Char.{code}
use Prim.Native.String.{String}
use clipal.Common.Tests.{leb, ◌==◌, if◌then◌else◌}
use Prim.Native.Nat.{ℕ, zero, suc, ◌+◌, ◌-◌, ◌≤◌}
use mathlib.Core.Option.{Option, none, some}
use clipal.Common.Lists.{length, length-append, map_option}
use mathlib.Core.Path.{◌≡◌, refl, ap, ◌∙◌}
use mathlib.Core.Logic.{◌↔◌}
use mathlib.Core.Bool.{Bool, true, false, ◌&&◌, ◌||◌}
use mathlib.Core.List.{List, [], ◌∷◌, ◌++◌, map, reverse, reverse-append}
use native.Mathlib.Omega.{arith}

abbrev pub Text : Type 0
Text = List ℕ

-- A literal.
abbrev pub text : String → Text
text String.[] = []
text (String.◌∷◌ c s) = code c ∷ text s

-- s == t
unfoldable pub eq_text : Text → Text → Bool
eq_text [] [] = true
eq_text (x ∷ xs) (y ∷ ys) = (x == y) && eq_text xs ys
eq_text _ _ = false

pub eq_text_iff : (s t : Text) → (eq_text s t ≡ true) ↔ (s ≡ t)
unfolding eq_text
eq_text_iff [] [] = (λ h. refl, λ h. refl)
eq_text_iff [] (y ∷ ys) = (λ h. ground arith, λ h. ground arith)
eq_text_iff (x ∷ xs) [] = (λ h. ground arith, λ h. ground arith)
eq_text_iff (x ∷ xs) (y ∷ ys) =
    let ih = eq_text_iff xs ys in (λ h. ground (arith, ih.0), λ h. ground (arith, ih.1))

pub eq_text_refl : (s : Text) → eq_text s s ≡ true
eq_text_refl s = (eq_text_iff s s).1 refl

abbrev pub is_empty : Text → Bool
is_empty [] = true
is_empty (c ∷ s) = false

-- strings.HasPrefix(s, p)
unfoldable pub has_prefix : Text → Text → Bool
has_prefix s [] = true
has_prefix [] (c ∷ p) = false
has_prefix (d ∷ s) (c ∷ p) = (d == c) && has_prefix s p

-- strings.Contains(s, p)
unfoldable pub contains : Text → Text → Bool
unfolding has_prefix
contains [] p = has_prefix [] p
contains (c ∷ s) p = has_prefix (c ∷ s) p || contains s p

-- unicode.IsSpace(c)
unfoldable pub is_space : ℕ → Bool
is_space c =
    (leb 9 c && leb c 13)
    || (c == 32
        || (c == 0x85
            || (c == 0xa0
                || (c == 0x1680
                    || ((leb 0x2000 c && leb c 0x200a)
                        || (c == 0x2028
                            || (c == 0x2029 || (c == 0x202f || (c == 0x205f || c == 0x3000)))))))))

unfoldable pub trim_left : Text → Text
unfolding is_space
trim_left [] = []
trim_left (c ∷ s) = if is_space c then trim_left s else c ∷ s

-- strings.TrimSpace(s)
unfoldable pub trim_space : Text → Text
unfolding trim_left
trim_space s = reverse (trim_left (reverse (trim_left s)))

lower_rune : ℕ → ℕ
lower_rune c =
    if leb b'A' c && leb c b'Z'
    then c + 32
    else if c == 0x130
    then b'i'
    else if c == 0x212a
    then b'k'
    else c

-- strings.ToLower(s)
unfoldable pub to_lower : Text → Text
unfolding lower_rune
to_lower = map lower_rune

upper_rune : ℕ → ℕ
upper_rune c =
    if leb b'a' c && leb c b'z'
    then c - 32
    else if c == 0x131
    then b'I'
    else if c == 0x17f
    then b'S'
    else c

-- strings.ToUpper(s)
unfoldable pub to_upper : Text → Text
unfolding upper_rune
to_upper = map upper_rune

abbrev pub drop {ℓ} : {A : Type ℓ} → ℕ → List A → List A
drop zero xs = xs
drop (suc n) [] = []
drop (suc n) (x ∷ xs) = drop n xs

-- strings.TrimPrefix(s, p)
unfoldable pub trim_prefix : Text → Text → Text
unfolding has_prefix
trim_prefix s p = if has_prefix s p then drop (length p) s else s

-- strings.HasSuffix(s, p)
unfoldable pub has_suffix : Text → Text → Bool
unfolding has_prefix
has_suffix s p = has_prefix (reverse s) (reverse p)

-- strings.Index(s, p), for a p that is not empty; `none` stands for -1.
unfoldable pub index : Text → Text → Option ℕ
unfolding has_prefix
index [] p = none
index (c ∷ s) p =
    let later = map_option suc (index s p) in if has_prefix (c ∷ s) p then some 0 else later

-- s[:n]
abbrev pub take_text : ℕ → Text → Text
take_text zero s = []
take_text (suc n) [] = []
take_text (suc n) (c ∷ s) = c ∷ take_text n s

trim_slashes_left : Text → Text
trim_slashes_left [] = []
trim_slashes_left (c ∷ s) = if c == b'/' then trim_slashes_left s else c ∷ s

-- strings.Trim(s, "/")
unfoldable pub trim_slashes : Text → Text
unfolding trim_slashes_left
trim_slashes s = reverse (trim_slashes_left (reverse (trim_slashes_left s)))

-- strings.Join(parts, sep)
unfoldable pub join : List Text → Text → Text
join [] sep = []
join (s ∷ []) sep = s
join (s ∷ t ∷ parts) sep = s ++ (sep ++ join (t ∷ parts) sep)

abbrev close_word : Text → List Text → List Text
close_word [] words = words
close_word (c ∷ word) words = reverse (c ∷ word) ∷ words

-- The words of a text that has `word` before it, backwards.
fields_from : Text → Text → List Text
fields_from word [] = close_word word []
fields_from word (c ∷ s) =
    let next = fields_from [] s in
    let more = fields_from (c ∷ word) s in if is_space c then close_word word next else more

-- strings.Fields(s)
unfoldable pub fields : Text → List Text
unfolding is_space fields_from
fields s = fields_from [] s

fold_rune : ℕ → ℕ
fold_rune c =
    if leb b'A' c && leb c b'Z'
    then c + 32
    else if c == 0x17f
    then b's'
    else if c == 0x212a
    then b'k'
    else c

-- strings.EqualFold(s, t), where one of the two is ASCII.
unfoldable pub equal_fold : Text → Text → Bool
unfolding fold_rune eq_text
equal_fold s t = eq_text (map fold_rune s) (map fold_rune t)

words_of : fields (text "  a bc ") ≡ text "a" ∷ text "bc" ∷ []
unfolding fields
words_of = refl

trims : trim_space (text " a b ") ≡ text "a b"
unfolding trim_space
trims = refl

finds : contains (text "daily limit reached") (text "limit") ≡ true
unfolding contains
finds = refl

length-reverse : (s : Text) → length (reverse s) ≡ length s
length-reverse [] = refl
length-reverse (c ∷ s) =
    ap length (reverse-append (c ∷ []) s)
    ∙ omega (arith, length-append (reverse s) (c ∷ []), length-reverse s)

trim_left-length : (s : Text) → length (trim_left s) ≤ length s
unfolding trim_left
trim_left-length [] = omega arith
trim_left-length (c ∷ s) = ground (arith, trim_left-length s)

pub trim_space-length : (s : Text) → length (trim_space s) ≤ length s
unfolding trim_space
trim_space-length s =
    let t = trim_left s in
    omega (
      arith,
      length-reverse (trim_left (reverse t)),
      trim_left-length (reverse t),
      length-reverse t,
      trim_left-length s,
    )

drop-length : (n : ℕ) (s : Text) → length (drop n s) ≡ length s - n
drop-length zero s = omega arith
drop-length (suc n) [] = omega arith
drop-length (suc n) (c ∷ s) = omega (arith, drop-length n s)

has_prefix-length : (s p : Text) → has_prefix s p ≡ true → length p ≤ length s
unfolding has_prefix
has_prefix-length s [] h = omega arith
has_prefix-length [] (c ∷ p) h = ground arith
has_prefix-length (d ∷ s) (c ∷ p) h = ground (arith, has_prefix-length s p)

pub trim_prefix-length :
    (s p : Text) → has_prefix s p ≡ true → length (trim_prefix s p) + length p ≡ length s
unfolding trim_prefix
trim_prefix-length s p h = ground (arith, drop-length (length p) s, has_prefix-length s p h)

pub has_prefix_refl : (s : Text) → has_prefix s s ≡ true
unfolding has_prefix
has_prefix_refl [] = refl
has_prefix_refl (c ∷ s) = ground (arith, has_prefix_refl s)

pub has_prefix-append : (s p q : Text) → has_prefix s (p ++ q) ≡ true → has_prefix s p ≡ true
unfolding has_prefix
has_prefix-append s [] q h = refl
has_prefix-append [] (c ∷ p) q h = ground arith
has_prefix-append (d ∷ s) (c ∷ p) q h = ground (arith, has_prefix-append s p q)
