-- ===== src/Failover/Classify/Sanitize.antt =====
-- internal/proxy/failover_body.go: how a body becomes one line of a log. Texts are bytes.
use clipal.Common.{
  ℕ, zero, suc, ◌-◌, ◌≡◌, refl, Bool, leb, if◌then◌else◌, ◌&&◌, ◌==◌, [], ◌∷◌, ◌++◌, length, Text,
  text, has_prefix, is_empty, arith, true, false, not, ◌+◌, ◌≤◌, inl, inr, Bool-cases,
  length-append,
}

-- The scan of `strings.ReplaceAll(s, old, new)`; `skip` bytes of a match are still to be passed.
replace_from : Text → Text → ℕ → Text → Text
replace_from old new skip [] = []
replace_from old new (suc skip) (c ∷ s) = replace_from old new skip s
replace_from old new zero (c ∷ s) =
    let matched = replace_from old new (length old - 1) s in
    let passed = replace_from old new zero s in
    if has_prefix (c ∷ s) old then new ++ matched else c ∷ passed

-- strings.ReplaceAll(s, old, new), for an `old` that is not empty.
pub replace_all : Text → Text → Text → Text
unfolding replace_from
replace_all s old new = replace_from old new 0 s

unfoldable pub sanitize_log_string : Text → Text
unfolding replace_all
sanitize_log_string s =
    if is_empty s
    then []
    else let a = replace_all s (0 ∷ []) [] in
      let b = replace_all a (13 ∷ 10 ∷ []) (10 ∷ []) in
      let c = replace_all b (10 ∷ []) (text "\\n") in
      let d = replace_all c (13 ∷ []) (text "\\r") in replace_all d (9 ∷ []) (text "\\t")

take : ℕ → Text → Text
take zero s = []
take (suc n) [] = []
take (suc n) (c ∷ s) = c ∷ take n s

unfoldable pub truncate_string : Text → ℕ → Text
unfolding take
truncate_string s max_len = if leb (length s) max_len then s else take max_len s ++ text "..."

sanitized : sanitize_log_string (98 ∷ 13 ∷ 10 ∷ 0 ∷ 9 ∷ []) ≡ text "b\\n\\t"
unfolding sanitize_log_string has_prefix
sanitized = refl

truncated : truncate_string (text "abcdef") 4 ≡ text "abcd..."
unfolding truncate_string
truncated = refl

-- No byte of the text is `k`.
abbrev pub avoids : ℕ → Text → Bool
avoids k [] = true
avoids k (c ∷ s) = not (c == k) && avoids k s

avoids-append :
    (k : ℕ) (s t : Text) → avoids k s ≡ true → avoids k t ≡ true → avoids k (s ++ t) ≡ true
avoids-append k [] t hs ht = ht
avoids-append k (c ∷ s) t hs ht = ground (arith, avoids-append k s t)

-- What neither the text nor the replacement has, the result does not have.
replace_from-avoids :
    (k : ℕ) (old new : Text) (skip : ℕ) (s : Text)
    → avoids k new ≡ true
    → avoids k s ≡ true
    → avoids k (replace_from old new skip s) ≡ true
unfolding replace_from
replace_from-avoids k old new skip [] hn h = refl
replace_from-avoids k old new (suc skip) (c ∷ s) hn h =
    replace_from-avoids k old new skip s hn (ground arith)
replace_from-avoids k old new zero (c ∷ s) hn h = ground (
  arith,
  replace_from-avoids k old new (length old - 1) s hn,
  replace_from-avoids k old new zero s hn,
  avoids-append k new (replace_from old new (length old - 1) s) hn,
)

-- What is replaced is gone, if the replacement does not bring it back.
replace_from-removes :
    (k : ℕ) (new s : Text) → avoids k new ≡ true → avoids k (replace_from (k ∷ []) new 0 s) ≡ true
unfolding replace_from has_prefix
replace_from-removes k new [] hn = refl
replace_from-removes k new (c ∷ s) hn =
    ground (
      arith,
      replace_from-removes k new s hn,
      avoids-append k new (replace_from (k ∷ []) new 0 s) hn,
    )

-- A text of one line: no zero byte, tab, line feed or carriage return.
abbrev pub IsOneLine : Text → Type 0
IsOneLine s =
    (avoids 0 s ≡ true) × (avoids 9 s ≡ true) × (avoids 10 s ≡ true) × (avoids 13 s ≡ true)

pub sanitize_log_string-IsOneLine : (s : Text) → IsOneLine (sanitize_log_string s)
unfolding sanitize_log_string replace_all
sanitize_log_string-IsOneLine [] = (refl, refl, refl, refl)
sanitize_log_string-IsOneLine (x ∷ xs) =
    let s = x ∷ xs in
    let a = replace_from (0 ∷ []) [] 0 s in
    let b = replace_from (13 ∷ 10 ∷ []) (10 ∷ []) 0 a in
    let c = replace_from (10 ∷ []) (text "\\n") 0 b in
    let d = replace_from (13 ∷ []) (text "\\r") 0 c in
    let a0 = replace_from-removes 0 [] s refl in
    let b0 = replace_from-avoids 0 (13 ∷ 10 ∷ []) (10 ∷ []) 0 a refl a0 in
    let c0 = replace_from-avoids 0 (10 ∷ []) (text "\\n") 0 b refl b0 in
    let c10 = replace_from-removes 10 (text "\\n") b refl in
    let d0 = replace_from-avoids 0 (13 ∷ []) (text "\\r") 0 c refl c0 in
    let d10 = replace_from-avoids 10 (13 ∷ []) (text "\\r") 0 c refl c10 in
    let d13 = replace_from-removes 13 (text "\\r") c refl in
    (
      replace_from-avoids 0 (9 ∷ []) (text "\\t") 0 d refl d0,
      replace_from-removes 9 (text "\\t") d refl,
      replace_from-avoids 10 (9 ∷ []) (text "\\t") 0 d refl d10,
      replace_from-avoids 13 (9 ∷ []) (text "\\t") 0 d refl d13,
    )

IsOneLine-append : (s t : Text) → IsOneLine s → IsOneLine t → IsOneLine (s ++ t)
IsOneLine-append s t hs ht = (
  avoids-append 0 s t hs.0 ht.0,
  avoids-append 9 s t hs.1 ht.1,
  avoids-append 10 s t hs.2 ht.2,
  avoids-append 13 s t hs.3 ht.3,
)

avoids-take : (k n : ℕ) (s : Text) → avoids k s ≡ true → avoids k (take n s) ≡ true
unfolding take
avoids-take k zero s h = refl
avoids-take k (suc n) [] h = refl
avoids-take k (suc n) (c ∷ s) h = ground (arith, avoids-take k n s)

length-take_le : (n : ℕ) (s : Text) → length (take n s) ≤ n
unfolding take
length-take_le zero s = omega arith
length-take_le (suc n) [] = omega arith
length-take_le (suc n) (c ∷ s) = omega (arith, length-take_le n s)

-- A text is shown in a log on one line of at most `n` bytes and three dots.
abbrev pub IsShown : Text → ℕ → Type 0
IsShown s n = IsOneLine s × (length s ≤ n + 3)

-- With the dots of a body that was cut off.
pub marked-IsOneLine :
    (s : Text) (b : Bool) → IsOneLine s → IsOneLine (if b then s ++ text "..." else s)
marked-IsOneLine s true h = IsOneLine-append s (text "...") h (refl, refl, refl, refl)
marked-IsOneLine s false h = h

pub truncate_string-IsShown : (s : Text) (n : ℕ) → IsOneLine s → IsShown (truncate_string s n) n
unfolding truncate_string
truncate_string-IsShown s n h = elim (Bool-cases (leb (length s) n)) [
  | inl short ↦ rw short (h, ground arith)
  | inr long ↦ rw long (
    IsOneLine-append (take n s) (text "...")
        (
          avoids-take 0 n s h.0,
          avoids-take 9 n s h.1,
          avoids-take 10 n s h.2,
          avoids-take 13 n s h.3,
        )
        (refl, refl, refl, refl),
    rw (length-append (take n s) (text "...")) (omega (arith, length-take_le n s)),
  )
]
