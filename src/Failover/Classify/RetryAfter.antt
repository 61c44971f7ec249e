-- ===== src/Failover/Classify/RetryAfter.antt =====
-- internal/proxy/failover_classify.go: how long an answer asks to wait.
use clipal.Common.{
  ℕ, ◌*◌, ◌-◌, ◌%◌, ◌^◌, ◌≡◌, refl, ltb, if◌then◌else◌, Option, none, some, ℤ, pos, negsuc, ◌≤ℤ◌,
  ltb_ℤ, Text, text, is_empty, trim_space, arith,
}
use clipal.Clock.{Time, Duration, second, sub}
use clipal.Json.{Value}

-- The functions of Go's library that read text: json.Unmarshal into `any`, strconv.Atoi,
-- time.ParseDuration and http.ParseTime. `none` is an error.
pub record Decoders : Type 0 where
  pub unmarshal : Text → Option Value
  pub atoi : Text → Option ℤ
  pub parse_duration : Text → Option Duration
  pub parse_time : Text → Option Time

-- The int64 that the low 64 bits of a natural number stand for.
abbrev pub int64 : ℕ → ℤ
int64 n = let m = n % 2 ^ 64 in if ltb m (2 ^ 63) then pos m else negsuc (2 ^ 64 - m - 1)

-- `time.Duration(secs) * time.Second`, refused if `secs` is negative.
abbrev seconds_hint : ℤ → Option Duration
seconds_hint (pos secs) = some (int64 (secs * second))
seconds_hint (negsuc n) = none

abbrev until_date : Option Time → Time → Option Duration
until_date none now = none
until_date (some t) now = let d = sub t now in if ltb_ℤ d (pos 0) then some (pos 0) else some d

unfoldable pub parse_retry_after : Decoders → Time → Text → Option Duration
parse_retry_after dec now value =
    let v = trim_space value in
    if is_empty v then none else elim (dec.atoi v) [
      | some secs ↦ seconds_hint secs
      | none ↦ until_date (dec.parse_time v) now
    ]

unfoldable pub parse_duration_hint : Decoders → Text → Option Duration
parse_duration_hint dec value =
    let v = trim_space value in
    if is_empty v then none else elim (dec.parse_duration v) [
      | some d ↦ if ltb_ℤ d (pos 0) then none else some d
      | none ↦ elim (dec.atoi v) [ some secs ↦ seconds_hint secs | none ↦ none ]
    ]

abbrev pub max_retry_after_cooldown : Duration
max_retry_after_cooldown = pos (3600 * second)

-- `if d, ok := hint; ok && d > max { max = d }`
abbrev raise : Duration → Option Duration → Duration
raise max none = max
raise max (some d) = if ltb_ℤ max d then d else max

-- The headers are a function, as `h.Get` is.
unfoldable pub retry_after_duration : Decoders → Time → (Text → Text) → Duration
retry_after_duration dec now h =
    let a = raise (pos 0) (parse_retry_after dec now (h (text "Retry-After"))) in
    let b = raise a (parse_duration_hint dec (h (text "X-RateLimit-Reset-Requests"))) in
    let max = raise b (parse_duration_hint dec (h (text "X-RateLimit-Reset-Tokens"))) in
    if ltb_ℤ max_retry_after_cooldown max then max_retry_after_cooldown else max

-- `d` is no shorter than the hint, if there is one.
abbrev pub Covers : Option Duration → Duration → Type 0
Covers none d = Unit {0}
Covers (some e) d = e ≤ℤ d

raise_bounds : (a : Duration) (hint : Option Duration) → a ≤ℤ raise a hint
raise_bounds a none = omega arith
raise_bounds a (some d) = ground arith

-- The wait lies between nothing and an hour.
pub retry_after_duration_bounds :
    (dec : Decoders) (now : Time) (h : Text → Text)
    → (pos 0 ≤ℤ retry_after_duration dec now h)
      × (retry_after_duration dec now h ≤ℤ max_retry_after_cooldown)
unfolding retry_after_duration
retry_after_duration_bounds dec now h =
    let retry = parse_retry_after dec now (h (text "Retry-After")) in
    let requests = parse_duration_hint dec (h (text "X-RateLimit-Reset-Requests")) in
    let tokens = parse_duration_hint dec (h (text "X-RateLimit-Reset-Tokens")) in
    let a = raise (pos 0) retry in
    let b = raise a requests in
    ground (arith, raise_bounds (pos 0) retry, raise_bounds a requests, raise_bounds b tokens)

-- A number of seconds beyond 2^63 nanoseconds turns negative.
wraps : int64 (10_000_000_000 * second) ≡ negsuc (8_446_744_073_709_551_615)
wraps = refl
