-- ===== src/OauthCooldown/Hints.antt =====
-- internal/proxy/oauth_cooldown.go: the times to wait that the headers and the body of a refusal name.
-- The messages are ASCII, so that a lower case is as long as what it comes from.
use clipal.Common.{
  ℕ, ◌+◌, ◌*◌, ◌/◌, ltb, leb, ◌==◌, Bool, false, ◌&&◌, ◌||◌, not, if◌then◌else◌, List, [], ◌∷◌,
  Option, none, some, ℤ, pos, negsuc, ltb_ℤ, leb_ℤ, Text, text, eq_text, is_empty, contains,
  trim_space, to_lower, index, drop,
}
use clipal.Clock.{Time, Duration, second, sub}
use clipal.Json.{
  Value, Items, Fields, null, boolean, number, str, arr, obj, nil, cons, no_fields, field,
}
use clipal.Failover.Classify.RetryAfter.{Decoders, parse_retry_after, parse_duration_hint}

-- Further functions of Go's library: time.Parse of RFC 3339, the whole part of strconv.ParseFloat as
-- an int64, and the shortest decimal of the float64 that a JSON number stands for.
pub record HintDecoders : Type 0 where
  pub base : Decoders
  pub parse_rfc3339 : Text → Option Time
  pub parse_whole : Text → Option ℤ
  pub format_float : Text → Text

abbrev pub max_oauth_retry_after_cooldown : Duration
max_oauth_retry_after_cooldown = pos (8 * 24 * 3600 * second)

-- time.Unix(sec, 0), counted from Go's zero time.
abbrev unix : ℕ → Time
unix sec = (62_135_596_800 + sec) * second

abbrev unix_reset : Option ℤ → Time → Option Duration
unix_reset none now = none
unix_reset (some (negsuc n)) now = none
unix_reset (some (pos n)) now =
    let sec = if ltb 1_000_000_000_000 n then n / 1000 else n in
    if ltb 1_000_000_000 sec then some (sub (unix sec) now) else none

unfoldable pub parse_oauth_absolute_reset : HintDecoders → Text → Time → Option Duration
parse_oauth_absolute_reset dec given now =
    let value = trim_space given in
    if is_empty value then none else elim (dec.base.parse_time value) [
      | some t ↦ some (sub t now)
      | none ↦ elim (dec.parse_rfc3339 value) [
        | some t ↦ some (sub t now)
        | none ↦ unix_reset (dec.parse_whole value) now
      ]
    ]

-- `sec > 1_000_000_000 || sec > 1_000_000_000_000`
abbrev is_timestamp : Option ℤ → Bool
is_timestamp none = false
is_timestamp (some sec) = ltb_ℤ (pos 1_000_000_000) sec || ltb_ℤ (pos 1_000_000_000_000) sec

abbrev first_hint : Option Duration → Option Duration → Option Duration
first_hint (some d) other = some d
first_hint none other = other

unfoldable pub parse_oauth_hint_duration : HintDecoders → Text → Time → Option Duration
parse_oauth_hint_duration dec given now =
    let value = trim_space given in
    let absolute = parse_oauth_absolute_reset dec value now in
    let relative = first_hint (parse_duration_hint dec.base value) absolute in
    if is_empty value
    then none
    else if is_timestamp (dec.parse_whole value)
    then first_hint absolute relative
    else relative

is_token_byte : ℕ → Bool
is_token_byte c =
    (leb b'0' c && leb c b'9')
    || ((c == b'.') || ((leb b'a' c && leb c b'z') || (leb b'A' c && leb c b'Z')))

-- tail[:end]
token_of : Text → Text
token_of [] = []
token_of (c ∷ s) = let rest = token_of s in if is_token_byte c then c ∷ rest else []

-- strings.TrimRight(s, cutset)
unfoldable pub trim_right : (ℕ → Bool) → Text → Text
trim_right cut [] = []
trim_right cut (c ∷ s) =
    let rest = trim_right cut s in if is_empty rest && cut c then [] else c ∷ rest

abbrev positive_duration : Option Duration → Option Duration
positive_duration none = none
positive_duration (some d) = if leb_ℤ d (pos 0) then none else some d

unfoldable pub parse_oauth_quota_reset_message : HintDecoders → Text → Option Duration
unfolding is_token_byte token_of
parse_oauth_quota_reset_message dec given =
    let value = trim_space given in
    let lower = to_lower value in
    if is_empty value
    then none
    else if not (contains lower (text "quota")) || not (contains lower (text "reset after"))
    then none
    else elim (index lower (text "reset after")) [
      | none ↦ none
      | some idx ↦
          let token = token_of (trim_space (drop (idx + 11) value)) in
          if is_empty token
          then none
          else positive_duration (
              dec.base.parse_duration
                (trim_right (λ c. (c == b'.') || ((c == b';') || (c == b','))) token))
    ]

without_joints : Text → Text
without_joints [] = []
without_joints (c ∷ s) =
    let rest = without_joints s in if (c == b'_') || (c == b'-') then rest else c ∷ rest

unfoldable pub normalize_oauth_hint_key : Text → Text
unfolding without_joints
normalize_oauth_hint_key key = without_joints (to_lower (trim_space key))

-- The zeros at the end of a number go, and then a point.
unfoldable pub json_hint_string : HintDecoders → Value → Text
json_hint_string dec (str s) = trim_space s
json_hint_string dec (number raw) =
    trim_space (trim_right (λ c. c == b'.') (trim_right (λ c. c == b'0') (dec.format_float raw)))
json_hint_string dec _ = []

abbrev contains_any : Text → List Text → Bool
contains_any s [] = false
contains_any s (p ∷ ps) = contains s p || contains_any s ps

unfoldable pub oauth_duration_from_json_hint : HintDecoders → Text → Value → Time → Option Duration
oauth_duration_from_json_hint dec key value now =
    let normalized = normalize_oauth_hint_key key in
    if is_empty normalized
    then none
    else if contains_any normalized
        (text "retryafter" ∷ text "retrydelay" ∷ text "resetafter" ∷ text "resetdelay" ∷ [])
    then parse_oauth_hint_duration dec (json_hint_string dec value) now
    else if contains_any normalized
        (text "resetat" ∷ text "resetsat" ∷ text "resettime" ∷ text "resettimestamp" ∷ [])
    then parse_oauth_absolute_reset dec (json_hint_string dec value) now
    else if eq_text normalized (text "message")
    then parse_oauth_quota_reset_message dec (json_hint_string dec value)
    else none

-- `if d, ok := hint; ok && d > max { max = d }`
abbrev pub raise : Option Duration → Duration → Duration
raise none max = max
raise (some d) max = if ltb_ℤ max d then d else max

-- `walk`: the greatest hint in a value and in what it holds. A loop over a map has no order; here it
-- takes the fields as they are listed.
unfoldable mutual
  pub walk : HintDecoders → Time → Text → Value → Duration → Duration
  walk dec now key null max = raise (oauth_duration_from_json_hint dec key null now) max
  walk dec now key (boolean b) max =
      raise (oauth_duration_from_json_hint dec key (boolean b) now) max
  walk dec now key (number raw) max =
      raise (oauth_duration_from_json_hint dec key (number raw) now) max
  walk dec now key (str s) max = raise (oauth_duration_from_json_hint dec key (str s) now) max
  walk dec now key (arr items) max =
      walk_items dec now items (raise (oauth_duration_from_json_hint dec key (arr items) now) max)
  walk dec now key (obj fields) max =
      walk_fields dec now fields
        (raise (oauth_duration_from_json_hint dec key (obj fields) now) max)

  pub walk_items : HintDecoders → Time → Items → Duration → Duration
  walk_items dec now nil max = max
  walk_items dec now (cons item items) max = walk_items dec now items (walk dec now [] item max)

  pub walk_fields : HintDecoders → Time → Fields → Duration → Duration
  walk_fields dec now no_fields max = max
  walk_fields dec now (field key value fields) max =
      walk_fields dec now fields (walk dec now key value max)

-- Nothing where no positive time was found; at most the longest cooldown.
abbrev pub cap : Duration → Option Duration
cap max =
    if leb_ℤ max (pos 0)
    then none
    else if ltb_ℤ max_oauth_retry_after_cooldown max
    then some max_oauth_retry_after_cooldown
    else some max

unfoldable pub oauth_retry_after_from_body : HintDecoders → Text → Time → Option Duration
oauth_retry_after_from_body dec given now =
    let body = trim_space given in
    if is_empty body then none else elim (dec.base.unmarshal body) [
      | none ↦ none
      | some root ↦ cap (walk dec now [] root (pos 0))
    ]

abbrev pub oauth_retry_after_header_keys : List Text
oauth_retry_after_header_keys =
    text "X-RateLimit-Reset"
    ∷ text "X-RateLimit-Reset-Requests"
    ∷ text "X-RateLimit-Reset-Tokens"
    ∷ text "Anthropic-RateLimit-Requests-Reset"
    ∷ text "Anthropic-RateLimit-Tokens-Reset"
    ∷ text "Anthropic-RateLimit-Input-Tokens-Reset"
    ∷ text "Anthropic-RateLimit-Output-Tokens-Reset"
    ∷ text "Anthropic-RateLimit-Unified-Reset"
    ∷ text "Anthropic-RateLimit-Unified-Overage-Reset"
    ∷ text "Anthropic-RateLimit-Unified-5h-Reset"
    ∷ text "Anthropic-RateLimit-Unified-7d-Reset"
    ∷ text "X-Goog-Quota-Reset"
    ∷ []

-- `consider`: a positive hint, cut to the longest cooldown.
unfoldable pub consider_hint : Option Duration → Duration → Duration
consider_hint none max = max
consider_hint (some d) max =
    let cut =
      if ltb_ℤ max_oauth_retry_after_cooldown d then max_oauth_retry_after_cooldown else d in
    if leb_ℤ d (pos 0) then max else if ltb_ℤ max cut then cut else max

unfoldable pub consider_headers :
    HintDecoders → (Text → Text) → Time → List Text → Duration → Duration
consider_headers dec hdr now [] max = max
consider_headers dec hdr now (key ∷ keys) max =
    consider_headers dec hdr now keys
      (consider_hint (parse_oauth_hint_duration dec (hdr key) now) max)

-- The last argument is the clock as `time.Until` reads it.
unfoldable pub oauth_retry_after :
    HintDecoders → (Text → Text) → Text → Time → Time → Option Duration
oauth_retry_after dec hdr body now reading =
    let a = consider_hint (parse_retry_after dec.base reading (hdr (text "Retry-After"))) (pos 0) in
    let b = consider_headers dec hdr now oauth_retry_after_header_keys a in
    let max = consider_hint (oauth_retry_after_from_body dec body now) b in
    if leb_ℤ max (pos 0) then none else some max
