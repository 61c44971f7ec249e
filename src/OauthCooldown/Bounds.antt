-- ===== src/OauthCooldown/Bounds.antt =====
-- oauthCooldownForFailure of internal/proxy/oauth_cooldown.go: the range of the cooldown.
use clipal.Common.{
  ◌≡◌, ◌⊎◌, inl, inr, refl, Bool, true, false, not, if◌then◌else◌, List, [], ◌∷◌, Option, none,
  some, pos, ◌≤ℤ◌, ltb_ℤ, leb_ℤ, Text, text, arith, Bool-cases, eq_text,
}
use clipal.Clock.{Time, Duration}
use clipal.Providers.{Provider, uses_oauth, normalized_oauth_provider}
use clipal.OauthCooldown.Windows.{
  codex_oauth_cooldown_until, claude_oauth_cooldown_until, gemini_oauth_cooldown_until,
}
use clipal.OauthCooldown.Hints.{
  HintDecoders, max_oauth_retry_after_cooldown, consider_hint, consider_headers, oauth_retry_after,
  parse_oauth_hint_duration, oauth_retry_after_header_keys, oauth_retry_after_from_body,
}
use clipal.Failover.Classify.RetryAfter.{parse_retry_after}
use clipal.OauthCooldown.Choice.{
  claude_oauth_representative_claim, UsageAnswers, cooldown_until, first_of, longer_of,
  oauth_cooldown_for_failure,
}

-- No longer than eight days.
abbrev IsShort : Duration → Type 0
IsShort d = d ≤ℤ max_oauth_retry_after_cooldown

-- A cooldown that is told is positive and at most eight days.
abbrev pub IsCooldown : Duration → Type 0
IsCooldown d = (pos 1 ≤ℤ d) × IsShort d

abbrev IsHint : Option Duration → Type 0
IsHint none = Unit {0}
IsHint (some d) = IsCooldown d

consider_hint-IsShort :
    (hint : Option Duration) (max : Duration) → IsShort max → IsShort (consider_hint hint max)
unfolding consider_hint
consider_hint-IsShort none max h = h
consider_hint-IsShort (some d) max h = ground arith

consider_headers-IsShort :
    (dec : HintDecoders) (hdr : Text → Text) (now : Time) (keys : List Text) (max : Duration)
    → IsShort max
    → IsShort (consider_headers dec hdr now keys max)
unfolding consider_headers
consider_headers-IsShort dec hdr now [] max h = h
consider_headers-IsShort dec hdr now (key ∷ keys) max h =
    let hint = parse_oauth_hint_duration dec (hdr key) now in
    consider_headers-IsShort dec hdr now keys (consider_hint hint max)
      (consider_hint-IsShort hint max h)

positive_short :
    (max : Duration) → IsShort max → IsHint (if leb_ℤ max (pos 0) then none else some max)
positive_short max h = ground arith

oauth_retry_after-IsHint :
    (dec : HintDecoders) (hdr : Text → Text) (body : Text) (now reading : Time)
    → IsHint (oauth_retry_after dec hdr body now reading)
unfolding oauth_retry_after
oauth_retry_after-IsHint dec hdr body now reading =
    let retry = parse_retry_after dec.base reading (hdr (text "Retry-After")) in
    let a = consider_hint retry (pos 0) in
    let b = consider_headers dec hdr now oauth_retry_after_header_keys a in
    let said = oauth_retry_after_from_body dec body now in
    positive_short (consider_hint said b) (
      consider_hint-IsShort said b (
        consider_headers-IsShort dec hdr now oauth_retry_after_header_keys a
          (consider_hint-IsShort retry (pos 0) (omega arith))))

cooldown_until-IsHint : (until : Option Time) (now : Time) → IsHint (cooldown_until until now)
unfolding cooldown_until
cooldown_until-IsHint none now = tt
cooldown_until-IsHint (some until) now = ground arith

-- The fallback, or a cooldown.
abbrev pub IsChosen : Duration → Duration → Type 0
IsChosen fallback d = (d ≡ fallback) ⊎ IsCooldown d

first_of-IsChosen :
    (a b : Option Duration) (fallback : Duration)
    → IsHint a
    → IsHint b
    → IsChosen fallback (first_of a b fallback)
first_of-IsChosen (some d) b fallback ha hb = inr ha
first_of-IsChosen none (some d) fallback ha hb = inr hb
first_of-IsChosen none none fallback ha hb = inl refl

longer_of-IsChosen :
    (a b : Option Duration) (fallback : Duration)
    → IsHint a
    → IsHint b
    → IsChosen fallback (longer_of a b fallback)
longer_of-IsChosen (some d) (some e) fallback ha hb = elim (Bool-cases (ltb_ℤ d e)) [
  | inl h ↦ rw h (inr hb)
  | inr h ↦ rw h (inr ha)
]
longer_of-IsChosen (some d) none fallback ha hb = inr ha
longer_of-IsChosen none (some e) fallback ha hb = inr hb
longer_of-IsChosen none none fallback ha hb = inl refl

IsChosen-if :
    (b : Bool) (fallback d e : Duration)
    → IsChosen fallback d
    → IsChosen fallback e
    → IsChosen fallback (if b then d else e)
IsChosen-if true fallback d e hd he = hd
IsChosen-if false fallback d e hd he = he

-- Whatever the usage services, the headers and the body say, the cooldown of an account after a
-- failure is the fallback or a positive time of at most eight days.
pub oauth_cooldown_for_failure-IsChosen :
    (dec : HintDecoders) (provider : Provider) (usage : UsageAnswers) (model_name : Text)
    (hdr : Text → Text) (body : Text) (now reading : Time) (fallback : Duration)
    → IsChosen fallback
        (oauth_cooldown_for_failure dec provider usage model_name hdr body now reading fallback)
unfolding oauth_cooldown_for_failure
oauth_cooldown_for_failure-IsChosen dec provider usage model_name hdr body now reading fallback =
    let claim = claude_oauth_representative_claim hdr in
    let kind = normalized_oauth_provider provider in
    let retry = oauth_retry_after dec hdr body now reading in
    let codex = codex_oauth_cooldown_until usage.codex now in
    let claude = claude_oauth_cooldown_until usage.claude claim now in
    let gemini = gemini_oauth_cooldown_until usage.gemini model_name now in
    let retried = oauth_retry_after-IsHint dec hdr body now reading in
    let by_codex = first_of (cooldown_until codex now) retry fallback in
    let by_claude = first_of (cooldown_until claude now) retry fallback in
    let by_gemini = longer_of (cooldown_until gemini now) retry fallback in
    let others = first_of none retry fallback in
    let is_gemini = eq_text kind (text "antigravity") in
    let is_claude = eq_text kind (text "claude") in
    let last = if is_gemini then by_gemini else others in
    let middle = if is_claude then by_claude else last in
    let first = if eq_text kind (text "codex") then by_codex else middle in
    IsChosen-if (not (uses_oauth provider)) fallback fallback first (inl refl) (
      IsChosen-if (eq_text kind (text "codex")) fallback by_codex middle
        (first_of-IsChosen (cooldown_until codex now) retry fallback
          (cooldown_until-IsHint codex now) retried)
        (IsChosen-if is_claude fallback by_claude last
          (first_of-IsChosen (cooldown_until claude now) retry fallback
            (cooldown_until-IsHint claude now) retried)
          (IsChosen-if is_gemini fallback by_gemini others
            (longer_of-IsChosen (cooldown_until gemini now) retry fallback
              (cooldown_until-IsHint gemini now) retried)
            (first_of-IsChosen none retry fallback tt retried))))
