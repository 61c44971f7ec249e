-- ===== src/OauthCooldown/Choice.antt =====
-- internal/proxy/oauth_cooldown.go: which of the hints counts for a provider. What the usage services
-- answer is an argument, `none` where they fail.
use clipal.Common.{
  Bool, true, not, if◌then◌else◌, List, Option, none, some, pos, ltb_ℤ, leb_ℤ, Text, text, eq_text,
  trim_space, to_lower,
}
use clipal.Clock.{Time, Duration, sub}
use clipal.Providers.{Provider, uses_oauth, normalized_oauth_provider}
use clipal.OauthCooldown.Windows.{
  CodexUsageDetails, ClaudeUsageDetails, GeminiBucket, codex_oauth_cooldown_until,
  claude_oauth_cooldown_until, gemini_oauth_cooldown_until,
}
use clipal.OauthCooldown.Hints.{HintDecoders, max_oauth_retry_after_cooldown, oauth_retry_after}

unfoldable pub is_oauth_cooldown_reason : Text → Bool
is_oauth_cooldown_reason given =
    let reason = trim_space given in
    if eq_text reason (text "quota")
    then true
    else if eq_text reason (text "rate_limit")
    then true
    else eq_text reason (text "overloaded")

-- What the usage services answer about the account.
pub record UsageAnswers : Type 0 where
  pub codex : Option CodexUsageDetails
  pub claude : Option ClaudeUsageDetails
  pub gemini : Option (List GeminiBucket)

-- The time until `until`, if it is positive, and at most the longest cooldown.
unfoldable pub cooldown_until : Option Time → Time → Option Duration
cooldown_until none now = none
cooldown_until (some until) now =
    let cooldown = sub until now in
    if leb_ℤ cooldown (pos 0)
    then none
    else if ltb_ℤ max_oauth_retry_after_cooldown cooldown
    then some max_oauth_retry_after_cooldown
    else some cooldown

abbrev pub claude_oauth_representative_claim : (Text → Text) → Text
claude_oauth_representative_claim hdr =
    to_lower (trim_space (hdr (text "Anthropic-RateLimit-Unified-Representative-Claim")))

-- The first that there is, else the fallback.
abbrev pub first_of : Option Duration → Option Duration → Duration → Duration
first_of (some d) other fallback = d
first_of none (some d) fallback = d
first_of none none fallback = fallback

-- The longer of the two, if there are two.
abbrev pub longer_of : Option Duration → Option Duration → Duration → Duration
longer_of (some usage) (some retry) fallback = if ltb_ℤ usage retry then retry else usage
longer_of (some usage) none fallback = usage
longer_of none (some retry) fallback = retry
longer_of none none fallback = fallback

unfoldable pub oauth_cooldown_for_failure :
    HintDecoders
    → Provider
    → UsageAnswers
    → Text
    → (Text → Text)
    → Text
    → Time
    → Time
    → Duration
    → Duration
oauth_cooldown_for_failure dec provider usage model_name hdr body now reading fallback =
    let claim = claude_oauth_representative_claim hdr in
    let kind = normalized_oauth_provider provider in
    let retry = oauth_retry_after dec hdr body now reading in
    if not (uses_oauth provider)
    then fallback
    else if eq_text kind (text "codex")
    then first_of (cooldown_until (codex_oauth_cooldown_until usage.codex now) now) retry fallback
    else if eq_text kind (text "claude")
    then first_of (cooldown_until (claude_oauth_cooldown_until usage.claude claim now) now) retry
        fallback
    else if eq_text kind (text "antigravity")
    then longer_of (cooldown_until (gemini_oauth_cooldown_until usage.gemini model_name now) now)
        retry fallback
    else first_of none retry fallback
