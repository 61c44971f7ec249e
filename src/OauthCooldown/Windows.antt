-- ===== src/OauthCooldown/Windows.antt =====
-- internal/proxy/oauth_cooldown.go: when the windows of usage that are exhausted open again. Shares
-- and percentages are floats in the code, and millionths of one here.
use clipal.Common.{
  ℕ, ◌*◌, leb, ltb, Bool, false, ◌&&◌, ◌||◌, not, if◌then◌else◌, List, [], ◌∷◌, Option, none, some,
  ℤ, pos, leb_ℤ, Text, text, eq_text, is_empty, contains, trim_space, to_lower,
}
use clipal.Clock.{Time, is_zero, before}

pub record CodexWindow : Type 0 where
  pub used_percent : ℕ
  pub resets_at : Time

pub record CodexLimit : Type 0 where
  pub limit_reached : Bool
  pub primary : Option CodexWindow
  pub secondary : Option CodexWindow

pub record CodexUsageDetails : Type 0 where
  pub own : CodexLimit
  pub additional : List CodexLimit

abbrev pub percent : ℕ → ℕ
percent n = n * 1_000_000

-- `if latest.IsZero() || at.After(latest) { latest = at }`
unfoldable pub later_of : Time → Time → Time
later_of latest at = if is_zero latest || before latest at then at else latest

-- The loop's body of `consider`.
unfoldable pub consider_window : Bool → Time → Option CodexWindow → Time → Time
consider_window limit_reached now none latest = latest
consider_window limit_reached now (some window) latest =
    let threshold = if limit_reached then percent 98 else percent 100 in
    if not (before now window.resets_at)
    then latest
    else if ltb window.used_percent threshold
    then latest
    else later_of latest window.resets_at

unfoldable pub consider_limit : Time → CodexLimit → Time → Time
consider_limit now limit latest =
    consider_window limit.limit_reached now limit.secondary
      (consider_window limit.limit_reached now limit.primary latest)

unfoldable pub consider_limits : Time → List CodexLimit → Time → Time
consider_limits now [] latest = latest
consider_limits now (limit ∷ limits) latest =
    consider_limits now limits (consider_limit now limit latest)

-- The zero time is no time.
abbrev pub unless_zero : Time → Option Time
unless_zero t = if is_zero t then none else some t

unfoldable pub codex_oauth_cooldown_until : Option CodexUsageDetails → Time → Option Time
codex_oauth_cooldown_until none now = none
codex_oauth_cooldown_until (some details) now =
    unless_zero (consider_limits now (details.own ∷ details.additional) 0)

pub record ClaudeWindow : Type 0 where
  pub utilization : ℕ
  pub resets_at : Time

pub record ClaudeUsageDetails : Type 0 where
  pub five_hour : Option ClaudeWindow
  pub seven_day : Option ClaudeWindow
  pub seven_day_oauth_apps : Option ClaudeWindow
  pub seven_day_opus : Option ClaudeWindow
  pub seven_day_sonnet : Option ClaudeWindow

unfoldable pub claude_oauth_windows_for_claim :
    ClaudeUsageDetails → Text → List (Option ClaudeWindow)
claude_oauth_windows_for_claim details given =
    let claim = to_lower (trim_space given) in
    if eq_text claim (text "five_hour")
    then details.five_hour ∷ []
    else if eq_text claim (text "seven_day")
    then details.seven_day ∷ []
    else if eq_text claim (text "seven_day_oauth_apps")
    then details.seven_day_oauth_apps ∷ details.seven_day ∷ []
    else if eq_text claim (text "seven_day_opus")
    then details.seven_day_opus ∷ details.seven_day ∷ []
    else if eq_text claim (text "seven_day_sonnet")
    then details.seven_day_sonnet ∷ details.seven_day ∷ []
    else []

unfoldable pub claude_oauth_all_windows : ClaudeUsageDetails → List (Option ClaudeWindow)
claude_oauth_all_windows details =
    details.five_hour ∷ details.seven_day ∷ details.seven_day_oauth_apps ∷ details.seven_day_opus
    ∷ details.seven_day_sonnet ∷ []

-- When an exhausted window opens again; `none` for a window that is not exhausted.
unfoldable pub claude_oauth_window_exhausted : ℕ → Time → Option ClaudeWindow → Option Time
claude_oauth_window_exhausted threshold now none = none
claude_oauth_window_exhausted threshold now (some window) =
    if not (before now window.resets_at)
    then none
    else if leb threshold window.utilization
    then some window.resets_at
    else none

unfoldable pub first_exhausted : ℕ → Time → List (Option ClaudeWindow) → Option Time
first_exhausted threshold now [] = none
first_exhausted threshold now (window ∷ windows) =
    let rest = first_exhausted threshold now windows in
    elim (claude_oauth_window_exhausted threshold now window) [ some at ↦ some at | none ↦ rest ]

-- The loop that counts: it gives up at the second exhausted window.
unfoldable pub only_exhausted : ℕ → Time → List (Option ClaudeWindow) → Option Time → Option Time
only_exhausted threshold now [] exhausted = exhausted
only_exhausted threshold now (window ∷ windows) exhausted =
    let skipped = only_exhausted threshold now windows exhausted in
    elim (claude_oauth_window_exhausted threshold now window) [
      | none ↦ skipped
      | some at ↦ elim exhausted [
        | none ↦ only_exhausted threshold now windows (some at)
        | some other ↦ none
      ]
    ]

unfoldable pub claude_oauth_cooldown_until : Option ClaudeUsageDetails → Text → Time → Option Time
claude_oauth_cooldown_until none representative_claim now = none
claude_oauth_cooldown_until (some details) representative_claim now =
    if not (is_empty representative_claim)
    then first_exhausted (percent 95) now
        (claude_oauth_windows_for_claim details representative_claim)
    else only_exhausted (percent 100) now (claude_oauth_all_windows details) none

pub record GeminiBucket : Type 0 where
  pub model_id : Text
  pub remaining_fraction : Option ℤ
  pub remaining_amount : Option ℤ
  pub reset_time : Time

unfoldable pub gemini_oauth_quota_tier : Text → Text
gemini_oauth_quota_tier given =
    let model_name = to_lower (trim_space given) in
    if contains model_name (text "flash-lite")
    then text "flash-lite"
    else if contains model_name (text "flash")
    then text "flash"
    else if contains model_name (text "pro")
    then text "pro"
    else []

abbrev at_most : ℤ → Option ℤ → Bool
at_most bound none = false
at_most bound (some x) = leb_ℤ x bound

-- At most a twentieth, or no amount, is left.
unfoldable pub gemini_oauth_bucket_exhausted : GeminiBucket → Bool
gemini_oauth_bucket_exhausted bucket =
    at_most (pos 50_000) bucket.remaining_fraction || at_most (pos 0) bucket.remaining_amount

unfoldable pub latest_reset : Time → List GeminiBucket → Time → Time
latest_reset now [] latest = latest
latest_reset now (bucket ∷ buckets) latest =
    let skipped = latest_reset now buckets latest in
    let taken = latest_reset now buckets (later_of latest bucket.reset_time) in
    if not (before now bucket.reset_time) || not (gemini_oauth_bucket_exhausted bucket)
    then skipped
    else taken

unfoldable pub gemini_oauth_latest_exhausted_reset : List GeminiBucket → Time → Option Time
gemini_oauth_latest_exhausted_reset buckets now = unless_zero (latest_reset now buckets 0)

-- The two lists that the loop fills: the buckets of the model, and those of its tier.
unfoldable pub split_buckets :
    Text → Text → List GeminiBucket → List GeminiBucket × List GeminiBucket
split_buckets model_name target_tier [] = ([], [])
split_buckets model_name target_tier (bucket ∷ buckets) =
    let (exact, tier) = split_buckets model_name target_tier buckets in
    let bucket_model = trim_space bucket.model_id in
    if is_empty bucket_model
    then (exact, tier)
    else if eq_text bucket_model model_name
    then (bucket ∷ exact, tier)
    else if not (is_empty target_tier) && eq_text (gemini_oauth_quota_tier bucket_model) target_tier
    then (exact, bucket ∷ tier)
    else (exact, tier)

abbrev or_else : List GeminiBucket → List GeminiBucket → List GeminiBucket
or_else [] tier = tier
or_else (b ∷ exact) tier = b ∷ exact

unfoldable pub gemini_oauth_buckets_for_model : List GeminiBucket → Text → List GeminiBucket
gemini_oauth_buckets_for_model buckets given =
    let model_name = trim_space given in
    let lists = split_buckets model_name (gemini_oauth_quota_tier model_name) buckets in
    if is_empty model_name then [] else or_else lists.0 lists.1

-- `none` stands for details that are missing.
unfoldable pub gemini_oauth_cooldown_until : Option (List GeminiBucket) → Text → Time → Option Time
gemini_oauth_cooldown_until none model_name now = none
gemini_oauth_cooldown_until (some buckets) model_name now =
    gemini_oauth_latest_exhausted_reset
      (or_else (gemini_oauth_buckets_for_model buckets model_name) buckets) now
