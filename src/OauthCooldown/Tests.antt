-- ===== src/OauthCooldown/Tests.antt =====
-- An account whose windows are exhausted, and a body that names 60 seconds.
use clipal.Common.{
  ◌≡◌, refl, true, false, [], ◌∷◌, none, some, pos, Text, text, eq_text, if◌then◌else◌, trim_space,
  to_lower, contains, has_prefix, index,
}
use clipal.Clock.{Time, seconds}
use clipal.Json.{Value, number, obj, field, no_fields}
use clipal.Providers.{Provider}
use clipal.OauthCooldown.Windows.{
  CodexUsageDetails, codex_oauth_cooldown_until, percent, unless_zero, consider_window,
  consider_limit, consider_limits, later_of, ClaudeUsageDetails, claude_oauth_cooldown_until,
  claude_oauth_window_exhausted, first_exhausted, only_exhausted, claude_oauth_all_windows,
  claude_oauth_windows_for_claim, gemini_oauth_cooldown_until, gemini_oauth_buckets_for_model,
  split_buckets, gemini_oauth_quota_tier, gemini_oauth_latest_exhausted_reset, latest_reset,
  gemini_oauth_bucket_exhausted, GeminiBucket,
}
use clipal.OauthCooldown.Hints.{
  HintDecoders, oauth_duration_from_json_hint, oauth_retry_after_from_body, walk,
  normalize_oauth_hint_key, parse_oauth_hint_duration, json_hint_string, trim_right,
  parse_oauth_quota_reset_message,
}
use clipal.Failover.Classify.RetryAfter.{parse_duration_hint}
use clipal.OauthCooldown.Choice.{UsageAnswers, oauth_cooldown_for_failure, is_oauth_cooldown_reason}
use clipal.OauthCooldown.Latest.{codex_oauth_cooldown_until-latest_of, latest_of, resets_of}
use clipal.OauthCooldown.Bounds.{oauth_cooldown_for_failure-IsChosen, IsChosen}
use clipal.OauthCooldown.Zeros.{oauth_duration_from_json_hint_zero}

-- {"retry_after": 60}
abbrev body_value : Value
body_value = obj (field (text "retry_after") (number (text "60")) no_fields)

abbrev decoders : HintDecoders
decoders = record {
  base = record {
    unmarshal = λ body. some body_value;
    atoi = λ v.
        if eq_text v (text "6")
        then some (pos 6)
        else if eq_text v (text "60")
        then some (pos 60)
        else none;
    parse_duration = λ v. if eq_text v (text "1h2m3s") then some (seconds 3723) else none;
    parse_time = λ v. none;
  };
  parse_rfc3339 = λ v. none;
  parse_whole = λ v. none;
  format_float = λ raw. raw;
}

abbrev details : CodexUsageDetails
details = record {
  own = record {
    limit_reached = true;
    primary = some (record { used_percent = percent 99; resets_at = 500 });
    secondary = none;
  };
  additional =
      record {
        limit_reached = false;
        primary = some (record { used_percent = percent 99; resets_at = 900 });
        secondary = some (record { used_percent = percent 100; resets_at = 700 });
      }
      ∷ [];
}

abbrev account : Provider
account = record {
  name = text "a";
  auth_type = text "oauth";
  oauth_provider = text "codex";
  oauth_ref = text "r";
  base_url = [];
}

abbrev answers : UsageAnswers
answers = record { codex = some details; claude = none; gemini = none }

abbrev no_headers : Text → Text
no_headers name = []

abbrev bucket : Text → Time → GeminiBucket
bucket model at = record {
  model_id = model;
  remaining_fraction = some (pos 0);
  remaining_amount = none;
  reset_time = at;
}

oauth_cooldown_for_failure-IsChosen_example : IsChosen (seconds 5) (
    oauth_cooldown_for_failure decoders account answers
      (text "m")
      no_headers
      (text "{}")
      100
      100
      (seconds 5))
oauth_cooldown_for_failure-IsChosen_example =
    oauth_cooldown_for_failure-IsChosen decoders account answers (text "m") no_headers (text "{}")
      100 100 (seconds 5)

codex_oauth_cooldown_until-latest_of_example :
    codex_oauth_cooldown_until (some details) 100
    ≡ unless_zero (latest_of (resets_of 100 (details.own ∷ details.additional)))
codex_oauth_cooldown_until-latest_of_example = codex_oauth_cooldown_until-latest_of details 100

latest_exhausted : codex_oauth_cooldown_until (some details) 100 ≡ some 700
unfolding codex_oauth_cooldown_until consider_limits consider_limit consider_window later_of
latest_exhausted = refl

oauth_duration_from_json_hint_zero_example :
    oauth_duration_from_json_hint decoders (text "retry_after") (number (text "60")) 0
    ≡ oauth_duration_from_json_hint decoders (text "retry_after") (number (text "6")) 0
oauth_duration_from_json_hint_zero_example =
    oauth_duration_from_json_hint_zero decoders (text "retry_after") (text "60") (text "6")
      (text "6") 0 refl refl

-- The body asks for 60 seconds.
six_seconds : oauth_retry_after_from_body decoders (text "{}") 0 ≡ some (seconds 6)
unfolding oauth_retry_after_from_body walk oauth_duration_from_json_hint normalize_oauth_hint_key
    parse_oauth_hint_duration json_hint_string trim_right parse_duration_hint trim_space to_lower
    contains has_prefix eq_text
six_seconds = refl

message_read :
    parse_oauth_quota_reset_message decoders (text "Quota used up; will reset after 1h2m3s.")
    ≡ some (seconds 3723)
unfolding parse_oauth_quota_reset_message trim_space to_lower contains has_prefix index eq_text
    trim_right
message_read = refl

one_model :
    gemini_oauth_cooldown_until
      (some (bucket (text "gemini-pro") 300 ∷ bucket (text "gemini-2-pro") 900 ∷ []))
      (text "gemini-pro")
      100
    ≡ some 300
unfolding gemini_oauth_cooldown_until gemini_oauth_buckets_for_model split_buckets
    gemini_oauth_quota_tier gemini_oauth_latest_exhausted_reset latest_reset
    gemini_oauth_bucket_exhausted later_of trim_space to_lower contains has_prefix eq_text
one_model = refl

-- Two exhausted windows and no claim: neither is taken.
abbrev two_windows : ClaudeUsageDetails
two_windows = record {
  five_hour = some (record { utilization = percent 100; resets_at = 300 });
  seven_day = some (record { utilization = percent 100; resets_at = 900 });
  seven_day_oauth_apps = none;
  seven_day_opus = none;
  seven_day_sonnet = none;
}

undecided : claude_oauth_cooldown_until (some two_windows) [] 100 ≡ none
unfolding claude_oauth_cooldown_until claude_oauth_all_windows only_exhausted
    claude_oauth_window_exhausted
undecided = refl

claimed : claude_oauth_cooldown_until (some two_windows) (text "five_hour") 100 ≡ some 300
unfolding claude_oauth_cooldown_until claude_oauth_windows_for_claim first_exhausted
    claude_oauth_window_exhausted to_lower trim_space eq_text
claimed = refl

quota_waits : is_oauth_cooldown_reason (text " quota ") ≡ true
unfolding is_oauth_cooldown_reason trim_space eq_text
quota_waits = refl
