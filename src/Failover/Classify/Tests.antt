-- ===== src/Failover/Classify/Tests.antt =====
-- Answers of servers, with decoders that read a few texts.
use clipal.Common.{
  ℕ, ◌≡◌, refl, ◌↔◌, Bool, true, false, [], Option, none, some, pos, Text, text, eq_text,
  has_prefix, contains, to_lower, to_upper, trim_space, if◌then◌else◌,
}
use clipal.Clock.{seconds}
use clipal.Json.{Value, str, obj, arr, field, no_fields, cons, nil, get}
use clipal.Failover.State.{auth, quota, busy}
use clipal.Failover.Forward.{Refusal, busy_retry, deactivate_and_retry_next}
use clipal.Failover.Classify.Sanitize.{truncate_string, sanitize_log_string, IsShown}
use clipal.Failover.Classify.RetryAfter.{
  Decoders, retry_after_duration, parse_retry_after, parse_duration_hint,
}
use clipal.Failover.Classify.TooMany.{
  in_set, extract_error_fields, classify_google_rpc_429, google_rpc_error_object, scan_detail,
  has_concurrency_signal, scan_details, classify_429, scanned, exhausted,
}
use clipal.Failover.Classify.Details.{
  scan_details-alone, any_alone, is_exhausted, tells_retry, tells_quota,
}
use clipal.Failover.Classify.Upstream.{classify_upstream_failure}
use clipal.Failover.Classify.Verdicts.{
  classify_upstream_failure-IsShown, classify_upstream_failure-IsSound, IsSound,
  classify_upstream_failure-none, listed, handled_statuses,
}

-- {"error": {"message": "Too many concurrent requests"}}
abbrev congested : Value
congested = obj (
    field (text "error")
      (obj (field (text "message") (str (text "Too many concurrent requests")) no_fields))
      no_fields)

abbrev retry_detail : Value
retry_detail =
    obj (field (text "@type") (str (text "type.googleapis.com/google.rpc.RetryInfo")) no_fields)

abbrev quota_detail : Value
quota_detail = obj (field (text "reason") (str (text "quota_exhausted")) no_fields)

abbrev out_of_quota : Value
out_of_quota = obj (
    field (text "error")
      (obj (field (text "details") (arr (cons retry_detail (cons quota_detail nil))) no_fields))
      no_fields)

abbrev decoders : Decoders
decoders = record {
  unmarshal = λ body.
      if eq_text body (text "busy")
      then some congested
      else if eq_text body (text "quota")
      then some out_of_quota
      else none;
  atoi = λ v. if eq_text v (text "2") then some (pos 2) else none;
  parse_duration = λ v. none;
  parse_time = λ v. none;
}

abbrev headers : Text → Text
headers name = if eq_text name (text "Retry-After") then text " 2 " else []

abbrev run : ℕ → Text → Bool → Option Refusal
run status body truncated = classify_upstream_failure decoders 0 status headers body truncated

busy_for_two_seconds :
    run 429 (text "busy") false
    ≡ some (record {
      action = busy_retry;
      reason = busy;
      status = 429;
      message = text "busy";
      cooldown = seconds 2;
    })
unfolding classify_upstream_failure classify_429 eq_text in_set to_lower extract_error_fields get
    contains has_prefix classify_google_rpc_429 google_rpc_error_object to_upper trim_space
    scan_details scan_detail retry_after_duration parse_retry_after parse_duration_hint
    has_concurrency_signal sanitize_log_string truncate_string
busy_for_two_seconds = refl

quota_is_over : classify_429 decoders (text "quota") ≡ (deactivate_and_retry_next, quota)
unfolding classify_429 eq_text in_set to_lower extract_error_fields get contains has_prefix
    classify_google_rpc_429 google_rpc_error_object to_upper trim_space scan_details scan_detail
quota_is_over = refl

classify_upstream_failure-IsSound_example :
    IsSound (classify_upstream_failure decoders 0 429 headers (text "busy") true)
classify_upstream_failure-IsSound_example =
    classify_upstream_failure-IsSound decoders 0 429 headers (text "busy") true

classify_upstream_failure-none_example :
    (classify_upstream_failure decoders 0 503 headers (text "busy") false ≡ none)
    ↔ (listed 503 handled_statuses ≡ false)
classify_upstream_failure-none_example =
    classify_upstream_failure-none decoders 0 503 headers (text "busy") false

scan_details-alone_example :
    scan_details (cons retry_detail (cons quota_detail nil)) false false ≡ (
      if any_alone is_exhausted (cons retry_detail (cons quota_detail nil))
      then exhausted
      else scanned
          (any_alone tells_retry (cons retry_detail (cons quota_detail nil)))
          (any_alone tells_quota (cons retry_detail (cons quota_detail nil))))
scan_details-alone_example = scan_details-alone (cons retry_detail (cons quota_detail nil))

classify_upstream_failure-IsShown_example : IsShown (text "a\\nb...") 2048
unfolding classify_upstream_failure sanitize_log_string truncate_string has_prefix
classify_upstream_failure-IsShown_example =
    classify_upstream_failure-IsShown decoders 0 401 headers (text "a\nb") true
      (record {
        action = deactivate_and_retry_next;
        reason = auth;
        status = 401;
        message = text "a\\nb...";
        cooldown = pos 0;
      })
      refl
