-- ===== src/Failover/Classify/TooMany.antt =====
-- internal/proxy/failover_classify.go: what the body of an answer with status 429 says.
use clipal.Common.{
  Bool, true, false, ◌&&◌, ◌||◌, if◌then◌else◌, List, [], ◌∷◌, ◌++◌, Option, none, some, Text, text,
  eq_text, contains, trim_space, to_lower, to_upper,
}
use clipal.Json.{Value, Items, Fields, get, as_object, string_from_any, any_slice, nil, cons}
use clipal.Failover.State.{Reason, auth, quota, rate_limit, overloaded, busy}
use clipal.Failover.Forward.{FailureAction, retry_next, busy_retry, deactivate_and_retry_next}
use clipal.Failover.Classify.RetryAfter.{Decoders}

-- inSet(v, values...)
unfoldable pub in_set : Text → List Text → Bool
in_set v [] = false
in_set v (s ∷ values) = eq_text v s || in_set v values

pub record ErrorFields : Type 0 where
  pub code : Text
  pub typ : Text
  pub msg : Text

abbrev fields_of : Fields → ErrorFields
fields_of o = record {
  code = string_from_any (get o (text "code"));
  typ = string_from_any (get o (text "type"));
  msg = string_from_any (get o (text "message"));
}

unfoldable pub extract_error_fields : Value → ErrorFields
extract_error_fields v = elim (as_object v) [
  | none ↦ record { code = []; typ = []; msg = [] }
  | some root ↦ elim (as_object (get root (text "error"))) [
    | some err_obj ↦ fields_of err_obj
    | none ↦ fields_of root
  ]
]

unfoldable pub google_rpc_error_object : Value → Option Fields
google_rpc_error_object v = elim (as_object v) [
  | none ↦ none
  | some root ↦ as_object (get root (text "error"))
]

unfoldable pub google_quota_violation_is_terminal : Value → Bool
google_quota_violation_is_terminal v = elim (as_object v) [
  | none ↦ false
  | some violation ↦
      let words = to_lower (
        trim_space (
          string_from_any (get violation (text "quotaId"))
          ++ (text " "
              ++ (string_from_any (get violation (text "subject"))
                  ++ (text " " ++ string_from_any (get violation (text "description"))))))) in
      contains words (text "perday")
      || (contains words (text "per_day")
          || (contains words (text "daily")
              || (contains words (text "free-tier") || contains words (text "freetier"))))
]

-- The loop over `violations`.
unfoldable pub any_terminal : Items → Bool
any_terminal nil = false
any_terminal (cons v vs) = google_quota_violation_is_terminal v || any_terminal vs

-- The loop over `details` returns at once, or goes on with what it has found.
pub data Scan : Type 0 where
  exhausted : Scan
  scanned : Bool → Bool → Scan

-- The second `switch` of the loop's body.
abbrev scan_type : Fields → Bool → Bool → Scan
scan_type detail_obj has_retry_info has_quota_detail =
    let type_name = to_lower (trim_space (string_from_any (get detail_obj (text "@type")))) in
    if contains type_name (text "google.rpc.retryinfo")
    then scanned true has_quota_detail
    else if contains type_name (text "google.rpc.quotafailure")
    then if any_terminal (any_slice (get detail_obj (text "violations")))
      then exhausted
      else scanned has_retry_info true
    else scanned has_retry_info has_quota_detail

unfoldable pub scan_detail : Value → Bool → Bool → Scan
scan_detail detail has_retry_info has_quota_detail = elim (as_object detail) [
  | none ↦ scanned has_retry_info has_quota_detail
  | some detail_obj ↦
      let reason = to_upper (trim_space (string_from_any (get detail_obj (text "reason")))) in
      if in_set reason (text "QUOTA_EXHAUSTED" ∷ text "INSUFFICIENT_G1_CREDITS_BALANCE" ∷ [])
      then exhausted
      else if eq_text reason (text "RATE_LIMIT_EXCEEDED")
      then scan_type detail_obj true has_quota_detail
      else scan_type detail_obj has_retry_info has_quota_detail
]

unfoldable pub scan_details : Items → Bool → Bool → Scan
scan_details nil has_retry_info has_quota_detail = scanned has_retry_info has_quota_detail
scan_details (cons detail details) has_retry_info has_quota_detail =
    elim (scan_detail detail has_retry_info has_quota_detail) [
      | exhausted ↦ exhausted
      | scanned r q ↦ scan_details details r q
    ]

-- What the error says after the loop.
abbrev pub judge_scan : Scan → Text → Text → Option (FailureAction × Reason)
judge_scan exhausted status msg = some (deactivate_and_retry_next, quota)
judge_scan (scanned has_retry_info has_quota_detail) status msg =
    if has_retry_info
    then some (retry_next, rate_limit)
    else if has_quota_detail && (contains msg (text "daily") || contains msg (text "quota"))
    then some (deactivate_and_retry_next, quota)
    else if eq_text status (text "RESOURCE_EXHAUSTED")
        && (contains msg (text "quota exhausted") || contains msg (text "daily limit"))
    then some (deactivate_and_retry_next, quota)
    else none

unfoldable pub classify_google_rpc_429 : Value → Text → Option (FailureAction × Reason)
classify_google_rpc_429 v msg = elim (google_rpc_error_object v) [
  | none ↦ none
  | some err_obj ↦
      let status = to_upper (trim_space (string_from_any (get err_obj (text "status")))) in
      if in_set status (text "PERMISSION_DENIED" ∷ text "UNAUTHENTICATED" ∷ [])
      then some (deactivate_and_retry_next, auth)
      else judge_scan (scan_details (any_slice (get err_obj (text "details"))) false false) status
          msg
]

unfoldable pub has_concurrency_signal : Text → Text → Text → Bool
has_concurrency_signal code typ msg =
    if contains msg (text "concurrent")
      || (contains msg (text "capacity") || contains msg (text "too many active requests"))
    then true
    else in_set code (text "concurrency_limit_exceeded" ∷ [])
      || in_set typ (text "concurrency_error" ∷ [])

-- The first test: a credential that will not work.
abbrev pub is_hard_failure : Text → Text → Text → Bool
is_hard_failure code typ msg =
    in_set code (text "invalid_api_key" ∷ text "account_deactivated" ∷ [])
    || (in_set typ
          (text "authentication_error" ∷ text "permission_error" ∷ text "invalid_api_key" ∷ [])
        || contains msg (text "invalid api key"))

abbrev pub is_quota_failure : Text → Text → Text → Bool
is_quota_failure code typ msg =
    in_set code (
      text "insufficient_quota"
      ∷ text "billing_hard_limit_reached"
      ∷ text "organization_quota_exceeded"
      ∷ [])
    || (in_set typ (text "insufficient_quota" ∷ text "billing_error" ∷ [])
        || (contains msg (text "insufficient quota")
            || (contains msg (text "quota exhausted")
                || (contains msg (text "daily limit") || contains msg (text "billing")))))

abbrev pub is_soft_failure : Text → Text → Text → Bool
is_soft_failure code typ msg =
    in_set code (text "rate_limit_exceeded" ∷ text "requests" ∷ text "tokens" ∷ [])
    || (in_set typ
          (text "rate_limit_exceeded" ∷ text "rate_limit_error" ∷ text "overloaded_error" ∷ [])
        || (contains msg (text "rate limit") || contains msg (text "too many requests")))

-- The tests that follow those of Google's errors.
abbrev pub classify_message : Text → Text → Text → FailureAction × Reason
classify_message code typ msg =
    if is_quota_failure code typ msg
    then (deactivate_and_retry_next, quota)
    else if has_concurrency_signal code typ msg
    then (busy_retry, busy)
    else if is_soft_failure code typ msg
    then if eq_text typ (text "overloaded_error")
      then (retry_next, overloaded)
      else (retry_next, rate_limit)
    else (retry_next, rate_limit)

abbrev pub classify_value : Value → FailureAction × Reason
classify_value v =
    let f = extract_error_fields v in
    let code = to_lower f.code in
    let typ = to_lower f.typ in
    let msg = to_lower f.msg in
    if is_hard_failure code typ msg
    then (deactivate_and_retry_next, auth)
    else elim (classify_google_rpc_429 v msg) [
      | some answer ↦ answer
      | none ↦ classify_message code typ msg
    ]

unfoldable pub classify_429 : Decoders → Text → FailureAction × Reason
classify_429 dec body = elim (dec.unmarshal body) [
  | none ↦ (retry_next, rate_limit)
  | some v ↦ classify_value v
]
