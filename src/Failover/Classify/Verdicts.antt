-- ===== src/Failover/Classify/Verdicts.antt =====
-- classifyUpstreamFailure of internal/proxy/failover_classify.go: actions, reasons and waits together.
use clipal.Common.{
  ℕ, ◌≡◌, refl, ◌↔◌, inl, inr, Bool, true, false, ◌||◌, ◌==◌, List, [], ◌∷◌, Option, none, some,
  pos, ◌≤ℤ◌, Text, arith, Bool-cases, ◌++◌, if◌then◌else◌, subst, sym, Option-cases, text, to_lower,
  to_upper, trim_space,
}
use clipal.Clock.{Time, Duration, seconds}
use clipal.Json.{Value, get, string_from_any, any_slice}
use clipal.Failover.State.{Reason, auth, quota, rate_limit, overloaded, busy}
use clipal.Failover.Forward.{
  FailureAction, retry_next, busy_retry, deactivate_and_retry_next, Refusal, is_key_scoped_failure,
}
use clipal.Failover.Classify.Sanitize.{
  IsShown, sanitize_log_string, sanitize_log_string-IsOneLine, marked-IsOneLine,
  truncate_string-IsShown,
}
use clipal.Failover.Classify.RetryAfter.{
  Decoders, retry_after_duration, retry_after_duration_bounds, max_retry_after_cooldown,
}
use clipal.Failover.Classify.TooMany.{
  classify_429, classify_value, classify_message, classify_google_rpc_429, judge_scan, Scan,
  exhausted, scanned, google_rpc_error_object, scan_details, extract_error_fields, is_hard_failure,
}
use clipal.Failover.Classify.Upstream.{
  classify_upstream_failure, limit_refusal, snippet_of, should_retry,
}

-- Which reasons an action for a 429 is taken for.
abbrev pub fits : FailureAction × Reason → Bool
fits (deactivate_and_retry_next, auth) = true
fits (deactivate_and_retry_next, quota) = true
fits (busy_retry, busy) = true
fits (retry_next, rate_limit) = true
fits (retry_next, overloaded) = true
fits _ = false

abbrev fits_all : Option (FailureAction × Reason) → Bool
fits_all none = true
fits_all (some verdict) = fits verdict

fits_all-judge_scan : (s : Scan) (status msg : Text) → fits_all (judge_scan s status msg) ≡ true
fits_all-judge_scan exhausted status msg = refl
fits_all-judge_scan (scanned r q) status msg = ground arith

fits_all-classify_google_rpc_429 :
    (v : Value) (msg : Text) → fits_all (classify_google_rpc_429 v msg) ≡ true
unfolding classify_google_rpc_429
fits_all-classify_google_rpc_429 v msg = elim (Option-cases (google_rpc_error_object v)) [
  | inl h ↦ ground arith
  | inr (o, h) ↦
      let status = to_upper (trim_space (string_from_any (get o (text "status")))) in
      let scan = scan_details (any_slice (get o (text "details"))) false false in
      ground (arith, fits_all-judge_scan scan status msg)
]

fits-classify_message : (code typ msg : Text) → fits (classify_message code typ msg) ≡ true
fits-classify_message code typ msg = ground arith

fits-classify_value : (v : Value) → fits (classify_value v) ≡ true
fits-classify_value v =
    let f = extract_error_fields v in
    let code = to_lower f.code in
    let typ = to_lower f.typ in
    let msg = to_lower f.msg in
    elim (Bool-cases (is_hard_failure code typ msg)) [
      | inl h ↦ rw h refl
      | inr h ↦ rw h (
          ground
            (arith, fits_all-classify_google_rpc_429 v msg, fits-classify_message code typ msg))
    ]

-- A 429 deactivates for the credentials or the quota, is retried as busy for congestion only, and
-- else goes to the next provider as a rate limit or an overload.
pub classify_429-fits : (dec : Decoders) (body : Text) → fits (classify_429 dec body) ≡ true
unfolding classify_429
classify_429-fits dec body = elim (Option-cases (dec.unmarshal body)) [
  | inl h ↦ ground arith
  | inr (v, h) ↦ ground (arith, fits-classify_value v)
]

-- Every refusal waits between nothing and an hour. A deactivation gives no time of its own and is
-- one that the key is blamed for; a busy retry follows a 429 that asks for at most three seconds.
abbrev pub IsSound : Option Refusal → Type 0
IsSound none = Unit {0}
IsSound (some r) =
    (pos 0 ≤ℤ r.cooldown)
    × (r.cooldown ≤ℤ max_retry_after_cooldown)
    × (r.action ≡ deactivate_and_retry_next
        → (r.cooldown ≡ pos 0) × (is_key_scoped_failure r.reason ≡ true))
    × (r.action ≡ busy_retry
        → (r.reason ≡ busy) × (r.status ≡ 429) × (pos 1 ≤ℤ r.cooldown) × (r.cooldown ≤ℤ seconds 3))

limit_refusal-IsSound :
    (verdict : FailureAction × Reason) (snippet : Text) (d : Duration)
    → fits verdict ≡ true
    → pos 0 ≤ℤ d
    → d ≤ℤ max_retry_after_cooldown
    → IsSound (some (limit_refusal verdict snippet d))
unfolding is_key_scoped_failure
limit_refusal-IsSound (deactivate_and_retry_next, why) snippet d f lo hi = ground arith
limit_refusal-IsSound (busy_retry, why) snippet d f lo hi = ground arith
limit_refusal-IsSound (retry_next, why) snippet d f lo hi = ground arith

-- Whatever the server answers, a refusal that failover acts on asks to wait between nothing and an
-- hour; if it deactivates then it asks for no time and blames the key, and if it is retried as busy
-- then the status is 429 and the wait is positive and at most three seconds.
pub classify_upstream_failure-IsSound :
    (dec : Decoders) (now : Time) (status : ℕ) (hdr : Text → Text) (body : Text) (truncated : Bool)
    → IsSound (classify_upstream_failure dec now status hdr body truncated)
unfolding classify_upstream_failure is_key_scoped_failure
classify_upstream_failure-IsSound dec now status hdr body truncated =
    let bounds = retry_after_duration_bounds dec now hdr in
    let limited =
      limit_refusal-IsSound (classify_429 dec body) (snippet_of body truncated)
        (retry_after_duration dec now hdr) (classify_429-fits dec body) bounds.0 bounds.1 in
    elim (Bool-cases ((status == 401) || (status == 403))) [
      | inl h ↦ ground arith
      | inr h ↦ elim (Bool-cases (status == 402)) [
        | inl h' ↦ ground arith
        | inr h' ↦ elim (Bool-cases (status == 429)) [
          | inl h'' ↦ rw (h, h', h'') limited
          | inr h'' ↦ ground (arith, bounds)
        ]
      ]
    ]

-- The statuses that failover acts on.
abbrev pub handled_statuses : List ℕ
handled_statuses = 401 ∷ 402 ∷ 403 ∷ 408 ∷ 429 ∷ 500 ∷ 502 ∷ 503 ∷ 504 ∷ 529 ∷ []

abbrev pub listed : ℕ → List ℕ → Bool
listed status [] = false
listed status (s ∷ more) = (status == s) || listed status more

-- An answer is classified as no failure of the provider exactly if its status is none of 401, 402, 403, 408, 429, 500,
-- 502, 503, 504 and 529, whatever its headers and its body are.
pub classify_upstream_failure-none :
    (dec : Decoders) (now : Time) (status : ℕ) (hdr : Text → Text) (body : Text) (truncated : Bool)
    → (classify_upstream_failure dec now status hdr body truncated ≡ none)
      ↔ (listed status handled_statuses ≡ false)
unfolding classify_upstream_failure should_retry
classify_upstream_failure-none dec now status hdr body truncated =
    (λ h. ground arith, λ h. ground arith)

limit_refusal_message :
    (verdict : FailureAction × Reason) (snippet : Text) (d : Duration)
    → (limit_refusal verdict snippet d).message ≡ snippet
limit_refusal_message (deactivate_and_retry_next, why) snippet d = refl
limit_refusal_message (busy_retry, why) snippet d = ground arith
limit_refusal_message (retry_next, why) snippet d = refl

-- Whatever the server sends as a body, and whether it was cut off or not, the message of a refusal
-- holds no zero byte, tab, line feed or carriage return, and is at most 2,048 bytes and three dots
-- long.
pub classify_upstream_failure-IsShown :
    (dec : Decoders) (now : Time) (status : ℕ) (hdr : Text → Text) (body : Text) (truncated : Bool)
    (r : Refusal)
    → classify_upstream_failure dec now status hdr body truncated ≡ some r
    → IsShown r.message 2048
unfolding classify_upstream_failure
classify_upstream_failure-IsShown dec now status hdr body truncated r e =
    let line =
      marked-IsOneLine (sanitize_log_string body) truncated (sanitize_log_string-IsOneLine body) in
    let shown =
      truncate_string-IsShown
        (if truncated then sanitize_log_string body ++ text "..." else sanitize_log_string body)
        2048 line in
    let limited =
      limit_refusal_message (classify_429 dec body) (snippet_of body truncated)
        (retry_after_duration dec now hdr) in
    let same : r.message ≡ snippet_of body truncated = ground arith in
    subst (λ m. IsShown m 2048) (sym same) shown
