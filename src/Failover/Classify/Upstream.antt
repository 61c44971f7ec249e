-- ===== src/Failover/Classify/Upstream.antt =====
-- internal/proxy/failover_classify.go: what failover does about an answer. `none` stands for
-- `failureReturnToClient`.
use clipal.Common.{
  ℕ, Bool, ◌&&◌, ◌==◌, ◌||◌, ◌++◌, if◌then◌else◌, Option, none, some, pos, ltb_ℤ, leb_ℤ, Text, text,
}
use clipal.Clock.{Time, Duration, seconds}
use clipal.Failover.State.{Reason, auth, billing, rate_limit, server}
use clipal.Failover.Forward.{
  FailureAction, retry_next, busy_retry, deactivate_and_retry_next, Refusal,
}
use clipal.Failover.Classify.Sanitize.{sanitize_log_string, truncate_string}
use clipal.Failover.Classify.RetryAfter.{Decoders, retry_after_duration}
use clipal.Failover.Classify.TooMany.{classify_429}

abbrev pub short_busy_retry_after_max : Duration
short_busy_retry_after_max = seconds 3

unfoldable pub should_retry : ℕ → Bool
should_retry status_code =
    (status_code == 408)
    || ((status_code == 500)
        || ((status_code == 502)
            || ((status_code == 503) || ((status_code == 504) || (status_code == 529)))))

abbrev pub snippet_of : Text → Bool → Text
snippet_of body truncated =
    let snippet = sanitize_log_string body in
    truncate_string (if truncated then snippet ++ text "..." else snippet) 2048

-- The answer to a 429 whose body asks for an action.
abbrev pub limit_refusal : FailureAction × Reason → Text → Duration → Refusal
limit_refusal (deactivate_and_retry_next, why) snippet cooldown = record {
  action = deactivate_and_retry_next;
  reason = why;
  status = 429;
  message = snippet;
  cooldown = pos 0;
}
limit_refusal (busy_retry, why) snippet cooldown =
    if ltb_ℤ (pos 0) cooldown && leb_ℤ cooldown short_busy_retry_after_max
    then record {
      action = busy_retry;
      reason = why;
      status = 429;
      message = snippet;
      cooldown = cooldown;
    }
    else record {
      action = retry_next;
      reason = rate_limit;
      status = 429;
      message = snippet;
      cooldown = cooldown;
    }
limit_refusal (retry_next, why) snippet cooldown = record {
  action = retry_next;
  reason = why;
  status = 429;
  message = snippet;
  cooldown = cooldown;
}

unfoldable pub classify_upstream_failure :
    Decoders → Time → ℕ → (Text → Text) → Text → Bool → Option Refusal
classify_upstream_failure dec now status hdr body truncated =
    let snippet = snippet_of body truncated in
    if (status == 401) || (status == 403)
    then some (record {
      action = deactivate_and_retry_next;
      reason = auth;
      status = status;
      message = snippet;
      cooldown = pos 0;
    })
    else if status == 402
    then some (record {
      action = deactivate_and_retry_next;
      reason = billing;
      status = status;
      message = snippet;
      cooldown = pos 0;
    })
    else if status == 429
    then some (limit_refusal (classify_429 dec body) snippet (retry_after_duration dec now hdr))
    else if should_retry status
    then some (record {
      action = retry_next;
      reason = server;
      status = status;
      message = snippet;
      cooldown = retry_after_duration dec now hdr;
    })
    else none
