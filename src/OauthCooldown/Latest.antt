-- ===== src/OauthCooldown/Latest.antt =====
-- codexOAuthCooldownUntil and geminiOAuthLatestExhaustedReset of internal/proxy/oauth_cooldown.go,
-- against the list of the times at which exhausted windows open again.
use clipal.Common.{
  ◌≡◌, refl, ap, sym, ◌∙◌, Bool, true, false, ◌&&◌, if◌then◌else◌, leb, ltb, List, [], ◌∷◌, ◌++◌,
  Option, none, some, arith,
}
use clipal.Clock.{Time}
use clipal.OauthCooldown.Windows.{
  CodexWindow, CodexLimit, CodexUsageDetails, percent, later_of, consider_window, consider_limit,
  consider_limits, unless_zero, codex_oauth_cooldown_until, GeminiBucket,
  gemini_oauth_bucket_exhausted, latest_reset, gemini_oauth_latest_exhausted_reset,
}

-- The later of two times.
abbrev pub later : Time → Time → Time
later t u = if ltb t u then u else t

-- The latest of some times; 0 if there is none.
abbrev pub latest_of : List Time → Time
latest_of [] = 0
latest_of (t ∷ times) = later t (latest_of times)

later-zero : (t : Time) → later 0 t ≡ t
later-zero t = ground arith

-- A window that a confirmed limit counts at 98 percent, and any other at 100, and that is not over.
abbrev pub reset_of : Bool → Time → Option CodexWindow → List Time
reset_of limit_reached now none = []
reset_of limit_reached now (some window) =
    if ltb now window.resets_at
      && leb (if limit_reached then percent 98 else percent 100) window.used_percent
    then window.resets_at ∷ []
    else []

abbrev pub resets_of : Time → List CodexLimit → List Time
resets_of now [] = []
resets_of now (limit ∷ limits) =
    reset_of limit.limit_reached now limit.primary
    ++ (reset_of limit.limit_reached now limit.secondary ++ resets_of now limits)

fold_later : List Time → Time → Time
fold_later [] t = t
fold_later (u ∷ times) t = fold_later times (later t u)

fold_later-append :
    (us vs : List Time) (t : Time) → fold_later (us ++ vs) t ≡ fold_later vs (fold_later us t)
unfolding fold_later
fold_later-append [] vs t = refl
fold_later-append (u ∷ us) vs t = fold_later-append us vs (later t u)

fold_later-latest_of :
    (times : List Time) (t : Time) → fold_later times t ≡ later t (latest_of times)
unfolding fold_later
fold_later-latest_of [] t = ground arith
fold_later-latest_of (u ∷ times) t = ground (arith, fold_later-latest_of times (later t u))

consider_window-fold_later :
    (reached : Bool) (now : Time) (window : Option CodexWindow) (t : Time)
    → consider_window reached now window t ≡ fold_later (reset_of reached now window) t
unfolding consider_window later_of fold_later
consider_window-fold_later reached now none t = refl
consider_window-fold_later true now (some window) t = ground arith
consider_window-fold_later false now (some window) t = ground arith

consider_limits-fold_later :
    (now : Time) (limits : List CodexLimit) (t : Time)
    → consider_limits now limits t ≡ fold_later (resets_of now limits) t
unfolding consider_limits consider_limit fold_later
consider_limits-fold_later now [] t = refl
consider_limits-fold_later now (limit ∷ limits) t =
    let reached = limit.limit_reached in
    let first = reset_of reached now limit.primary in
    let second = reset_of reached now limit.secondary in
    let rest = resets_of now limits in
    let a = consider_window reached now limit.primary t in
    let b = consider_window reached now limit.secondary a in
    consider_limits-fold_later now limits b
    ∙ (ap (fold_later rest) (
          consider_window-fold_later reached now limit.secondary a
          ∙ ap (fold_later second) (consider_window-fold_later reached now limit.primary t))
        ∙ sym (
            fold_later-append first (second ++ rest) t
            ∙ fold_later-append second rest (fold_later first t)))

-- The account of a Codex provider waits until the latest of the times at which its exhausted windows
-- open again, over its own limit and the additional ones, in whatever order they come; where no
-- window is exhausted there is nothing to wait for.
pub codex_oauth_cooldown_until-latest_of :
    (details : CodexUsageDetails) (now : Time)
    → codex_oauth_cooldown_until (some details) now
      ≡ unless_zero (latest_of (resets_of now (details.own ∷ details.additional)))
unfolding codex_oauth_cooldown_until
codex_oauth_cooldown_until-latest_of details now =
    let limits = details.own ∷ details.additional in
    ap unless_zero (
      consider_limits-fold_later now limits 0
      ∙ fold_later-latest_of (resets_of now limits) 0
      ∙ later-zero (latest_of (resets_of now limits)))

-- The buckets of Gemini that are exhausted and not yet reset.
abbrev pub exhausted_resets : Time → List GeminiBucket → List Time
exhausted_resets now [] = []
exhausted_resets now (bucket ∷ buckets) =
    if ltb now bucket.reset_time && gemini_oauth_bucket_exhausted bucket
    then bucket.reset_time ∷ exhausted_resets now buckets
    else exhausted_resets now buckets

latest_reset-fold_later :
    (now : Time) (buckets : List GeminiBucket) (t : Time)
    → latest_reset now buckets t ≡ fold_later (exhausted_resets now buckets) t
unfolding latest_reset later_of fold_later
latest_reset-fold_later now [] t = refl
latest_reset-fold_later now (bucket ∷ buckets) t = ground (
  arith,
  latest_reset-fold_later now buckets t,
  latest_reset-fold_later now buckets (later_of t bucket.reset_time),
)

-- The same holds for the exhausted buckets of a Gemini account.
pub gemini_oauth_latest_exhausted_reset-latest_of :
    (buckets : List GeminiBucket) (now : Time)
    → gemini_oauth_latest_exhausted_reset buckets now
      ≡ unless_zero (latest_of (exhausted_resets now buckets))
unfolding gemini_oauth_latest_exhausted_reset
gemini_oauth_latest_exhausted_reset-latest_of buckets now = ap unless_zero (
    latest_reset-fold_later now buckets 0
    ∙ fold_later-latest_of (exhausted_resets now buckets) 0
    ∙ later-zero (latest_of (exhausted_resets now buckets)))
