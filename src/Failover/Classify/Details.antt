-- ===== src/Failover/Classify/Details.antt =====
-- The loop of classifyGoogleRPC429 of internal/proxy/failover_classify.go, against a description that
-- has no order.
use clipal.Common.{◌≡◌, refl, ap, ◌∙◌, Bool, true, false, ◌||◌, if◌then◌else◌, arith}
use clipal.Json.{Value, Items, nil, cons}
use clipal.Failover.Classify.TooMany.{Scan, exhausted, scanned, scan_detail, scan_details}

abbrev pub is_exhausted : Scan → Bool
is_exhausted exhausted = true
is_exhausted (scanned r q) = false

abbrev pub tells_retry : Scan → Bool
tells_retry exhausted = false
tells_retry (scanned r q) = r

abbrev pub tells_quota : Scan → Bool
tells_quota exhausted = false
tells_quota (scanned r q) = q

-- Some detail, taken alone, passes the test.
abbrev pub any_alone : (Scan → Bool) → Items → Bool
any_alone test nil = false
any_alone test (cons d ds) = test (scan_detail d false false) || any_alone test ds

abbrev merge : Scan → Bool → Bool → Scan
merge exhausted r q = exhausted
merge (scanned r' q') r q = scanned (r || r') (q || q')

scan_detail-merge :
    (d : Value) (r q : Bool) → scan_detail d r q ≡ merge (scan_detail d false false) r q
unfolding scan_detail
scan_detail-merge d true true = ground arith
scan_detail-merge d true false = ground arith
scan_detail-merge d false true = ground arith
scan_detail-merge d false false = ground arith

or_assoc : (a b c : Bool) → ((a || b) || c) ≡ (a || (b || c))
or_assoc true b c = refl
or_assoc false b c = refl

-- The loop goes on after a detail that reads as `s`.
abbrev after : Scan → Items → Scan
after s ds = elim s [ exhausted ↦ exhausted | scanned r q ↦ scan_details ds r q ]

abbrev outcome : Bool → Bool → Bool → Scan
outcome over r q = if over then exhausted else scanned r q

after-merge :
    (s : Scan) (ds : Items) (r q over r' q' : Bool)
    → ((a b : Bool) → scan_details ds a b ≡ outcome over (a || r') (b || q'))
    → after (merge s r q) ds
      ≡ outcome (is_exhausted s || over) (r || (tells_retry s || r')) (q || (tells_quota s || q'))
after-merge exhausted ds r q over r' q' ih = refl
after-merge (scanned a b) ds r q over r' q' ih =
    ih (r || a) (q || b) ∙ cc (or_assoc r a r', or_assoc q b q')

scan_details_from :
    (ds : Items) (r q : Bool)
    → scan_details ds r q
      ≡ outcome
          (any_alone is_exhausted ds)
          (r || any_alone tells_retry ds)
          (q || any_alone tells_quota ds)
unfolding scan_details
scan_details_from nil true true = refl
scan_details_from nil true false = refl
scan_details_from nil false true = refl
scan_details_from nil false false = refl
scan_details_from (cons d ds) r q =
    ap (λ s. after s ds) (scan_detail-merge d r q)
    ∙ after-merge (scan_detail d false false) ds r q (any_alone is_exhausted ds)
        (any_alone tells_retry ds) (any_alone tells_quota ds) (scan_details_from ds)

-- The details of a Google error end the search as an exhausted quota exactly if one of them, taken
-- alone, says so; else a retry is told if some detail tells it, and a quota if some detail does,
-- wherever in the list those details stand.
pub scan_details-alone :
    (ds : Items)
    → scan_details ds false false ≡ (
        if any_alone is_exhausted ds
        then exhausted
        else scanned (any_alone tells_retry ds) (any_alone tells_quota ds))
scan_details-alone ds = scan_details_from ds false false
