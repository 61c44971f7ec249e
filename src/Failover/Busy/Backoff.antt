-- ===== src/Failover/Busy/Backoff.antt =====
-- How the backoff of a busy provider grows, and for how long the provider is waited for.
use clipal.Common.{
  zero, negsuc, ℕ, suc, ◌+◌, ◌-◌, ◌≤◌, ◌<◌, ◌≡◌, refl, List, [], ◌∷◌, none, some, ℤ, pos, arith,
  at?, set_at, at?-set_at_self, get_elem?, length, ltb, leb, ◌≤ℤ◌, if◌then◌else◌,
}
use native.Mathlib.Numerals.{unary_clauses}
use clipal.Clock.{Time, Duration}
use clipal.Failover.State.{Reason, ProviderBusyState, not_busy, ClientProxy}
use clipal.Failover.Busy.{
  merge_busy, mark_provider_busy, provider_busy_wait, next_step, next_busy_backoff,
}

pub max : ℕ → ℕ → ℕ
max a b = if ltb a b then b else a

mark_lem :
    (cp : ClientProxy) (i : ℤ) (r : Reason) (s : ℕ) (now w : ℕ) (b : ProviderBusyState)
    → at? cp.provider_busy i ≡ some b
    → 0 < w
    → mark_provider_busy cp i r s now (pos w)
      ≡ record cp { provider_busy = set_at cp.provider_busy i (merge_busy b r s (now + w)) }
unfolding mark_provider_busy
mark_lem cp i r s now w b here h = ground arith

marked :
    (cp : ClientProxy) (i : ℤ) (r : Reason) (s : ℕ) (now w : ℕ) (b : ProviderBusyState)
    → at? cp.provider_busy i ≡ some b
    → 0 < w
    → at? (mark_provider_busy cp i r s now (pos w)).provider_busy i
      ≡ some (merge_busy b r s (now + w))
marked cp i r s now w b here h =
    rw (mark_lem cp i r s now w b here h)
      (at?-set_at_self cp.provider_busy i (merge_busy b r s (now + w)) here)

-- After a provider is marked busy for a positive wait it is busy until the later of the end of that
-- wait and the end that was set before, and the wait told at any time is what is left until then.
pub provider_busy_wait-mark_provider_busy :
    (cp : ClientProxy) (i : ℤ) (r : Reason) (s : ℕ) (now w t : ℕ) (b : ProviderBusyState)
    → at? cp.provider_busy i ≡ some b
    → 0 < w
    → provider_busy_wait (mark_provider_busy cp i r s now (pos w)) i t t
      ≡ (if ltb t (max b.until (now + w)) then some (pos (max b.until (now + w) - t)) else none)
unfolding provider_busy_wait merge_busy max
provider_busy_wait-mark_provider_busy cp i r s now w t b here h =
    let m = marked cp i r s now w b here h in ground arith

-- `nextBusyBackoff` and `markProviderBusy` as forwarding calls them after each busy answer.
pub back_off : ClientProxy → ℤ → Reason → Time → ClientProxy
back_off cp i r now =
    let (step, wait) = next_busy_backoff cp i in mark_provider_busy cp i r step now wait

pub back_off_all : ClientProxy → ℤ → Reason → List Time → ClientProxy
back_off_all cp i r [] = cp
back_off_all cp i r (t ∷ ts) = back_off_all (back_off cp i r t) i r ts

-- Every configured delay is positive.
unfoldable pub AllPositive : List Duration → Type 0
AllPositive [] = Unit
AllPositive (d ∷ ds) = (pos 1 ≤ℤ d) × AllPositive ds

positive_at :
    (ds : List Duration) (k : ℕ)
    → AllPositive ds
    → k < length ds
    → (w : ℕ) × (get_elem? ds k ≡ some (pos w)) × (0 < w)
unfolding AllPositive
positive_at [] k a h = elim h [ ]
positive_at (pos d ∷ ds) zero a h = (d, refl, ground arith)
positive_at (negsuc d ∷ ds) zero a h = ground arith
positive_at (d ∷ ds) (suc k) a h = positive_at ds k a.1 (omega arith)

-- The last of `n` steps for every step past it.
pub capped : ℕ → ℕ → ℕ
capped n k = if leb n k then n - 1 else k

-- The step that `nextBusyBackoff` takes from a state.
pub following : ProviderBusyState → ℕ
following b = next_step b

offered :
    (cp : ClientProxy) (i : ℤ) (b : ProviderBusyState) (w : ℕ)
    → at? cp.provider_busy i ≡ some b
    → get_elem? cp.routing.busy_retry_delays
        (capped (length cp.routing.busy_retry_delays) (following b))
      ≡ some (pos w)
    → next_busy_backoff cp i ≡ (capped (length cp.routing.busy_retry_delays) (following b), pos w)
unfolding next_busy_backoff capped following
offered cp i b w here e = ground arith

capped-lt : (n k : ℕ) → 0 < n → capped n k < n
unfolding capped
capped-lt n k h = ground arith

following-merge :
    (b : ProviderBusyState) (r : Reason) (s t : ℕ)
    → 0 < t
    → b.backoff_step ≤ s
    → following (merge_busy b r s t) ≡ suc s
unfolding following merge_busy
following-merge b r s t h l = ground arith

capped-again : (n k m : ℕ) → 0 < n → capped n (suc (capped n k) + m) ≡ capped n (k + suc m)
unfolding capped
capped-again n k m h = ground arith

behind :
    (b : ProviderBusyState) (n : ℕ) → b.backoff_step < n → b.backoff_step ≤ capped n (following b)
unfolding capped following
behind b n h = ground arith

back_off_lem :
    (cp : ClientProxy) (i : ℤ) (r : Reason) (t : Time) (b : ProviderBusyState) (k w : ℕ)
    → at? cp.provider_busy i ≡ some b
    → next_busy_backoff cp i ≡ (k, pos w)
    → 0 < w
    → back_off cp i r t
      ≡ record cp { provider_busy = set_at cp.provider_busy i (merge_busy b r k (t + w)) }
unfolding back_off
back_off_lem cp i r t b k w here e h = rw e (mark_lem cp i r k t w b here h)

-- The step offered next is `j`, with its delay of the list.
pub Offers : List Duration → ClientProxy → ℤ → ℕ → Type 0
Offers delays cp i j =
    ((next_busy_backoff cp i).0 ≡ j) × (get_elem? delays j ≡ some (next_busy_backoff cp i).1)

module _ (cp : ClientProxy) (i : ℤ) (r : Reason) (b : ProviderBusyState)
    (here : at? cp.provider_busy i ≡ some b) (a : AllPositive cp.routing.busy_retry_delays)
    (l : b.backoff_step < length cp.routing.busy_retry_delays) where
  abbrev steps : ℕ
  steps = length cp.routing.busy_retry_delays

  delay :
      (w : ℕ) × (get_elem? cp.routing.busy_retry_delays (capped steps (following b)) ≡ some (pos w))
      × (0 < w)
  delay =
      positive_at cp.routing.busy_retry_delays (capped steps (following b)) a
        (capped-lt steps (following b) (omega arith))

  first_offer : Offers cp.routing.busy_retry_delays cp i (capped steps (following b))
  unfolding Offers
  first_offer = let (w, e, h) = delay in let o = offered cp i b w here e in rw o (refl, e)

  abbrev grown : Time → ℕ → ProviderBusyState
  grown t w = merge_busy b r (capped steps (following b)) (t + w)

  grown-following : (t w : ℕ) → 0 < w → following (grown t w) ≡ suc (capped steps (following b))
  grown-following t w h =
      following-merge b r (capped steps (following b)) (t + w) (omega arith) (behind b steps l)

  grown-step : (t w : ℕ) → (grown t w).backoff_step < steps
  unfolding merge_busy
  grown-step t w = ground (arith, capped-lt steps (following b) (omega arith))

  abbrev backed_off : Time → ℕ → ClientProxy
  backed_off t w = record cp { provider_busy = set_at cp.provider_busy i (grown t w) }

  back_off-backed_off : (t : Time) → (w : ℕ) × (0 < w) × (back_off cp i r t ≡ backed_off t w)
  back_off-backed_off t =
      let (w, e, h) = delay in
      (
        w,
        h,
        back_off_lem cp i r t b (capped steps (following b)) w here (offered cp i b w here e) h,
      )

back_off_all-Offers :
    (cp : ClientProxy) (i : ℤ) (r : Reason) (ts : List Time) (b : ProviderBusyState)
    → at? cp.provider_busy i ≡ some b
    → AllPositive cp.routing.busy_retry_delays
    → b.backoff_step < length cp.routing.busy_retry_delays
    → Offers cp.routing.busy_retry_delays
        (back_off_all cp i r ts)
        i
        (capped (length cp.routing.busy_retry_delays) (following b + length ts))
unfolding back_off_all
back_off_all-Offers cp i r [] b here a l = simp unary_clauses (first_offer cp i r b here a l)
back_off_all-Offers cp i r (t ∷ ts) b here a l =
    let n = length cp.routing.busy_retry_delays in
    let (w, h, e) = back_off-backed_off cp i r b here a l t in
    let b' = grown cp i r b here a l t w in
    let next =
      back_off_all-Offers (backed_off cp i r b here a l t w) i r ts b'
        (at?-set_at_self cp.provider_busy i b' here) a (grown-step cp i r b here a l t w) in
    rw
      (
        e,
        ← capped-again n (following b) (length ts) (omega arith),
        ← grown-following cp i r b here a l t w h,
      )
      next

-- From a provider that is not busy, with positive delays configured, the backoff offered after each
-- further busy answer is the next delay of the list, and the last one from then on.
pub back_off_all_escalates :
    (cp : ClientProxy) (i : ℤ) (r : Reason) (ts : List Time)
    → at? cp.provider_busy i ≡ some not_busy
    → AllPositive cp.routing.busy_retry_delays
    → 0 < length cp.routing.busy_retry_delays
    → Offers cp.routing.busy_retry_delays
        (back_off_all cp i r ts)
        i
        (capped (length cp.routing.busy_retry_delays) (length ts))
unfolding following
back_off_all_escalates cp i r ts here a h =
    let none_yet : length ts ≡ following not_busy + length ts = omega arith in
    rw none_yet (back_off_all-Offers cp i r ts not_busy here a h)
