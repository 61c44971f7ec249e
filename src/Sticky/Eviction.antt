-- ===== src/Sticky/Eviction.antt =====
-- enforceDynamicFeatureCapacityLocked of internal/proxy/sticky.go: how many bindings are left.
use clipal.Common.{
  ℕ, zero, suc, ◌-◌, ◌≤◌, ◌≡◌, refl, sym, ◌∙◌, ap, Bool, true, false, ◌||◌, if◌then◌else◌, List, [],
  ◌∷◌, ℤ, pos, negsuc, Text, eq_text, eq_text_refl, length, arith,
}
use clipal.Common.Maps.{delete}
use clipal.Clock.{Time}
use clipal.Sticky.State.{
  StickyLookupEntry, Candidate, place, sort_candidates, candidates_of, delete_first, evict,
  StickyState, enforce_dynamic_feature_capacity,
}

take : ℕ → List Candidate → List Candidate
take zero cs = []
take (suc n) [] = []
take (suc n) (c ∷ cs) = c ∷ take n cs

-- Some candidate has the key.
abbrev named : List Candidate → Text → Bool
named [] k = false
named ((key, at) ∷ cs) k = eq_text k key || named cs k

-- How many candidates have a key that no candidate of the first list has.
unhit : List Candidate → List Candidate → ℕ
unhit ks [] = 0
unhit ks ((key, at) ∷ cs) = if named ks key then unhit ks cs else suc (unhit ks cs)

unhit-none : (m : List (Text × StickyLookupEntry)) → unhit [] (candidates_of m) ≡ length m
unfolding unhit candidates_of
unhit-none [] = refl
unhit-none ((key, e) ∷ m) = ap suc (unhit-none m)

unhit-delete :
    (m : List (Text × StickyLookupEntry)) (key : Text) (at : Time) (ks : List Candidate)
    → unhit ks (candidates_of (delete m key)) ≡ unhit ((key, at) ∷ ks) (candidates_of m)
unfolding unhit candidates_of delete
unhit-delete [] key at ks = refl
unhit-delete ((j, e) ∷ m) key at ks = ground (arith, unhit-delete m key at ks)

length-delete_first :
    (n : ℕ) (cs : List Candidate) (m : List (Text × StickyLookupEntry))
    → length (delete_first n cs m) ≡ unhit (take n cs) (candidates_of m)
unfolding delete_first take
length-delete_first zero cs m = sym (unhit-none m)
length-delete_first (suc n) [] m = sym (unhit-none m)
length-delete_first (suc n) ((key, at) ∷ cs) m =
    length-delete_first n cs (delete m key) ∙ unhit-delete m key at (take n cs)

unhit-place :
    (ks : List Candidate) (c : Candidate) (cs : List Candidate)
    → unhit ks (place c cs) ≡ unhit ks (c ∷ cs)
unfolding unhit place
unhit-place ks c [] = refl
unhit-place ks c (d ∷ ds) = ground (arith, unhit-place ks c ds)

unhit-sort_candidates : (ks cs : List Candidate) → unhit ks (sort_candidates cs) ≡ unhit ks cs
unfolding unhit sort_candidates
unhit-sort_candidates ks [] = refl
unhit-sort_candidates ks (c ∷ cs) =
    unhit-place ks c (sort_candidates cs) ∙ ground (arith, unhit-sort_candidates ks cs)

length-place : (c : Candidate) (cs : List Candidate) → length (place c cs) ≡ suc (length cs)
unfolding place
length-place c [] = refl
length-place c (d ∷ ds) = ground (arith, length-place c ds)

length-sort_candidates : (cs : List Candidate) → length (sort_candidates cs) ≡ length cs
unfolding sort_candidates
length-sort_candidates [] = refl
length-sort_candidates (c ∷ cs) =
    length-place c (sort_candidates cs) ∙ ap suc (length-sort_candidates cs)

length-candidates_of : (m : List (Text × StickyLookupEntry)) → length (candidates_of m) ≡ length m
unfolding candidates_of
length-candidates_of [] = refl
length-candidates_of ((key, e) ∷ m) = ap suc (length-candidates_of m)

-- All the candidates of the second list have a key of the first.
abbrev AreNamed : List Candidate → List Candidate → Type 0
AreNamed ks [] = Unit {0}
AreNamed ks ((key, at) ∷ cs) = (named ks key ≡ true) × AreNamed ks cs

AreNamed-more : (k : Candidate) (ks cs : List Candidate) → AreNamed ks cs → AreNamed (k ∷ ks) cs
AreNamed-more k ks [] h = tt
AreNamed-more k ks ((key, at) ∷ cs) (h, t) = (ground arith, AreNamed-more k ks cs t)

AreNamed-self : (cs : List Candidate) → AreNamed cs cs
AreNamed-self [] = tt
AreNamed-self ((key, at) ∷ cs) =
    let same = eq_text_refl key in (ground arith, AreNamed-more (key, at) cs cs (AreNamed-self cs))

unhit-le : (ks cs : List Candidate) → unhit ks cs ≤ length cs
unfolding unhit
unhit-le ks [] = omega arith
unhit-le ks (c ∷ cs) = ground (arith, unhit-le ks cs)

unhit-take :
    (n : ℕ) (ks cs : List Candidate) → AreNamed ks (take n cs) → unhit ks cs ≤ length cs - n
unfolding unhit take
unhit-take zero ks cs h = omega (arith, unhit-le ks cs)
unhit-take (suc n) ks [] h = omega arith
unhit-take (suc n) ks ((key, at) ∷ cs) (h, t) = rw h (omega (arith, unhit-take n ks cs t))

delete_first-length :
    (n : ℕ) (m : List (Text × StickyLookupEntry))
    → length (delete_first n (sort_candidates (candidates_of m)) m) ≤ length m - n
delete_first-length n m =
    let cs = candidates_of m in
    let sorted = sort_candidates cs in
    omega (
      arith,
      length-delete_first n sorted m,
      unhit-sort_candidates (take n sorted) cs,
      unhit-take n (take n sorted) sorted (AreNamed-self (take n sorted)),
      length-sort_candidates cs,
      length-candidates_of m,
    )

evict-length :
    (c : ℕ) (m : List (Text × StickyLookupEntry)) → length (evict (pos (suc c)) m) ≤ suc c
evict-length c m = ground (arith, delete_first-length (length m - suc c) m)

-- With a positive capacity there are at most that many bindings of features.
abbrev IsWithinCapacity : ℤ → ℕ → Type 0
IsWithinCapacity (pos (suc c)) n = n ≤ suc c
IsWithinCapacity _ n = Unit {0}

abbrev pub IsWithin : StickyState → Type 0
IsWithin s = IsWithinCapacity s.routing.dynamic_feature_capacity (length s.dynamic_feature_bindings)

evict-IsWithinCapacity :
    (c : ℤ) (m : List (Text × StickyLookupEntry)) → IsWithinCapacity c (length (evict c m))
evict-IsWithinCapacity (pos zero) m = tt
evict-IsWithinCapacity (pos (suc c)) m = evict-length c m
evict-IsWithinCapacity (negsuc n) m = tt

pub enforce_dynamic_feature_capacity-IsWithin :
    (s : StickyState) → IsWithin (enforce_dynamic_feature_capacity s)
unfolding enforce_dynamic_feature_capacity
enforce_dynamic_feature_capacity-IsWithin s =
    evict-IsWithinCapacity s.routing.dynamic_feature_capacity s.dynamic_feature_bindings
