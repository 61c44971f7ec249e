-- ===== src/DnsCache.antt =====
-- internal/outbound/dns_cache.go: what the resolver stores. The map is a list of its entries in the
-- order in which a loop over it meets them.
mod Tests
use clipal.Common.{
  ℕ, suc, ◌+◌, ◌≤◌, ◌<◌, ◌≡◌, ◌⊎◌, refl, ◌∙◌, sym, ap, Bool, true, false, ◌||◌, ◌&&◌, not, List, [],
  ◌∷◌, arith, Text, eq_text, eq_text_refl, eq_text_iff, is_empty, length, leb, if◌then◌else◌,
  Bool-cases, inl, inr, Option, none, some,
}
use clipal.Clock.{Time, before, zero_time, add, seconds}

-- The answers to a name, or the error, and the end of their validity.
pub record Answer : Type 0 where
  pub ips : List (List ℕ)
  pub failed : Bool
  pub until : Time

pub record Entry : Type 0 where
  pub name : Text
  pub answer : Answer

abbrev pub max_dns_cache_entries : ℕ
max_dns_cache_entries = 256

-- `r.cache[host]`
pub find : List Entry → Text → Option Answer
find [] host = none
find (e ∷ es) host = let rest = find es host in if eq_text e.name host then some e.answer else rest

-- `delete(r.cache, name)`
pub delete : List Entry → Text → List Entry
delete [] name = []
delete (e ∷ es) name = let rest = delete es name in if eq_text e.name name then rest else e ∷ rest

-- `r.cache[host] = entry`
pub put : List Entry → Text → Answer → List Entry
put [] host answer = record { name = host; answer = answer } ∷ []
put (e ∷ es) host answer =
    let rest = put es host answer in
    if eq_text e.name host then record { name = host; answer = answer } ∷ es else e ∷ rest

-- The loop for the earliest expiry, with its variables `oldest` and `expiry`.
pub earliest : Text → Time → List Entry → Text
earliest oldest expiry [] = oldest
earliest oldest expiry (e ∷ es) =
    let kept = earliest oldest expiry es in
    let taken = earliest e.name e.answer.until es in
    if is_empty oldest || before e.answer.until expiry then taken else kept

exists : Option Answer → Bool
exists none = false
exists (some a) = true

pub store_answer : List Entry → Text → Answer → List Entry
unfolding exists
store_answer cache host entry =
    put
      (if not (exists (find cache host)) && leb max_dns_cache_entries (length cache)
        then delete cache (earliest [] zero_time cache)
        else cache)
      host entry

shields : Option Answer → Time → Bool
shields none now = false
shields (some a) now = not a.failed && before now a.until

-- A good answer that is still valid is not overwritten by a failure.
pub store_failure : List Entry → Text → Time → Time → List Entry
unfolding shields
store_failure cache host now later =
    if shields (find cache host) now
    then cache
    else store_answer cache host (record { ips = []; failed = true; until = add later (seconds 5) })

delete-length : (es : List Entry) (name : Text) → length (delete es name) ≤ length es
unfolding delete
delete-length [] name = omega arith
delete-length (e ∷ es) name = ground (arith, delete-length es name)

put-length : (es : List Entry) (host : Text) (a : Answer) → length (put es host a) ≤ length es + 1
unfolding put
put-length [] host a = omega arith
put-length (e ∷ es) host a = ground (arith, put-length es host a)

put-length_known :
    (es : List Entry) (host : Text) (a : Answer)
    → exists (find es host) ≡ true
    → length (put es host a) ≡ length es
unfolding put find exists
put-length_known [] host a h = ground arith
put-length_known (e ∷ es) host a h = ground (arith, put-length_known es host a)

delete-shorter :
    (es : List Entry) (name : Text)
    → exists (find es name) ≡ true
    → length (delete es name) < length es
unfolding delete find exists
delete-shorter [] name h = ground arith
delete-shorter (e ∷ es) name h = ground (arith, delete-shorter es name, delete-length es name)

find_behind :
    (e : Entry) (es : List Entry) (name : Text)
    → exists (find es name) ≡ true
    → exists (find (e ∷ es) name) ≡ true
unfolding find exists
find_behind e es name h = ground arith

find_head : (e : Entry) (es : List Entry) → exists (find (e ∷ es) e.name) ≡ true
unfolding find exists
find_head e es = let same = eq_text_refl e.name in ground arith

-- The loop's name is the one it began with or that of an entry.
earliest_cases :
    (es : List Entry) (oldest : Text) (expiry : Time)
    → (earliest oldest expiry es ≡ oldest) ⊎ (exists (find es (earliest oldest expiry es)) ≡ true)
unfolding earliest
earliest_cases [] oldest expiry = inl refl
earliest_cases (e ∷ es) oldest expiry =
    elim (Bool-cases (is_empty oldest || before e.answer.until expiry)) [
      | inl first ↦ rw first (
          inr (elim (earliest_cases es e.name e.answer.until) [
            | inl same ↦ rw same (find_head e es)
            | inr h ↦ find_behind e es _ h
          ]))
      | inr later ↦ rw later (elim (earliest_cases es oldest expiry) [
        | inl same ↦ inl same
        | inr h ↦ inr (find_behind e es _ h)
      ])
    ]

earliest_known :
    (e : Entry) (es : List Entry) → exists (find (e ∷ es) (earliest [] zero_time (e ∷ es))) ≡ true
unfolding earliest
earliest_known e es = elim (earliest_cases es e.name e.answer.until) [
  | inl same ↦ rw same (find_head e es)
  | inr h ↦ find_behind e es _ h
]

evicted-length :
    (cache : List Entry)
    → length cache ≤ 256
    → length (delete cache (earliest [] zero_time cache)) + 1 ≤ 256
unfolding delete
evicted-length [] h = omega arith
evicted-length (e ∷ es) h =
    omega (arith, delete-shorter (e ∷ es) (earliest [] zero_time (e ∷ es)) (earliest_known e es))

-- A cache of at most 256 entries has at most 256 entries after an answer is stored.
pub store_answer-length :
    (cache : List Entry) (host : Text) (entry : Answer)
    → length cache ≤ 256
    → length (store_answer cache host entry) ≤ 256
unfolding store_answer
store_answer-length cache host entry h =
    let known = put-length_known cache host entry in
    let fresh = put-length cache host entry in
    let evicted = put-length (delete cache (earliest [] zero_time cache)) host entry in
    let less = evicted-length cache h in ground arith

put-find : (es : List Entry) (host : Text) (a : Answer) → find (put es host a) host ≡ some a
unfolding put find
put-find [] host a = let same = eq_text_refl host in ground arith
put-find (e ∷ es) host a = let same = eq_text_refl host in ground (arith, put-find es host a)

-- A stored answer is the one that is found under its name, whether an entry had to go for it or not.
pub store_answer-find :
    (cache : List Entry) (host : Text) (entry : Answer)
    → find (store_answer cache host entry) host ≡ some entry
unfolding store_answer
store_answer-find cache host entry = put-find _ host entry
