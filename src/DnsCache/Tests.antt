-- ===== src/DnsCache/Tests.antt =====
-- The theorems of the DNS cache at a cache of one entry.
use clipal.Common.{◌≤◌, List, [], ◌∷◌, false, arith, length, text}
use clipal.DnsCache.{Answer, Entry, store_answer, store_answer-length}

abbrev answer : Answer
answer = record { ips = (10 ∷ 0 ∷ 0 ∷ 1 ∷ []) ∷ []; failed = false; until = 90 }

abbrev cache : List Entry
cache = record { name = text "a.example"; answer = answer } ∷ []

store_answer-length_example : length (store_answer cache (text "b.example") answer) ≤ 256
store_answer-length_example = store_answer-length cache (text "b.example") answer (omega arith)
