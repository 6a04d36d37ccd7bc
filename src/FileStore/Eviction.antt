-- ===== src/FileStore/Eviction.antt =====
-- FileStore.h: time to live, and the choice of the records that give way to the limit.
pub mod Limit
pub mod Rank
use micro_store.Base.{
  ℕ, zero, suc, ◌+◌, ◌-◌, ◌*◌, ◌/◌, ◌%◌, ◌^◌, Bool, true, false, ◌&&◌, Option, none, some, List, [],
  ◌∷◌, length, take, map, ltb, leb, ◌==◌, if◌then◌else◌, sub32,
}
use micro_store.Assoc.{Key, erase}
use micro_store.FileStore.Index.{UInt24, of_uint24, IndexValue, IndexMap}

unfoldable pub is_ttl_expired : ℕ → ℕ → ℕ → ℕ → Bool
is_ttl_expired policy_ttl_secs now ts record_ttl =
    let effective = if ltb 0 record_ttl then record_ttl else policy_ttl_secs in
    ltb 0 effective && (ltb ts now && leb effective (sub32 now ts))

pub record Candidate : Type 0 where
  pub priority : ℕ
  pub timestamp : ℕ
  pub ttl : ℕ
  pub key : Key

-- `(ttl / (priority + 3)) * priority * 10` in `uint32_t`
unfoldable pub penalty : Candidate → ℕ
penalty c = c.ttl / (c.priority + 3) * c.priority * 10 % 2 ^ 32

unfoldable pub evicts_before : Candidate → Candidate → Bool
evicts_before a b = ltb (a.timestamp + penalty b) (b.timestamp + penalty a)

unfoldable pub candidate : ℕ → Key × IndexValue → Candidate
candidate policy_ttl_secs (key, v) = record {
  priority = v.priority;
  timestamp = v.timestamp;
  ttl = if ltb 0 (of_uint24 v.ttl) then of_uint24 v.ttl else policy_ttl_secs;
  key = key;
}

-- The scan for one record.
unfoldable pub first_to_evict : Candidate → List Candidate → Candidate
first_to_evict best [] = best
first_to_evict best (c ∷ cs) = first_to_evict (if evicts_before c best then c else best) cs

-- `std::partial_sort`, which leaves the order among equals open: here they stay as they were.
unfoldable pub insert_candidate : Candidate → List Candidate → List Candidate
insert_candidate c [] = c ∷ []
insert_candidate c (x ∷ xs) =
    let rest = insert_candidate c xs in if evicts_before x c then x ∷ rest else c ∷ x ∷ xs

unfoldable pub sort_candidates : List Candidate → List Candidate
sort_candidates [] = []
sort_candidates (c ∷ cs) = insert_candidate c (sort_candidates cs)

unfoldable pub erase_all : List Candidate → IndexMap → IndexMap
erase_all [] index = index
erase_all (c ∷ cs) index = erase_all cs (erase c.key index)

-- The records to evict, of an index with entries.
unfoldable pub victims : ℕ → ℕ → IndexMap → List Candidate
victims policy_ttl_secs to_evict [] = []
victims policy_ttl_secs to_evict (e ∷ index) =
    let all = map (candidate policy_ttl_secs) (e ∷ index) in
    if to_evict == 1
    then first_to_evict (candidate policy_ttl_secs e) all ∷ []
    else take to_evict (sort_candidates all)

-- `prune_index_to_max_recs_`: the index that is left, and the number of entries evicted.
unfoldable pub prune : ℕ → ℕ → IndexMap → IndexMap × ℕ
prune policy_ttl_secs policy_max_recs index =
    if policy_max_recs == 0
    then (index, 0)
    else if leb (length index) policy_max_recs
    then (index, 0)
    else let to_evict = length index - policy_max_recs in
      (erase_all (victims policy_ttl_secs to_evict index) index, to_evict)
