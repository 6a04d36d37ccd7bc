-- ===== src/FileStore/Eviction/Limit.antt =====
-- FileStore.h: `prune_index_to_max_recs_` brings the index down to the limit, by records that no
-- kept one should have gone before.
use micro_store.Base.{
  ℕ, zero, suc, ◌+◌, ◌-◌, ◌≤◌, ◌<◌, min, ◌≡◌, ◌≢◌, refl, ap, false, none, List, [], ◌∷◌, map, arith,
  length, take, length-take, ltb, leb, ◌==◌, if◌then◌else◌, Bool-cases, Option-cases, inl, inr,
  bytes_eq, bytes_eq_iff, bytes_eq_refl,
}
use micro_store.Assoc.{Key, lookup, erase, IsDistinct, erase-IsDistinct, length-erase, lookup-erase}
use micro_store.FileStore.Index.{IndexValue, IndexMap}
use micro_store.FileStore.Eviction.{
  Candidate, candidate, evicts_before, first_to_evict, insert_candidate, sort_candidates, erase_all,
  victims, prune,
}

-- No candidate has the key.
abbrev pub IsAbsent : Key → List Candidate → Type 0
IsAbsent k [] = Unit {0}
IsAbsent k (c ∷ cs) = (bytes_eq c.key k ≡ false) × IsAbsent k cs

-- The candidates have different keys, all of them in the index.
abbrev pub IsChoice : IndexMap → List Candidate → Type 0
IsChoice index [] = Unit {0}
IsChoice index (c ∷ cs) = (lookup c.key index ≢ none) × IsAbsent c.key cs × IsChoice index cs

IsAbsent-insert :
    (k : Key) (c : Candidate) (cs : List Candidate)
    → bytes_eq c.key k ≡ false
    → IsAbsent k cs
    → IsAbsent k (insert_candidate c cs)
unfolding insert_candidate
IsAbsent-insert k c [] h a = (h, tt)
IsAbsent-insert k c (x ∷ xs) h a = ground (arith, IsAbsent-insert k c xs h a.1)

IsChoice-insert :
    (index : IndexMap) (c : Candidate) (cs : List Candidate)
    → lookup c.key index ≢ none
    → IsAbsent c.key cs
    → IsChoice index cs
    → IsChoice index (insert_candidate c cs)
unfolding insert_candidate
IsChoice-insert index c [] p a h = (p, tt, tt)
IsChoice-insert index c (x ∷ xs) p a h = elim (Bool-cases (evicts_before x c)) [
  | inl before ↦
      rw (before, insert_candidate)
        (
          h.0,
          IsAbsent-insert x.key c xs
              (ground (arith, bytes_eq_iff x.key c.key, bytes_eq_iff c.key x.key)) h.1,
          IsChoice-insert index c xs p a.1 h.2,
        )
  | inr behind ↦ rw (behind, insert_candidate) (p, a, h)
]

IsAbsent-take : (k : Key) (n : ℕ) (cs : List Candidate) → IsAbsent k cs → IsAbsent k (take n cs)
IsAbsent-take k zero cs a = tt
IsAbsent-take k (suc n) [] a = tt
IsAbsent-take k (suc n) (c ∷ cs) a = (a.0, IsAbsent-take k n cs a.1)

IsChoice-take :
    (index : IndexMap) (n : ℕ) (cs : List Candidate)
    → IsChoice index cs
    → IsChoice index (take n cs)
IsChoice-take index zero cs h = tt
IsChoice-take index (suc n) [] h = tt
IsChoice-take index (suc n) (c ∷ cs) h =
    (h.0, IsAbsent-take c.key n cs h.1, IsChoice-take index n cs h.2)

-- A choice from the rest of the index is one after the erasure of another key.
IsChoice-erase :
    (k : Key) (index : IndexMap) (cs : List Candidate)
    → IsAbsent k cs
    → IsChoice index cs
    → IsChoice (erase k index) cs
IsChoice-erase k index [] a h = tt
IsChoice-erase k index (c ∷ cs) a h = (
  ground (arith, lookup-erase k c.key index, bytes_eq_iff k c.key, bytes_eq_iff c.key k),
  h.1,
  IsChoice-erase k index cs a.1 h.2,
)

-- Erasing a choice takes away one entry for each.
length-erase_all :
    (cs : List Candidate) (index : IndexMap)
    → IsDistinct index
    → IsChoice index cs
    → length (erase_all cs index) + length cs ≡ length index
unfolding erase_all
length-erase_all [] index d h = omega arith
length-erase_all (c ∷ cs) index d h = elim (Option-cases (lookup c.key index)) [
  | inl e ↦ absurd (h.0 e)
  | inr (v, e) ↦ omega (
    arith,
    length-erase c.key index v d e,
    length-erase_all cs (erase c.key index) (erase-IsDistinct c.key index d)
        (IsChoice-erase c.key index cs h.1 h.2),
  )
]

IsAbsent-sort : (k : Key) (cs : List Candidate) → IsAbsent k cs → IsAbsent k (sort_candidates cs)
unfolding sort_candidates
IsAbsent-sort k [] a = tt
IsAbsent-sort k (c ∷ cs) a = IsAbsent-insert k c (sort_candidates cs) a.0 (IsAbsent-sort k cs a.1)

IsChoice-sort :
    (index : IndexMap) (cs : List Candidate)
    → IsChoice index cs
    → IsChoice index (sort_candidates cs)
unfolding sort_candidates
IsChoice-sort index [] h = tt
IsChoice-sort index (c ∷ cs) h =
    IsChoice-insert index c (sort_candidates cs) h.0 (IsAbsent-sort c.key cs h.1)
      (IsChoice-sort index cs h.2)

length-insert_candidate :
    (c : Candidate) (cs : List Candidate) → length (insert_candidate c cs) ≡ length cs + 1
unfolding insert_candidate
length-insert_candidate c [] = omega arith
length-insert_candidate c (x ∷ xs) = ground (arith, length-insert_candidate c xs)

length-sort_candidates : (cs : List Candidate) → length (sort_candidates cs) ≡ length cs
unfolding sort_candidates
length-sort_candidates [] = refl
length-sort_candidates (c ∷ cs) =
    omega (arith, length-insert_candidate c (sort_candidates cs), length-sort_candidates cs)

-- Every key of the part is in the index.
abbrev IsPart : IndexMap → IndexMap → Type 0
IsPart index [] = Unit {0}
IsPart index ((k, v) ∷ l) = (lookup k index ≢ none) × IsPart index l

IsPart-grow :
    (k : Key) (v : IndexValue) (index l : IndexMap) → IsPart index l → IsPart ((k, v) ∷ index) l
unfolding lookup
IsPart-grow k v index [] p = tt
IsPart-grow k v index ((j, w) ∷ l) p = (ground (arith, p.0), IsPart-grow k v index l p.1)

IsPart-refl : (index : IndexMap) → IsPart index index
unfolding lookup
IsPart-refl [] = tt
IsPart-refl ((k, v) ∷ index) =
    (ground (arith, bytes_eq_refl k), IsPart-grow k v index index (IsPart-refl index))

module _ (ttl : ℕ) where
  IsAbsent-candidates :
      (k : Key) (l : IndexMap) → lookup k l ≡ none → IsAbsent k (map (candidate ttl) l)
  unfolding lookup candidate
  IsAbsent-candidates k [] h = tt
  IsAbsent-candidates k ((j, v) ∷ l) h = (ground arith, IsAbsent-candidates k l (ground arith))

  IsChoice-candidates :
      (index l : IndexMap) → IsDistinct l → IsPart index l → IsChoice index (map (candidate ttl) l)
  unfolding candidate
  IsChoice-candidates index [] d p = tt
  IsChoice-candidates index ((k, v) ∷ l) d p =
      (p.0, IsAbsent-candidates k l d.0, IsChoice-candidates index l d.1 p.1)

  first_to_evict-there :
      (index : IndexMap) (best : Candidate) (cs : List Candidate)
      → lookup best.key index ≢ none
      → IsChoice index cs
      → lookup (first_to_evict best cs).key index ≢ none
  unfolding first_to_evict
  first_to_evict-there index best [] b h = b
  first_to_evict-there index best (c ∷ cs) b h = elim (Bool-cases (evicts_before c best)) [
    | inl before ↦ rw (before, first_to_evict) (first_to_evict-there index c cs h.0 h.2)
    | inr behind ↦ rw (behind, first_to_evict) (first_to_evict-there index best cs b h.2)
  ]

  length-map-candidate : (l : IndexMap) → length (map (candidate ttl) l) ≡ length l
  length-map-candidate [] = refl
  length-map-candidate (e ∷ l) = ap suc (length-map-candidate l)

  -- The records chosen are as many as asked for, different, and in the index.
  victims-IsChoice :
      (n : ℕ) (index : IndexMap)
      → IsDistinct index
      → n ≤ length index
      → 0 < n
      → IsChoice index (victims ttl n index) × (length (victims ttl n index) ≡ n)
  unfolding victims
  victims-IsChoice n [] d le pos = absurd (omega arith)
  victims-IsChoice n ((k, v) ∷ l) d le pos =
      let index : IndexMap = (k, v) ∷ l in
      let choice = IsChoice-candidates index index d (IsPart-refl index) in
      let sorted = sort_candidates (map (candidate ttl) index) in
      elim (Bool-cases (n == 1)) [
        | inl one ↦
            rw (one, victims)
              (
                (
                  first_to_evict-there index (candidate ttl (k, v)) (map (candidate ttl) index)
                      choice.0 choice,
                  tt,
                  tt,
                ),
                ground arith,
              )
        | inr more ↦
            rw (more, victims)
              (
                IsChoice-take index n sorted
                    (IsChoice-sort index (map (candidate ttl) index) choice),
                omega (
                  arith,
                  length-take n sorted,
                  length-sort_candidates (map (candidate ttl) index),
                  length-map-candidate index,
                ),
              )
      ]

  -- An index with each key once that is above the limit is brought down to the limit exactly, and
  -- one that is not, or has no limit, keeps its size. The number reported is the difference.
  pub length-prune :
      (max_recs : ℕ) (index : IndexMap)
      → IsDistinct index
      → (length (prune ttl max_recs index).0
          ≡ (if ltb 0 max_recs then min (length index) max_recs else length index))
        × (length (prune ttl max_recs index).0 + (prune ttl max_recs index).1 ≡ length index)
  unfolding prune
  length-prune max_recs index d = elim (Bool-cases (max_recs == 0)) [
    | inl none_set ↦ ground arith
    | inr set ↦ elim (Bool-cases (leb (length index) max_recs)) [
      | inl within ↦ ground arith
      | inr above ↦
          let n = length index - max_recs in
          let (choice, count) = victims-IsChoice n index d (ground arith) (ground arith) in
          ground (arith, length-erase_all (victims ttl n index) index d choice, count)
    ]
  ]
