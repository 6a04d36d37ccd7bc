-- ===== src/FileStore/Eviction/Rank.antt =====
-- FileStore.h: the record that gives way to the limit is a first one in the order of eviction.
use micro_store.Base.{
  ℕ, ◌≡◌, refl, true, false, some, List, [], ◌∷◌, ◌++◌, ap, ◌⊎◌, map, arith, if◌then◌else◌,
  bytes_eq, bytes_eq_iff, Bool-cases, inl, inr,
}
use micro_store.Assoc.{Key, lookup}
use micro_store.FileStore.Index.{IndexValue, IndexMap}
use micro_store.FileStore.Eviction.{Candidate, evicts_before, candidate, first_to_evict, victims}

evicts_before_irrefl : (c : Candidate) → evicts_before c c ≡ false
unfolding evicts_before
evicts_before_irrefl c = ground arith

evicts_before_trans :
    (a b c : Candidate)
    → evicts_before a b ≡ false
    → evicts_before c b ≡ true
    → evicts_before a c ≡ false
unfolding evicts_before
evicts_before_trans a b c h k = ground arith

-- The scan goes on to candidates that come no later.
first_to_evict_after :
    (a best : Candidate) (cs : List Candidate)
    → evicts_before a best ≡ false
    → evicts_before a (first_to_evict best cs) ≡ false
unfolding first_to_evict
first_to_evict_after a best [] h = h
first_to_evict_after a best (c ∷ cs) h = elim (Bool-cases (evicts_before c best)) [
  | inl e ↦ rw e (first_to_evict_after a c cs (evicts_before_trans a best c h e))
  | inr e ↦ rw e (first_to_evict_after a best cs h)
]

first_to_evict_head :
    (best c : Candidate) (cs : List Candidate)
    → evicts_before c (first_to_evict best (c ∷ cs)) ≡ false
unfolding first_to_evict
first_to_evict_head best c cs = elim (Bool-cases (evicts_before c best)) [
  | inl e ↦ rw e (first_to_evict_after c c cs (evicts_before_irrefl c))
  | inr e ↦ rw e (first_to_evict_after c best cs e)
]

first_to_evict_tail :
    (a best c : Candidate) (cs : List Candidate)
    → ((b : Candidate) → evicts_before a (first_to_evict b cs) ≡ false)
    → evicts_before a (first_to_evict best (c ∷ cs)) ≡ false
unfolding first_to_evict
first_to_evict_tail a best c cs h = h (if evicts_before c best then c else best)

first_to_evict_all :
    (ttl : ℕ) (best : Candidate) (index : IndexMap) (key : Key) (v : IndexValue)
    → lookup key index ≡ some v
    → evicts_before (candidate ttl (key, v)) (first_to_evict best (map (candidate ttl) index))
      ≡ false
unfolding lookup
first_to_evict_all ttl best [] key v h = ground arith
first_to_evict_all ttl best ((k, w) ∷ index) key v h = elim (Bool-cases (bytes_eq k key)) [
  | inl e ↦
      let p : k ≡ key = (bytes_eq_iff k key).0 e in
      let q : w ≡ v = ground arith in
      rw (← p, ← q) (first_to_evict_head best (candidate ttl (k, w)) (map (candidate ttl) index))
  | inr e ↦
      let rest : lookup key index ≡ some v = ground arith in
      first_to_evict_tail (candidate ttl (key, v)) best (candidate ttl (k, w))
        (map (candidate ttl) index) (λ b. first_to_evict_all ttl b index key v rest)
]

-- A candidate that stands for an entry of the index.
pub record Chosen (ttl : ℕ) (index : IndexMap) (victim : Candidate) : Type 0 where
  pub before : IndexMap
  pub entry : Key × IndexValue
  pub behind : IndexMap
  pub splits : index ≡ before ++ (entry ∷ behind)
  pub is : victim ≡ candidate ttl entry

Chosen-cons :
    (ttl : ℕ) (e : Key × IndexValue) (index : IndexMap) (victim : Candidate)
    → Chosen ttl index victim
    → Chosen ttl (e ∷ index) victim
Chosen-cons ttl e index victim c = record {
  before = e ∷ c.before;
  entry = c.entry;
  behind = c.behind;
  splits = ap (λ l. e ∷ l) c.splits;
  is = c.is;
}

first_to_evict-Chosen :
    (ttl : ℕ) (best : Candidate) (index : IndexMap)
    → (first_to_evict best (map (candidate ttl) index) ≡ best)
      ⊎ Chosen ttl index (first_to_evict best (map (candidate ttl) index))
unfolding first_to_evict
first_to_evict-Chosen ttl best [] = inl refl
first_to_evict-Chosen ttl best (e ∷ index) =
    elim (Bool-cases (evicts_before (candidate ttl e) best)) [
      | inl earlier ↦
          rw (earlier, first_to_evict)
            (elim (first_to_evict-Chosen ttl (candidate ttl e) index) [
              | inl same ↦
                  inr (record { before = []; entry = e; behind = index; splits = refl; is = same })
              | inr c ↦ inr (Chosen-cons ttl e index _ c)
            ])
      | inr later ↦
          rw (later, first_to_evict)
            (elim (first_to_evict-Chosen ttl best index) [
              | inl same ↦ inl same
              | inr c ↦ inr (Chosen-cons ttl e index _ c)
            ])
    ]

-- The scan starts from the first entry.
first_to_evict-Chosen_head :
    (ttl : ℕ) (e : Key × IndexValue) (index : IndexMap)
    → Chosen ttl (e ∷ index) (first_to_evict (candidate ttl e) (map (candidate ttl) (e ∷ index)))
first_to_evict-Chosen_head ttl e index =
    elim (first_to_evict-Chosen ttl (candidate ttl e) (e ∷ index)) [
      | inl same ↦ record { before = []; entry = e; behind = index; splits = refl; is = same }
      | inr c ↦ c
    ]

-- When one record has to give way, the choice is one entry of the index, and no record that is
-- found in the index comes before it in the order of eviction, which compares the times of two
-- records with the penalty of the other added.
pub victims_rank :
    (ttl : ℕ) (index : IndexMap) (key : Key) (v : IndexValue)
    → lookup key index ≡ some v
    → (victim : Candidate) × ((victims ttl 1 index ≡ victim ∷ [])
        × Chosen ttl index victim
        × (evicts_before (candidate ttl (key, v)) victim ≡ false))
unfolding victims lookup
victims_rank ttl [] key v h = absurd (ground arith)
victims_rank ttl (e ∷ index) key v h = (
  _,
  (
    refl,
    first_to_evict-Chosen_head ttl e index,
    first_to_evict_all ttl (candidate ttl e) (e ∷ index) key v h,
  ),
)
