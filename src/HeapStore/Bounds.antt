-- ===== src/HeapStore/Bounds.antt =====
-- HeapStore.h: how many records a store holds, and which ones `put` evicts.
use micro_store.Base.{
  ℕ, suc, ◌+◌, ◌-◌, ◌≤◌, ◌<◌, ◌≡◌, ◌≢◌, refl, none, List, [], ◌∷◌, arith, length, drop, leb,
  Bool-cases, ◌⊎◌, inl, inr,
}
use micro_store.Assoc.{Key, lookup}
use micro_store.HeapStore.Order.{IsSorted, AllAbove-trans, lookup_of_AllAbove, purge-IsSorted}
use micro_store.HeapStore.{
  HeapEntry, HeapStore, assign_sorted, purge, evict, make_room, put, max_key_len, max_value_len,
}

length-evict-lt : (m : ℕ) (l : List (Key × HeapEntry)) → 0 < m → length (evict m l) < m
unfolding evict
length-evict-lt m [] h = omega arith
length-evict-lt m (x ∷ l) h = ground (arith, length-evict-lt m l h)

length-purge-le :
    (now : ℕ) (s : HeapStore) (l : List (Key × HeapEntry)) → length (purge now s l) ≤ length l
unfolding purge
length-purge-le now s [] = omega arith
length-purge-le now s ((k, e) ∷ l) = ground (arith, length-purge-le now s l)

length-assign_sorted :
    (k : Key) (e : HeapEntry) (l : List (Key × HeapEntry))
    → length (assign_sorted k e l) ≤ length l + 1
unfolding assign_sorted
length-assign_sorted k e [] = omega arith
length-assign_sorted k e ((j, f) ∷ l) = ground (arith, length-assign_sorted k e l)

evict_of_lt : (m : ℕ) (l : List (Key × HeapEntry)) → length l < m → evict m l ≡ l
unfolding evict
evict_of_lt m [] h = refl
evict_of_lt m (x ∷ l) h = ground arith

-- The loop drops records from the low end of the order until fewer than `m` are left.
evict-drop : (m : ℕ) (l : List (Key × HeapEntry)) → 0 < m → evict m l ≡ drop (length l + 1 - m) l
unfolding evict
evict-drop m [] h = let e : 0 + 1 - m ≡ 0 = omega arith in rw e
evict-drop m (x ∷ l) h = elim (Bool-cases (leb m (suc (length l)))) [
  | inl full ↦
      let n : suc (length l) + 1 - m ≡ suc (length l + 1 - m) = ground arith in
      rw (full, n) (evict-drop m l h)
  | inr room ↦ let n : suc (length l) + 1 - m ≡ 0 = ground arith in rw (room, n)
]

length-assign_sorted_old :
    (k : Key) (e : HeapEntry) (l : List (Key × HeapEntry))
    → IsSorted l
    → lookup k l ≢ none
    → length (assign_sorted k e l) ≡ length l
unfolding assign_sorted lookup
length-assign_sorted_old k e [] o h = absurd (h refl)
length-assign_sorted_old k e ((j, f) ∷ l) o h =
    ground (arith, length-assign_sorted_old k e l o.1, AllAbove-trans k j l, lookup_of_AllAbove k l)

-- With a limit on the records and the keys in order, a `put` of a legal key and value leaves no
-- more records than the limit, when there were no more before it or when the key is new to the
-- purged store.
pub put_bounded :
    (now : ℕ) (s : HeapStore) (key : Key) (value : List ℕ) (ttl ts : ℕ)
    → IsSorted s.entries
    → 0 < s.policy_max_recs
    → length key ≤ max_key_len
    → length value ≤ max_value_len
    → (length s.entries ≤ s.policy_max_recs) ⊎ (lookup key (purge now s s.entries) ≡ none)
    → length (put now s key value ttl ts).0.entries ≤ s.policy_max_recs
unfolding put make_room
put_bounded now s key value ttl ts sorted pos hk hv h =
    let p = purge now s s.entries in
    let e : HeapEntry = record { value = value; timestamp = ts; ttl = ttl } in
    ground (
      arith,
      length-assign_sorted key e (evict s.policy_max_recs p),
      length-assign_sorted_old key e p (purge-IsSorted now s s.entries sorted),
      length-evict-lt s.policy_max_recs p pos,
      length-purge-le now s s.entries,
    )

-- With a limit on the records, a `put` of a legal key and value, of which the purged store lacks
-- the key, drops the records with the smallest keys, as many as it takes to leave one place, and
-- no others.
pub put_evicts :
    (now : ℕ) (s : HeapStore) (key : Key) (value : List ℕ) (ttl ts : ℕ)
    → 0 < s.policy_max_recs
    → length key ≤ max_key_len
    → length value ≤ max_value_len
    → lookup key (purge now s s.entries) ≡ none
    → (put now s key value ttl ts).0.entries
      ≡ assign_sorted key
          (record { value = value; timestamp = ts; ttl = ttl })
          (drop (length (purge now s s.entries) + 1 - s.policy_max_recs) (purge now s s.entries))
unfolding put make_room
put_evicts now s key value ttl ts pos hk hv new =
    ground (arith, evict-drop s.policy_max_recs (purge now s s.entries) pos)
