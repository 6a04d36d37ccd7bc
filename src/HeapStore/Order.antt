-- ===== src/HeapStore/Order.antt =====
-- HeapStore.h keeps its records in the order of the keys.
use micro_store.Base.{
  ℕ, ◌≡◌, refl, true, false, none, some, List, [], ◌∷◌, arith, if◌then◌else◌, bytes_eq,
  bytes_eq_iff,
}
use micro_store.Assoc.{Key, lookup, erase}
use micro_store.HeapStore.{
  HeapEntry, HeapStore, bytes_lt, assign_sorted, purge, evict, make_room, put,
}

pub bytes_lt_irrefl : (a : Key) → bytes_lt a a ≡ false
unfolding bytes_lt
bytes_lt_irrefl [] = refl
bytes_lt_irrefl (x ∷ xs) = ground (arith, bytes_lt_irrefl xs)

pub bytes_lt_trans : (a b c : Key) → bytes_lt a b ≡ true → bytes_lt b c ≡ true → bytes_lt a c ≡ true
unfolding bytes_lt
bytes_lt_trans [] [] c h k = ground arith
bytes_lt_trans [] (y ∷ ys) [] h k = ground arith
bytes_lt_trans [] (y ∷ ys) (z ∷ zs) h k = refl
bytes_lt_trans (x ∷ xs) [] c h k = ground arith
bytes_lt_trans (x ∷ xs) (y ∷ ys) [] h k = ground arith
bytes_lt_trans (x ∷ xs) (y ∷ ys) (z ∷ zs) h k = ground (arith, bytes_lt_trans xs ys zs)

pub bytes_lt_total : (a b : Key) → bytes_lt a b ≡ false → bytes_eq b a ≡ false → bytes_lt b a ≡ true
unfolding bytes_lt bytes_eq
bytes_lt_total [] [] h k = ground arith
bytes_lt_total [] (y ∷ ys) h k = ground arith
bytes_lt_total (x ∷ xs) [] h k = refl
bytes_lt_total (x ∷ xs) (y ∷ ys) h k = ground (arith, bytes_lt_total xs ys)

-- Every key of the list is above `k`.
abbrev pub AllAbove : Key → List (Key × HeapEntry) → Type 0
AllAbove k [] = Unit {0}
AllAbove k ((j, e) ∷ l) = (bytes_lt k j ≡ true) × AllAbove k l

-- The keys strictly ascend, so no key occurs twice.
abbrev pub IsSorted : List (Key × HeapEntry) → Type 0
IsSorted [] = Unit {0}
IsSorted ((k, e) ∷ l) = AllAbove k l × IsSorted l

pub AllAbove-trans :
    (j k : Key) (l : List (Key × HeapEntry)) → bytes_lt j k ≡ true → AllAbove k l → AllAbove j l
AllAbove-trans j k [] h a = tt
AllAbove-trans j k ((i, e) ∷ l) h a = (bytes_lt_trans j k i h a.0, AllAbove-trans j k l h a.1)

AllAbove-assign :
    (j k : Key) (e : HeapEntry) (l : List (Key × HeapEntry))
    → bytes_lt j k ≡ true
    → AllAbove j l
    → AllAbove j (assign_sorted k e l)
unfolding assign_sorted
AllAbove-assign j k e [] h a = (h, tt)
AllAbove-assign j k e ((i, f) ∷ l) h a = ground (arith, AllAbove-assign j k e l h a.1)

pub assign_sorted-IsSorted :
    (k : Key) (e : HeapEntry) (l : List (Key × HeapEntry))
    → IsSorted l
    → IsSorted (assign_sorted k e l)
unfolding assign_sorted
assign_sorted-IsSorted k e [] s = (tt, tt)
assign_sorted-IsSorted k e ((j, f) ∷ l) s = ground (
  arith,
  assign_sorted-IsSorted k e l s.1,
  bytes_eq_iff j k,
  bytes_lt_total k j,
  AllAbove-trans k j l,
  AllAbove-assign j k e l,
)

AllAbove-purge :
    (now : ℕ) (s : HeapStore) (k : Key) (l : List (Key × HeapEntry))
    → AllAbove k l
    → AllAbove k (purge now s l)
unfolding purge
AllAbove-purge now s k [] a = tt
AllAbove-purge now s k ((j, e) ∷ l) a = ground (arith, AllAbove-purge now s k l a.1)

pub purge-IsSorted :
    (now : ℕ) (s : HeapStore) (l : List (Key × HeapEntry)) → IsSorted l → IsSorted (purge now s l)
unfolding purge
purge-IsSorted now s [] h = tt
purge-IsSorted now s ((k, e) ∷ l) h =
    ground (arith, AllAbove-purge now s k l h.0, purge-IsSorted now s l h.1)

pub evict-IsSorted : (m : ℕ) (l : List (Key × HeapEntry)) → IsSorted l → IsSorted (evict m l)
unfolding evict
evict-IsSorted m [] h = tt
evict-IsSorted m ((k, e) ∷ l) h = ground (arith, evict-IsSorted m l h.1)

AllAbove-erase : (j k : Key) (l : List (Key × HeapEntry)) → AllAbove j l → AllAbove j (erase k l)
unfolding erase
AllAbove-erase j k [] a = tt
AllAbove-erase j k ((i, e) ∷ l) a = ground (arith, AllAbove-erase j k l a.1)

pub erase-IsSorted : (k : Key) (l : List (Key × HeapEntry)) → IsSorted l → IsSorted (erase k l)
unfolding erase
erase-IsSorted k [] h = tt
erase-IsSorted k ((j, e) ∷ l) h = ground (arith, AllAbove-erase j k l h.0, erase-IsSorted k l h.1)

-- A key below all others is not there.
pub lookup_of_AllAbove : (k : Key) (l : List (Key × HeapEntry)) → AllAbove k l → lookup k l ≡ none
unfolding lookup
lookup_of_AllAbove k [] a = refl
lookup_of_AllAbove k ((j, e) ∷ l) a =
    ground (arith, bytes_eq_iff j k, bytes_lt_irrefl k, lookup_of_AllAbove k l a.1)

-- With each key once, an assignment changes the entry of its key alone.
pub lookup-assign_sorted :
    (k j : Key) (e : HeapEntry) (l : List (Key × HeapEntry))
    → lookup j (assign_sorted k e l) ≡ (if bytes_eq k j then some e else lookup j l)
unfolding lookup assign_sorted
lookup-assign_sorted k j e [] = refl
lookup-assign_sorted k j e ((i, f) ∷ l) =
    ground
      (arith, lookup-assign_sorted k j e l, bytes_eq_iff i k, bytes_eq_iff i j, bytes_eq_iff k j)

make_room-IsSorted :
    (s : HeapStore) (k : Key) (l : List (Key × HeapEntry)) → IsSorted l → IsSorted (make_room s k l)
unfolding make_room
make_room-IsSorted s k l h = ground (arith, evict-IsSorted s.policy_max_recs l h)

-- `put` keeps the keys strictly ascending: whatever it purges, evicts and assigns, no key occurs
-- twice.
put-IsSorted :
    (now : ℕ) (s : HeapStore) (key : Key) (value : List ℕ) (ttl ts : ℕ)
    → IsSorted s.entries
    → IsSorted (put now s key value ttl ts).0.entries
unfolding put
put-IsSorted now s key value ttl ts h = ground (
  arith,
  assign_sorted-IsSorted key (record { value = value; timestamp = ts; ttl = ttl })
      (make_room s key (purge now s s.entries)),
  make_room-IsSorted s key (purge now s s.entries),
  purge-IsSorted now s s.entries,
)
