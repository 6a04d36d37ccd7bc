-- ===== src/HeapStore/View.antt =====
-- HeapStore.h against its specification: a store is a partial function from keys to records, and
-- a record that has expired is not there.
use micro_store.Base.{
  ℕ, ◌%◌, ◌^◌, ◌≤◌, ◌<◌, min, ◌≡◌, refl, ap, Bool, true, false, Option, none, some, List, [], ◌∷◌,
  arith, length, take, replicate, if◌then◌else◌, bytes_eq, bytes_eq_iff, bytes_eq_refl,
  Option-cases, inl, inr, take_of_length-le, take-append,
}
use mathlib.Core.Option
use micro_store.Assoc.{Key, lookup, lookup-erase}
use micro_store.HeapStore.{
  HeapEntry, HeapStore, purge, make_room, put, put_vector, get, get_vector, resized, fetch, remove,
  is_expired, max_key_len, max_value_len,
}
use micro_store.HeapStore.Order.{IsSorted, lookup_of_AllAbove, lookup-assign_sorted}

pub unexpired : ℕ → HeapStore → Option HeapEntry → Option HeapEntry
unexpired now s none = none
unexpired now s (some e) = if is_expired now s e then none else some e

-- What a client sees under a key.
pub view : ℕ → HeapStore → Key → Option HeapEntry
unfolding unexpired
view now s key = unexpired now s (lookup key s.entries)

get_result :
    (now : ℕ) (s : HeapStore) (key : Key) (with_out : Bool) (size : ℕ)
    → length key ≤ max_key_len
    → (get now s key with_out size).1
      ≡ Option.map (λ e. fetch with_out size e.value) (view now s key)
unfolding get view
get_result now s key with_out size h = elim (Option-cases (lookup key s.entries)) [
  | inl e ↦ ground arith
  | inr (v, e) ↦ ground arith
]

view_after_get :
    (now : ℕ) (s : HeapStore) (key : Key) (with_out : Bool) (size : ℕ) (j : Key)
    → view now (get now s key with_out size).0 j ≡ view now s j
unfolding get view is_expired
view_after_get now s key with_out size j =
    ground (arith, lookup-erase key j s.entries, bytes_eq_iff key j)

-- `get` of a key of at most 64 bytes returns the value that the client sees under the key, or
-- false, and what it erases no client sees: the view of any key `j` stays the same.
pub get-view :
    (now : ℕ) (s : HeapStore) (key : Key) (with_out : Bool) (size : ℕ) (j : Key)
    → length key ≤ max_key_len
    → ((get now s key with_out size).1
        ≡ Option.map (λ e. fetch with_out size e.value) (view now s key))
      × (view now (get now s key with_out size).0 j ≡ view now s j)
get-view now s key with_out size j h =
    (get_result now s key with_out size h, view_after_get now s key with_out size j)

lookup-purge :
    (now : ℕ) (s : HeapStore) (j : Key) (l : List (Key × HeapEntry))
    → IsSorted l
    → lookup j (purge now s l) ≡ unexpired now s (lookup j l)
unfolding lookup purge unexpired
lookup-purge now s j [] h = refl
lookup-purge now s j ((k, e) ∷ l) h =
    ground (arith, lookup-purge now s j l h.1, bytes_eq_iff k j, lookup_of_AllAbove k l h.0)

-- Without a limit on the records and with the keys in order, a `put` of a key of at most 64 bytes
-- and a value of at most 1024 makes its key show the new record, unless that is out of date at
-- once, and every other key shows what it did.
pub view-put :
    (now : ℕ) (s : HeapStore) (key : Key) (value : List ℕ) (ttl ts : ℕ) (j : Key)
    → IsSorted s.entries
    → s.policy_max_recs ≡ 0
    → length key ≤ max_key_len
    → length value ≤ max_value_len
    → view now (put now s key value ttl ts).0 j ≡ (
        if bytes_eq key j
        then unexpired now s (some (record { value = value; timestamp = ts; ttl = ttl }))
        else view now s j)
unfolding put view make_room is_expired
view-put now s key value ttl ts j sorted no_limit hk hv =
    let e : HeapEntry = record { value = value; timestamp = ts; ttl = ttl } in
    ground (
      arith,
      lookup-assign_sorted key j e (purge now s s.entries),
      lookup-purge now s j s.entries sorted,
    )

-- `remove` of a key of legal length makes it absent, and every other key shows what it did.
pub view-remove :
    (now : ℕ) (s : HeapStore) (key j : Key)
    → length key ≤ max_key_len
    → view now (remove s key).0 j ≡ (if bytes_eq key j then none else view now s j)
unfolding remove view is_expired
view-remove now s key j h = ground (arith, lookup-erase key j s.entries)

take_cast : (n : ℕ) (xs : List ℕ) → length xs < n → take (length xs % n) xs ≡ xs
take_cast n xs h = take_of_length-le (length xs % n) xs (grind arith)

resized-fetch :
    (v : List ℕ) → length v ≤ max_value_len → resized (some (fetch true max_value_len v)) ≡ some v
unfolding resized fetch
resized-fetch v h =
    let n : min max_value_len (length v) % 2 ^ 16 ≡ length v = omega arith in
    let m : length v % 2 ^ 16 ≡ length v = omega arith in
    rw (n, m, take_of_length-le (length v) v (omega arith))
      (ap some (take-append v (replicate max_value_len 0) (length v) refl))

-- What `put` of a vector stores, `get` into a vector returns whole: the two casts, the buffer of
-- the largest value and the final resize lose nothing of a key of at most 64 bytes and a value of
-- at most 1024 that is not out of date at once.
pub get_vector-put_vector :
    (now : ℕ) (s : HeapStore) (key : Key) (value : List ℕ) (ttl ts : ℕ)
    → length key ≤ max_key_len
    → length value ≤ max_value_len
    → is_expired now s (record { value = value; timestamp = ts; ttl = ttl }) ≡ false
    → (get_vector now (put_vector now s key value ttl ts).0 key).1 ≡ some value
unfolding put_vector get_vector is_expired
get_vector-put_vector now s key value ttl ts hk hv fresh =
    let e : HeapEntry = record { value = value; timestamp = ts; ttl = ttl } in
    let room = make_room s key (purge now s s.entries) in
    rw (take_cast (2 ^ 8) key (omega arith), take_cast (2 ^ 16) value (omega arith))
      (ground
        (arith, lookup-assign_sorted key key e room, bytes_eq_refl key, resized-fetch value hv))
