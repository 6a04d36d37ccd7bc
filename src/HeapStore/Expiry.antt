-- ===== src/HeapStore/Expiry.antt =====
-- HeapStore.h: when a record is out of date, and casts of a key's length.
use micro_store.Base.{
  ℕ, ◌+◌, ◌-◌, ◌%◌, ◌^◌, ◌≤◌, ◌<◌, ◌≡◌, ◌↔◌, Bool, true, none, some, List, arith, length, take,
  length-take, bytes_eq_refl, sub32_of_le,
}
use micro_store.Assoc.{Key, lookup}
use micro_store.HeapStore.{
  HeapEntry, HeapStore, purge, make_room, put, put_vector, get, exists, is_expired, effective_ttl,
  max_key_len, max_value_len,
}
use micro_store.HeapStore.Order.{lookup-assign_sorted}

-- On times in order, a record is out of date exactly when a time to live is set, its own or the
-- policy's, and at least that much has passed.
pub is_expired_iff :
    (now : ℕ) (s : HeapStore) (e : HeapEntry)
    → e.timestamp ≤ now
    → now < 2 ^ 32
    → (is_expired now s e ≡ true)
      ↔ ((0 < effective_ttl s e) × (e.timestamp + effective_ttl s e ≤ now))
unfolding is_expired
is_expired_iff now s e h k = ground (arith, sub32_of_le now e.timestamp h k)

-- A record with a legal key, a legal value and a time to live, whose timestamp is ahead of the
-- clock by at most the range of the clock less the time to live: `put` accepts it, and the `get`
-- that follows at the same time fails.
pub put_ahead_lost :
    (now : ℕ) (s : HeapStore) (key : Key) (value : List ℕ) (ttl ts : ℕ) (with_out : Bool) (size : ℕ)
    → length key ≤ max_key_len
    → length value ≤ max_value_len
    → now < ts
    → ts < 2 ^ 32
    → 0 < ttl
    → ts + ttl ≤ 2 ^ 32 + now
    → ((put now s key value ttl ts).1 ≡ true)
      × ((get now (put now s key value ttl ts).0 key with_out size).1 ≡ none)
unfolding put get is_expired
put_ahead_lost now s key value ttl ts with_out size hk hv ahead ht pos near =
    let e : HeapEntry = record { value = value; timestamp = ts; ttl = ttl } in
    let room = make_room s key (purge now s s.entries) in
    (ground arith, ground (arith, lookup-assign_sorted key key e room, bytes_eq_refl key))

-- Of a record under a legal key that is out of date `exists` says true, and the `get` at the same
-- time fails.
pub exists_expired :
    (now : ℕ) (s : HeapStore) (key : Key) (e : HeapEntry) (with_out : Bool) (size : ℕ)
    → length key ≤ max_key_len
    → lookup key s.entries ≡ some e
    → is_expired now s e ≡ true
    → (exists s key ≡ true) × ((get now s key with_out size).1 ≡ none)
unfolding exists get
exists_expired now s key e with_out size hk found old = (ground arith, ground arith)

-- `put` of a vector accepts a key of 256 to 320 bytes with a legal value, and afterwards there is a
-- record under the first bytes of the key, as many as it has above 256.
pub put_vector_long_key :
    (now : ℕ) (s : HeapStore) (key : Key) (value : List ℕ) (ttl ts : ℕ)
    → 256 ≤ length key
    → length key ≤ 256 + max_key_len
    → length value ≤ max_value_len
    → ((put_vector now s key value ttl ts).1 ≡ true)
      × (exists (put_vector now s key value ttl ts).0 (take (length key - 256) key) ≡ true)
unfolding put_vector put exists
put_vector_long_key now s key value ttl ts lo hi hv =
    let n : length key % 2 ^ 8 ≡ length key - 256 = omega arith in
    let k = take (length key - 256) key in
    let v = take (length value % 2 ^ 16) value in
    let e : HeapEntry = record { value = v; timestamp = ts; ttl = ttl } in
    let room = make_room s k (purge now s s.entries) in
    rw n (
      ground (arith, length-take (length key - 256) key, length-take (length value % 2 ^ 16) value),
      ground (
        arith,
        length-take (length key - 256) key,
        length-take (length value % 2 ^ 16) value,
        lookup-assign_sorted k k e room,
        bytes_eq_refl k,
      ),
    )
