-- ===== src/HeapStore.antt =====
-- include/microStore/HeapStore.h: `BasicHeapStore`, a store in a `std::map` in memory.
-- A method takes the clock's reading `now` (`microStore::time()`, taken once in a call).
pub mod Order
pub mod Bounds
pub mod View
pub mod Expiry
pub mod Iteration
use micro_store.Base.{
  ℕ, ◌+◌, ◌%◌, ◌^◌, min, Bool, true, false, ◌&&◌, Option, none, some, List, [], ◌∷◌, ◌++◌, ltb, leb,
  ◌==◌, if◌then◌else◌, length, take, replicate, sub32, bytes_eq,
}
use micro_store.Assoc.{Key, lookup, erase}

-- USTORE_MAX_VALUE_LEN, USTORE_MAX_KEY_LEN
abbrev pub max_value_len : ℕ
max_value_len = 1024

abbrev pub max_key_len : ℕ
max_key_len = 64

pub record HeapEntry : Type 0 where
  pub value : List ℕ
  pub timestamp : ℕ
  pub ttl : ℕ

-- The fields `data_`, `policy_ttl_secs` and `policy_max_recs`.
pub record HeapStore : Type 0 where
  pub entries : List (Key × HeapEntry)
  pub policy_ttl_secs : ℕ
  pub policy_max_recs : ℕ

-- `std::less` of two byte vectors.
unfoldable pub bytes_lt : Key → Key → Bool
bytes_lt [] [] = false
bytes_lt [] (y ∷ ys) = true
bytes_lt (x ∷ xs) [] = false
bytes_lt (x ∷ xs) (y ∷ ys) =
    let rest = bytes_lt xs ys in if ltb x y then true else if ltb y x then false else rest

-- `data_[k] = e` in a `std::map`: the list stays in the order of the keys.
unfoldable pub assign_sorted : Key → HeapEntry → List (Key × HeapEntry) → List (Key × HeapEntry)
assign_sorted k e [] = (k, e) ∷ []
assign_sorted k e ((j, f) ∷ l) =
    let rest = assign_sorted k e l in
    if bytes_eq j k then (k, e) ∷ l else if bytes_lt k j then (k, e) ∷ (j, f) ∷ l else (j, f) ∷ rest

-- The constructor.
abbrev pub create : HeapStore
create = record { entries = []; policy_ttl_secs = 0; policy_max_recs = 0 }

unfoldable pub clear : HeapStore → HeapStore
clear s = record s { entries = [] }

unfoldable pub init : HeapStore → Bool → HeapStore × Bool
unfolding clear
init s clear_on_init = (if clear_on_init then clear s else s, true)

unfoldable pub effective_ttl : HeapStore → HeapEntry → ℕ
effective_ttl s e = if ltb 0 e.ttl then e.ttl else s.policy_ttl_secs

-- The test of `put` and `get`; the difference of the two times wraps.
unfoldable pub is_expired : ℕ → HeapStore → HeapEntry → Bool
unfolding effective_ttl sub32
is_expired now s e = ltb 0 (effective_ttl s e) && leb (effective_ttl s e) (sub32 now e.timestamp)

-- The first loop of `put`.
unfoldable pub purge : ℕ → HeapStore → List (Key × HeapEntry) → List (Key × HeapEntry)
purge now s [] = []
purge now s ((k, e) ∷ l) =
    let rest = purge now s l in if is_expired now s e then rest else (k, e) ∷ rest

-- `while (data_.size() >= policy_max_recs) data_.erase(data_.begin())`
unfoldable pub evict : ℕ → List (Key × HeapEntry) → List (Key × HeapEntry)
evict max_recs [] = []
evict max_recs (x ∷ l) =
    let rest = evict max_recs l in if leb max_recs (length (x ∷ l)) then rest else x ∷ l

-- The second step of `put`: make room for a key that is not there.
unfoldable pub make_room : HeapStore → Key → List (Key × HeapEntry) → List (Key × HeapEntry)
make_room s k l =
    if ltb 0 s.policy_max_recs
    then (elim (lookup k l) [ none ↦ evict s.policy_max_recs l | some _ ↦ l ])
    else l

unfoldable pub put : ℕ → HeapStore → Key → List ℕ → ℕ → ℕ → HeapStore × Bool
put now s key value ttl ts =
    if ltb max_key_len (length key)
    then (s, false)
    else if ltb max_value_len (length value)
    then (s, false)
    else (
      record s {
        entries =
            assign_sorted key (record { value = value; timestamp = ts; ttl = ttl })
              (make_room s key (purge now s s.entries));
      },
      true,
    )

-- `put` of two vectors: the sizes are cast to `uint8_t` and `uint16_t`.
unfoldable pub put_vector : ℕ → HeapStore → Key → List ℕ → ℕ → ℕ → HeapStore × Bool
unfolding put
put_vector now s key value ttl ts =
    put now s (take (length key % 2 ^ 8) key) (take (length value % 2 ^ 16) value) ttl ts

-- What `get` leaves to its caller: the bytes copied to `out` and the value's size.
pub record Fetched : Type 0 where
  pub copied : List ℕ
  pub size : ℕ

unfoldable pub fetch : Bool → ℕ → List ℕ → Fetched
fetch with_out size v = record {
  copied = if with_out then take (min size (length v) % 2 ^ 16) v else [];
  size = length v % 2 ^ 16;
}

get_found : ℕ → HeapStore → Key → Bool → ℕ → Option HeapEntry → HeapStore × Option Fetched
get_found now s key with_out size none = (s, none)
get_found now s key with_out size (some e) =
    if is_expired now s e
    then (record s { entries = erase key s.entries }, none)
    else (s, some (fetch with_out size e.value))

-- `none` stands for the result false.
unfoldable pub get : ℕ → HeapStore → Key → Bool → ℕ → HeapStore × Option Fetched
unfolding get_found fetch
get now s key with_out size =
    if ltb max_key_len (length key)
    then (s, none)
    else get_found now s key with_out size (lookup key s.entries)

-- `get` of a vector into a vector: a buffer of the largest value, cut to the size read.
unfoldable pub resized : Option Fetched → Option (List ℕ)
resized none = none
resized (some f) = some (take f.size (f.copied ++ replicate (max_value_len) 0))

unfoldable pub get_vector : ℕ → HeapStore → Key → HeapStore × Option (List ℕ)
unfolding get resized
get_vector now s key =
    let (s', f) = get now s (take (length key % 2 ^ 8) key) true max_value_len in (s', resized f)

unfoldable pub remove : HeapStore → Key → HeapStore × Bool
remove s key =
    if ltb max_key_len (length key)
    then (s, false)
    else (record s { entries = erase key s.entries }, true)

unfoldable pub exists : HeapStore → Key → Bool
exists s key =
    if ltb max_key_len (length key)
    then false
    else elim (lookup key s.entries) [ none ↦ false | some _ ↦ true ]

unfoldable pub size : HeapStore → ℕ
size s = length s.entries

unfoldable pub set_ttl_secs : HeapStore → ℕ → HeapStore
set_ttl_secs s ttl_s = record s { policy_ttl_secs = ttl_s }

unfoldable pub set_max_recs : HeapStore → ℕ → HeapStore
set_max_recs s max_recs = record s { policy_max_recs = max_recs }
