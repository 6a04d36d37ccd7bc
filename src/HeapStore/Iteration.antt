-- ===== src/HeapStore/Iteration.antt =====
-- HeapStore.h: the iterator over a store's records, and the figures that `dumpInfo` prints.
use micro_store.Base.{ℕ, ◌+◌, List, [], ◌∷◌, length}
use micro_store.Assoc.{Key}
use micro_store.HeapStore.{HeapEntry, HeapStore}

-- `Entry`
pub record Entry : Type 0 where
  pub key : Key
  pub value : List ℕ
  pub timestamp : ℕ
  pub ttl : ℕ

-- `load` at a position of the map.
unfoldable pub load : Key → HeapEntry → Entry
load key e = record { key = key; value = e.value; timestamp = e.timestamp; ttl = e.ttl }

unfoldable pub load_all : List (Key × HeapEntry) → List Entry
load_all [] = []
load_all ((k, e) ∷ l) = load k e ∷ load_all l

-- `begin` to `end`: a record that has expired is among them until something erases it.
unfoldable pub iterate : HeapStore → List Entry
iterate s = load_all s.entries

unfoldable pub total_bytes : List (Key × HeapEntry) → ℕ
total_bytes [] = 0
total_bytes ((k, e) ∷ l) = length k + length e.value + total_bytes l

-- `dumpInfo`: the number of records and their bytes.
unfoldable pub dump_info : HeapStore → ℕ × ℕ
dump_info s = (length s.entries, total_bytes s.entries)
