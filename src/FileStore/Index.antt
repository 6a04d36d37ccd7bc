-- ===== src/FileStore/Index.antt =====
-- FileStore.h: the index in memory, an entry for each key with packed fields.
use micro_store.Base.{ℕ, ◌%◌, ◌^◌, ◌+◌, ◌*◌, ◌/◌, Option, List}
use micro_store.Assoc.{Key, lookup, erase, assign}

-- `UInt24`: three bytes, and the number that they make.
pub record UInt24 : Type 0 where
  pub b0 : ℕ
  pub b1 : ℕ
  pub b2 : ℕ

unfoldable pub to_uint24 : ℕ → UInt24
to_uint24 v = record { b0 = v % 256; b1 = v / 256 % 256; b2 = v / 65536 % 256 }

unfoldable pub of_uint24 : UInt24 → ℕ
of_uint24 u = u.b0 + 256 * u.b1 + 65536 * u.b2

pub record IndexValue : Type 0 where
  pub segment : ℕ
  pub offset : UInt24
  pub timestamp : ℕ
  pub ttl : UInt24
  pub priority : ℕ

abbrev pub IndexMap : Type 0
IndexMap = List (Key × IndexValue)

unfoldable pub index_find : Key → IndexMap → Option IndexValue
index_find key index = lookup key index

-- The entry that `index_insert` writes: the segment is cast to a byte, the offset and the time to
-- live to three.
unfoldable pub index_value : ℕ → ℕ → ℕ → ℕ → ℕ → IndexValue
index_value seg off ts ttl priority = record {
  segment = seg % 2 ^ 8;
  offset = to_uint24 off;
  timestamp = ts;
  ttl = to_uint24 ttl;
  priority = priority;
}

unfoldable pub index_insert : Key → ℕ → ℕ → ℕ → ℕ → ℕ → IndexMap → IndexMap
index_insert key seg off ts ttl priority index =
    assign key (index_value seg off ts ttl priority) index

unfoldable pub index_remove : Key → IndexMap → IndexMap
index_remove key index = erase key index
