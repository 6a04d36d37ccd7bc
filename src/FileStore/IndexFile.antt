-- ===== src/FileStore/IndexFile.antt =====
-- FileStore.h: the copy of the index in a file, an append for each change.
pub mod Entries
pub mod Torn
pub mod Writes
use micro_store.Base.{
  ℕ, zero, suc, Bool, true, false, Option, none, some, List, [], ◌∷◌, ◌++◌, length, ltb, ◌==◌,
  if◌then◌else◌, get_or,
}
use mathlib.Core.List.{flat_map}
use micro_store.Assoc.{Key}
use micro_store.FileStore.Layout.{le32, at32, max_key_len}
use micro_store.FileStore.Files.{FilePath, FileSystem, read_exact, write_chunks}
use micro_store.FileStore.Names.{index_name}
use micro_store.FileStore.Index.{IndexValue, IndexMap, of_uint24, index_insert, index_remove}
use micro_store.FileStore.State.{FileStore}

-- One entry of the file.
pub record IndexEntry : Type 0 where
  pub key : Key
  pub seg : ℕ
  pub off : ℕ
  pub ts : ℕ
  pub ttl : ℕ
  pub priority : ℕ

-- The writes that make an entry, in turn.
unfoldable pub entry_chunks : IndexEntry → List (List ℕ)
entry_chunks e =
    (length e.key ∷ [])
    ∷ e.key
    ∷ le32 e.seg
    ∷ le32 e.off
    ∷ le32 e.ts
    ∷ le32 e.ttl
    ∷ (e.priority ∷ [])
    ∷ []

infixl 5 ◌>>=◌
abbrev pub ◌>>=◌ {ℓ κ} : {A : Type ℓ} {B : Type κ} → Option A → (A → Option B) → Option B
none >>= f = none
some a >>= f = f a

-- Whether a test of the reading loop lets it go on.
abbrev pub guard : Bool → Option (Unit {0})
guard true = some tt
guard false = none

-- One round of `load_index`: `none` is a `break`.
unfoldable pub load_entry : List ℕ → Option (IndexEntry × List ℕ)
load_entry bytes = do
  (len, b1) ← read_exact 1 bytes
  _ ← guard (if ltb max_key_len (get_or len 0 0) then false else true)
  (key, b2) ← read_exact (get_or len 0 0) b1
  (seg, b3) ← read_exact 4 b2
  (off, b4) ← read_exact 4 b3
  (ts, b5) ← read_exact 4 b4
  (ttl, b6) ← read_exact 4 b5
  (priority, b7) ← read_exact 1 b6
  some (
    record {
      key = key;
      seg = at32 seg 0;
      off = at32 off 0;
      ts = at32 ts 0;
      ttl = at32 ttl 0;
      priority = get_or priority 0 0;
    },
    b7,
  )

-- A segment of 0xFFFFFFFF marks a deletion.
unfoldable pub apply_entry : IndexEntry → IndexMap → IndexMap
apply_entry e index =
    if e.seg == 0xffff_ffff
    then index_remove e.key index
    else index_insert e.key e.seg e.off e.ts e.ttl e.priority index

-- A round takes at least one byte.
unfoldable pub load_entries : ℕ → List ℕ → IndexMap → IndexMap
load_entries zero bytes index = index
load_entries (suc f) bytes index = elim (load_entry bytes) [
  | none ↦ index
  | some (e, rest) ↦ load_entries f rest (apply_entry e index)
]

-- The entry that `write_index_bulk` writes for an element of the map.
unfoldable pub bulk_entry : Key × IndexValue → IndexEntry
bulk_entry (key, v) = record {
  key = key;
  seg = v.segment;
  off = of_uint24 v.offset;
  ts = v.timestamp;
  ttl = of_uint24 v.ttl;
  priority = v.priority;
}

unfoldable pub bulk_chunks : IndexMap → List (List ℕ)
bulk_chunks [] = []
bulk_chunks (e ∷ index) = entry_chunks (bulk_entry e) ++ bulk_chunks index

module _ {D : Type 0} (fs : FileSystem D) where
  persist_to : FileStore D → Option FilePath → IndexEntry → FileStore D × Bool
  persist_to s none e = (s, false)
  persist_to s (some file) e =
      (record s { disk = (write_chunks fs s.disk file (entry_chunks e)).0 }, true)

  unfoldable pub persist_index_entry : FileStore D → IndexEntry → FileStore D × Bool
  unfolding persist_to
  persist_index_entry s e = persist_to s s.index_file e

  unfoldable pub write_index_bulk : FileStore D → FileStore D × Bool
  write_index_bulk s =
      let name = index_name s.base_prefix in
      let (d, opened) = fs.open_append s.disk name in
      if opened
      then (record s { disk = (write_chunks fs d name (bulk_chunks s.index)).0 }, true)
      else (record s { disk = d }, false)

  unfoldable pub load_from : FileStore D → Option (List ℕ) → FileStore D × Bool
  load_from s none = (s, false)
  load_from s (some bytes) = (record s { index = load_entries (length bytes) bytes s.index }, true)

  unfoldable pub load_index : FileStore D → FileStore D × Bool
  unfolding load_from
  load_index s = load_from s (fs.open_read s.disk (index_name s.base_prefix))

  unfoldable pub open_index_for_append : FileStore D → FileStore D
  open_index_for_append s =
      let name = index_name s.base_prefix in
      let (d, opened) = fs.open_append s.disk name in
      record s { disk = d; index_file = if opened then some name else none }
