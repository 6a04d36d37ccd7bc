-- ===== src/FileStore/Scan.antt =====
-- FileStore.h: the walks over the records of a segment file.
pub mod Log
use Prim.Native.Nat.{bit_and}
use micro_store.Base.{
  ℕ, zero, suc, ◌+◌, ◌%◌, ◌^◌, Bool, true, false, ◌&&◌, not, Option, none, some, List, [], ◌∷◌,
  ◌++◌, length, drop, ltb, leb, ◌==◌, if◌then◌else◌,
}
use micro_store.Assoc.{Key}
use micro_store.FileStore.Layout.{
  RecordHeader, decode_header, encode_header, at32, le32, magic_record, magic_commit, flag_delete,
  max_key_len, max_value_len, header_size, commit_size,
}
use micro_store.FileStore.Files.{FileSystem, read_exact}
use micro_store.FileStore.Names.{segment_name}
use micro_store.FileStore.Index.{IndexMap, index_insert, index_remove}
use micro_store.FileStore.IndexFile.{◌>>=◌, guard}

-- A record that a walk has read: its header, its key and where the next one starts.
pub record Scanned : Type 0 where
  pub hdr : RecordHeader
  pub key : Key
  pub next : ℕ

-- The tests on a header in the walks that build an index.
unfoldable pub header_ok : RecordHeader → Bool
header_ok h =
    h.magic == magic_record
    && (not (h.key_len == 0) && (leb h.key_len max_key_len && leb h.value_len max_value_len))

-- One round at the offset: `none` is a `break`.
unfoldable pub scan_record : List ℕ → ℕ → Option Scanned
scan_record bytes off = do
  (h, rest) ← read_exact header_size (drop off bytes)
  let hdr = decode_header h
  _ ← guard (header_ok hdr)
  (key, _) ← read_exact hdr.key_len rest
  (c, _) ← read_exact commit_size (drop (off + header_size + hdr.key_len + hdr.value_len) bytes)
  _ ← guard (at32 c 0 == magic_commit)
  some (record {
    hdr = hdr;
    key = key;
    next = (off + header_size + hdr.key_len + hdr.value_len + commit_size) % 2 ^ 32;
  })

unfoldable pub is_delete : RecordHeader → Bool
is_delete h = not (bit_and h.flags flag_delete == 0)

-- What a record does to the index: `finalize_compaction` passes over a tombstone, and
-- `rebuild_index_from_segments` removes its key (`removes`).
unfoldable pub apply_record : Bool → ℕ → ℕ → Scanned → IndexMap → IndexMap
apply_record removes seg off r index =
    if is_delete r.hdr
    then (if removes then index_remove r.key index else index)
    else index_insert r.key seg off r.hdr.timestamp r.hdr.ttl r.hdr.priority index

-- The walk: a round takes at least 25 bytes.
unfoldable pub scan_segment : ℕ → Bool → ℕ → List ℕ → ℕ → IndexMap → IndexMap
scan_segment zero removes seg bytes off index = index
scan_segment (suc f) removes seg bytes off index = elim (scan_record bytes off) [
  | none ↦ index
  | some r ↦ scan_segment f removes seg bytes r.next (apply_record removes seg off r index)
]

unfoldable pub scan_opened : Bool → ℕ → Option (List ℕ) → IndexMap → IndexMap
scan_opened removes seg none index = index
scan_opened removes seg (some bytes) index = scan_segment (length bytes) removes seg bytes 0 index

module _ {D : Type 0} (fs : FileSystem D) where
  -- The walk over a segment, which passes over a file that does not open.
  unfoldable pub scan_file : Bool → D → List ℕ → ℕ → IndexMap → IndexMap
  unfolding scan_opened
  scan_file removes d prefix seg index =
      scan_opened removes seg (fs.open_read d (segment_name prefix seg)) index

  -- `for (seg = ...)`, `n` rounds from `seg` on.
  unfoldable pub scan_files : ℕ → D → List ℕ → ℕ → IndexMap → IndexMap
  scan_files zero d prefix seg index = index
  scan_files (suc n) d prefix seg index =
      scan_files n d prefix (seg + 1) (scan_file true d prefix seg index)
