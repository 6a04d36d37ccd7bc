-- ===== src/FileStore/Compaction.antt =====
-- FileStore.h: `compact`, which copies the live records to compact.tmp a segment at a time, and
-- `finalize_compaction`, which puts that file in the place of the segments.
use micro_store.Base.{
  ℕ, zero, suc, ◌+◌, ◌%◌, ◌^◌, Bool, true, false, ◌&&◌, not, Option, none, some, List, [], ◌∷◌,
  length, drop, ltb, leb, ◌==◌, if◌then◌else◌,
}
use micro_store.FileStore.Layout.{
  decode_header, encode_journal, le32, magic_record, magic_commit, journal_magic, max_key_len,
  max_value_len, header_size, commit_size,
}
use micro_store.FileStore.Files.{FilePath, FileSystem, read_exact, write_chunks}
use micro_store.FileStore.Names.{segment_name, index_name, journal_name, tmp_name}
use micro_store.FileStore.Index.{IndexMap, of_uint24}
use micro_store.FileStore.Eviction.{is_ttl_expired}
use micro_store.FileStore.State.{FileStore, Clock, prune_index}
use micro_store.FileStore.IndexFile.{◌>>=◌, guard, write_index_bulk, open_index_for_append}
use micro_store.FileStore.Scan.{scan_file}

-- `JournalState`
abbrev pub journal_none : ℕ
journal_none = 0

abbrev pub journal_compacting : ℕ
journal_compacting = 1

abbrev pub journal_commit : ℕ
journal_commit = 2

-- The offsets of the records in a segment that the index holds and that are not out of date.
unfoldable pub live_offsets : ℕ → ℕ → ℕ → IndexMap → List ℕ
live_offsets policy_ttl_secs now seg [] = []
live_offsets policy_ttl_secs now seg ((key, v) ∷ index) =
    let rest = live_offsets policy_ttl_secs now seg index in
    if v.segment == seg && not (is_ttl_expired policy_ttl_secs now v.timestamp (of_uint24 v.ttl))
    then of_uint24 v.offset ∷ rest
    else rest

unfoldable pub insert_sorted : ℕ → List ℕ → List ℕ
insert_sorted n [] = n ∷ []
insert_sorted n (m ∷ ms) = let rest = insert_sorted n ms in if leb n m then n ∷ m ∷ ms else m ∷ rest

-- `std::sort`
unfoldable pub sort : List ℕ → List ℕ
sort [] = []
sort (n ∷ ns) = insert_sorted n (sort ns)

-- One record read from a source segment: the writes to make, and the bytes they should come to.
-- `none` is a `continue`.
unfoldable pub read_record : List ℕ → ℕ → Option (List (List ℕ) × ℕ)
read_record bytes off = do
  (h, b1) ← read_exact header_size (drop off bytes)
  let hdr = decode_header h
  _ ← guard (
      hdr.magic == magic_record && (leb hdr.key_len max_key_len && leb hdr.value_len max_value_len))
  (key, b2) ← read_exact hdr.key_len b1
  (value, _) ← read_exact hdr.value_len b2
  some (
    h
        ∷ key
        ∷ (if ltb 0 hdr.value_len then value ∷ le32 magic_commit ∷ [] else le32 magic_commit ∷ []),
    header_size + hdr.key_len + hdr.value_len + commit_size,
  )

-- The disk, the bytes written to compact.tmp so far, and whether every write was whole.
pub record Copied (D : Type 0) : Type 0 where
  pub disk : D
  pub tmp_size : ℕ
  pub write_ok : Bool

module _ {D : Type 0} (fs : FileSystem D) where
  unfoldable pub copy_offsets : D → FilePath → ℕ → List ℕ → List ℕ → Copied D
  copy_offsets d tmp size bytes [] = record { disk = d; tmp_size = size; write_ok = true }
  copy_offsets d tmp size bytes (off ∷ offs) = elim (read_record bytes off) [
    | none ↦ copy_offsets d tmp size bytes offs
    | some (chunks, expected) ↦
        let (d', written) = write_chunks fs d tmp chunks in
        let stop : Copied D = record { disk = d'; tmp_size = size + written; write_ok = false } in
        let go = copy_offsets d' tmp (size + written) bytes offs in
        if written == expected then go else stop
  ]

  copy_from : D → FilePath → ℕ → List ℕ → Option (List ℕ) → Copied D
  copy_from d tmp size offs none = record { disk = d; tmp_size = size; write_ok = true }
  copy_from d tmp size offs (some bytes) = copy_offsets d tmp size bytes offs

  -- The records of one segment; a source that does not open is passed over.
  unfoldable pub copy_segment : FileStore D → ℕ → ℕ → ℕ → Copied D
  unfolding copy_from
  copy_segment s now size seg =
      let offs = sort (live_offsets s.policy_ttl_secs now seg s.index) in
      if length offs == 0
      then record { disk = s.disk; tmp_size = size; write_ok = true }
      else copy_from s.disk (tmp_name s.base_prefix) size offs
          (fs.open_read s.disk (segment_name s.base_prefix seg))

  unfoldable pub write_journal : FileStore D → ℕ → ℕ → ℕ → FileStore D
  write_journal s state next_seg tmp_valid_size =
      let name = journal_name s.base_prefix in
      let (d, opened) = fs.open_write s.disk name in
      let bytes = encode_journal (record {
        magic = journal_magic;
        state = state;
        next_seg = next_seg;
        tmp_valid_size = tmp_valid_size;
      }) in
      record s { disk = if opened then (fs.write d name bytes).0 else d }

  unfoldable pub clear_journal : FileStore D → FileStore D
  clear_journal s = record s { disk = (fs.remove s.disk (journal_name s.base_prefix)).0 }

  -- Once a segment's records are in compact.tmp: the journal, and only then the removal.
  unfoldable pub commit_segment : FileStore D → ℕ → ℕ → FileStore D
  commit_segment s size seg =
      let j = write_journal s journal_compacting (seg + 1) (size % 2 ^ 32) in
      record j { disk = (fs.remove j.disk (segment_name s.base_prefix seg)).0 }

  -- The outcome of the loop over the segments, with `committed_segs`.
  unfoldable pub compact_loop : ℕ → FileStore D → ℕ → ℕ → ℕ → FileStore D × Bool × ℕ
  compact_loop zero s now size seg = (s, true, seg)
  compact_loop (suc n) s now size seg =
      let c = copy_segment s now size seg in
      let s' : FileStore D = record s { disk = c.disk } in
      let rest = compact_loop n (commit_segment s' c.tmp_size seg) now c.tmp_size (seg + 1) in
      if c.write_ok then rest else (s', false, seg)

  unfoldable pub remove_segments : ℕ → D → List ℕ → ℕ → D
  remove_segments zero d prefix i = d
  remove_segments (suc n) d prefix i =
      remove_segments n (fs.remove d (segment_name prefix i)).0 prefix (i + 1)

  -- The part of `finalize_compaction` after the rename: the index from segment 0, in memory and
  -- in its file.
  unfoldable pub reindex : FileStore D → FileStore D
  reindex s =
      let index = scan_file fs false s.disk s.base_prefix 0 [] in
      let cleared : FileStore D = record s {
        index = index;
        index_file = none;
        disk = (fs.remove s.disk (index_name s.base_prefix)).0;
      } in
      let reopened = open_index_for_append fs (write_index_bulk fs cleared).0 in
      record reopened { current_segment = 0 }

  unfoldable pub finalize_compaction : FileStore D → FileStore D
  finalize_compaction s =
      let tmp = tmp_name s.base_prefix in
      let (d, renamed) =
        fs.rename (remove_segments s.segment_count s.disk s.base_prefix 0) tmp
          (segment_name s.base_prefix 0) in
      if renamed then reindex (record s { disk = d }) else record s { disk = (fs.remove d tmp).0 }

  -- The end of `compact`, on the outcome of the loop.
  unfoldable pub compact_end : FileStore D → Bool → ℕ → FileStore D × Bool
  compact_end s true committed =
      let done = clear_journal (finalize_compaction (write_journal s journal_commit 0 0)) in
      (record done { dead_since_compact = 0 }, true)
  compact_end s false zero =
      (clear_journal (record s { disk = (fs.remove s.disk (tmp_name s.base_prefix)).0 }), false)
  compact_end s false (suc committed) = (s, false)

  unfoldable pub compact : FileStore D → Clock → FileStore D × Bool
  compact s clock =
      let j = write_journal s journal_compacting 0 0 in
      let (d, opened) = fs.open_write j.disk (tmp_name s.base_prefix) in
      let pruned = (prune_index (record j { disk = d })).0 in
      let (s', ok, committed) = compact_loop s.segment_count pruned clock.now 0 0 in
      if opened then compact_end s' ok committed else (clear_journal (record j { disk = d }), false)
