-- ===== src/FileStore/Recovery.antt =====
-- FileStore.h: what `init` does with what it finds on the disk.
pub mod Crash
use micro_store.Base.{
  ℕ, zero, suc, ◌+◌, ◌-◌, ◌%◌, ◌^◌, Bool, true, false, ◌&&◌, ◌||◌, not, Option, none, some, List,
  [], ◌∷◌, ◌++◌, length, take, get_or, ltb, ◌==◌, if◌then◌else◌,
}
use micro_store.FileStore.Layout.{Journal, decode_journal, journal_magic, journal_size}
use micro_store.FileStore.Files.{FilePath, FileSystem, read}
use micro_store.FileStore.Names.{segment_name, index_name, journal_name, tmp_name, max_name}
use micro_store.FileStore.State.{FileStore, Clock, flush_buffer, prune_index}
use micro_store.FileStore.IndexFile.{load_index, write_index_bulk, open_index_for_append}
use micro_store.FileStore.Scan.{scan_files}
use micro_store.FileStore.Compaction.{finalize_compaction, journal_commit, remove_segments}

module _ {D : Type 0} (fs : FileSystem D) where
  unfoldable pub open_segment : FileStore D → ℕ → FileStore D × Bool
  open_segment s id =
      let name = segment_name s.base_prefix id in
      let (d, opened) = fs.open_append s.disk name in
      if opened
      then (
        record s {
          disk = d;
          active_file = some name;
          current_segment = id;
          current_offset = (elim (fs.open_read d name) [ none ↦ 0 | some c ↦ length c ]) % 2 ^ 32;
        },
        true,
      )
      else (record s { disk = d; active_file = none }, false)

  -- The three cases of an interrupted compaction, with the final removal of the journal.
  unfoldable pub recover_from : FileStore D → Journal → FileStore D
  recover_from s j =
      let name = journal_name s.base_prefix in
      let tmp = tmp_name s.base_prefix in
      let finished = finalize_compaction fs s in
      let discarded = (fs.remove s.disk tmp).0 in
      let (renamed_disk, renamed) = fs.rename s.disk tmp (segment_name s.base_prefix 0) in
      if j.state == journal_commit
      then record finished { disk = (fs.remove finished.disk name).0 }
      else if j.next_seg == 0
      then record s { disk = (fs.remove discarded name).0 }
      else record s { disk = if renamed then (fs.remove renamed_disk name).0 else renamed_disk }

  unfoldable pub recover_opened : FileStore D → Option (List ℕ) → FileStore D
  recover_opened s none = s
  recover_opened s (some bytes) =
      let b = read journal_size bytes in
      let j = decode_journal b in
      if not (length b == journal_size) || not (j.magic == journal_magic)
      then record s { disk = (fs.remove s.disk (journal_name s.base_prefix)).0 }
      else recover_from s j

  unfoldable pub recover_if_needed : FileStore D → FileStore D
  unfolding recover_opened
  recover_if_needed s = recover_opened s (fs.open_read s.disk (journal_name s.base_prefix))

  unfoldable pub rebuild_index_from_segments : FileStore D → FileStore D
  rebuild_index_from_segments s =
      let cleared : FileStore D = record s {
        index = scan_files fs s.segment_count s.disk s.base_prefix 0 [];
        index_file = none;
        disk = (fs.remove s.disk (index_name s.base_prefix)).0;
      } in
      (write_index_bulk fs cleared).0

  unfoldable pub clear : FileStore D → FileStore D
  clear s =
      let f = (flush_buffer fs s).0 in
      let d = remove_segments fs s.segment_count f.disk s.base_prefix 0 in
      let emptied : FileStore D = record f {
        disk = (fs.remove d (index_name s.base_prefix)).0;
        index_file = none;
        active_file = none;
        index = [];
        dead_since_compact = 0;
        current_segment = 0;
        current_offset = 0;
        write_buf = [];
      } in
      let with_index : FileStore D = elim f.index_file [
        | none ↦ emptied
        | some _ ↦ open_index_for_append fs emptied
      ] in
      let with_active : FileStore D = elim f.active_file [
        | none ↦ with_index
        | some _ ↦ (open_segment with_index 0).0
      ] in
      if s.mounted then with_active else s

  -- The highest segment that opens, or 0.
  unfoldable pub resume_segment : ℕ → D → List ℕ → ℕ → ℕ → ℕ
  resume_segment zero d prefix i found = found
  resume_segment (suc n) d prefix i found =
      resume_segment n d prefix (i + 1)
        (elim (fs.open_read d (segment_name prefix i)) [ none ↦ found | some _ ↦ i ])

  -- The prefix without its final '/', where it ends in one.
  unfoldable pub make_folder : D → List ℕ → D
  make_folder d prefix =
      let n = length prefix in
      if ltb 0 n && get_or prefix (n - 1) 0 == b'/' then (fs.mkdir d (take (n - 1) prefix)).0 else d

  -- `init` from the point where the index is known: the limit, and the files to write to.
  unfoldable pub init_files : FileStore D → FileStore D
  init_files s =
      let (p, evicted) = prune_index s in
      let rewritten =
        (write_index_bulk fs
          (record p { disk = (fs.remove p.disk (index_name p.base_prefix)).0 })).0 in
      let opened = open_index_for_append fs (if ltb 0 evicted then rewritten else p) in
      (open_segment opened
        (resume_segment opened.segment_count opened.disk opened.base_prefix 0 0)).0

  -- `init` mounts the file system whose disk the state holds.
  unfoldable pub init : FileStore D → List ℕ → Bool → ℕ → ℕ → FileStore D × Bool
  init s prefix clear_on_init segment_size segment_count =
      let name = take max_name prefix in
      let mounted : FileStore D = record s {
        mounted = true;
        base_prefix = name;
        segment_size = if ltb 0 segment_size then segment_size else s.segment_size;
        segment_count = if ltb 0 segment_count then segment_count else s.segment_count;
        disk = make_folder s.disk name;
      } in
      let recovered = recover_if_needed (if clear_on_init then clear mounted else mounted) in
      let (loaded, ok) = load_index fs recovered in
      (init_files (if ok then loaded else rebuild_index_from_segments loaded), true)

  unfoldable pub close : FileStore D → FileStore D
  close s = record (flush_buffer fs s).0 { index_file = none; active_file = none }
