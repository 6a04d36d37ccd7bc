-- ===== src/FileStore/View/New.antt =====
-- FileStore.h: `init` on a disk that has no files of the store.
use micro_store.Base.{
  ℕ, zero, suc, ◌+◌, ◌-◌, ◌≤◌, ◌%◌, ◌^◌, ◌≡◌, ◌≢◌, refl, ap, sym, ◌∙◌, true, false, none, some,
  List, [], arith, length, ◌==◌, ltb, get_or, take, take_of_length-le, if◌then◌else◌,
}
use mathlib.Core.Option.{some-injective}
use micro_store.Assoc.{lookup}
use micro_store.FileStore.Files.{FilePath, FileSystem, write_chunks}
use micro_store.FileStore.Files.Lawful.{IsLawful, or_empty}
use micro_store.FileStore.Names.{segment_name, index_name, journal_name, max_name}
use micro_store.FileStore.Names.Distinct.{names_apart}
use micro_store.FileStore.Index.{IndexMap}
use micro_store.FileStore.IndexFile.{load_index, load_from, write_index_bulk, bulk_chunks}
use micro_store.FileStore.IndexFile.Entries.{entries_bytes, apply_entries}
use micro_store.FileStore.Scan.{scan_file, scan_files, scan_opened}
use micro_store.FileStore.State.{FileStore}
use micro_store.FileStore.Recovery.{init, rebuild_index_from_segments, resume_segment}
use micro_store.FileStore.View.{Contents, Models}
use micro_store.FileStore.View.Append.{IsOpen, Represents}
use micro_store.FileStore.View.Rotate.{opened_at, opened_at-IsOpen}
use micro_store.FileStore.View.Saved.{Saved}
use micro_store.FileStore.View.Steps.{
  count_of, make_folder-none, recover_if_needed-none, resume_segment-lt, init_files-opened_at,
}

-- Nothing is stored.
abbrev pub no_items : Contents
no_items key = none

-- A new store, and a disk without a file of its own under the prefix.
pub record IsNew {D : Type 0} (fs : FileSystem D) (z : FileStore D) (prefix : List ℕ)
    (segment_count : ℕ) : Type 0 where
  pub empty : z.index ≡ []
  pub idle : z.write_buf ≡ []
  pub no_limit : z.policy_max_recs ≡ 0
  pub few : count_of z segment_count ≤ 2 ^ 8
  pub short : length prefix ≤ 61
  pub no_folder : (get_or prefix (length prefix - 1) 0 == b'/') ≡ false
  pub no_segment : (seg : ℕ) → fs.open_read z.disk (segment_name prefix seg) ≡ none
  pub no_index : fs.open_read z.disk (index_name prefix) ≡ none
  pub no_journal : fs.open_read z.disk (journal_name prefix) ≡ none

module _ {D : Type 0} (fs : FileSystem D) where
  -- The files after the first start: an empty segment 0 to write to, an empty index file to append
  -- to, and no other segment.
  pub record Begun (s : FileStore D) (prefix : List ℕ) : Type 0 where
    pub segment : s.current_segment ≡ 0
    pub offset : s.current_offset ≡ 0
    pub active : s.active_file ≡ some (segment_name prefix 0)
    pub index_file : s.index_file ≡ some (index_name prefix)
    pub first : fs.open_read s.disk (segment_name prefix 0) ≡ some []
    pub others :
        (seg : ℕ)
        → segment_name prefix 0 ≢ segment_name prefix seg
        → fs.open_read s.disk (segment_name prefix seg) ≡ none
    pub index_on_disk : fs.open_read s.disk (index_name prefix) ≡ some []

  scan_files-none :
      (n : ℕ) (d : D) (prefix : List ℕ) (i : ℕ) (index : IndexMap)
      → ((seg : ℕ) → fs.open_read d (segment_name prefix seg) ≡ none)
      → scan_files fs n d prefix i index ≡ index
  unfolding scan_files scan_file scan_opened
  scan_files-none zero d prefix i index h = refl
  scan_files-none (suc n) d prefix i index h = rw (h i) (scan_files-none n d prefix (i + 1) index h)

  resume_segment-none :
      (n : ℕ) (d : D) (prefix : List ℕ) (i found : ℕ)
      → ((seg : ℕ) → fs.open_read d (segment_name prefix seg) ≡ none)
      → resume_segment fs n d prefix i found ≡ found
  unfolding resume_segment
  resume_segment-none zero d prefix i found h = refl
  resume_segment-none (suc n) d prefix i found h =
      rw (h i) (resume_segment-none n d prefix (i + 1) found h)

  load_index-none :
      (z : FileStore D)
      → fs.open_read z.disk (index_name z.base_prefix) ≡ none
      → load_index fs z ≡ (z, false)
  unfolding load_index load_from
  load_index-none z h = rw h refl

  module _ (law : IsLawful fs) where
    -- The disk with an empty index file.
    abbrev with_index : D → List ℕ → D
    with_index d prefix = (fs.open_append (fs.remove d (index_name prefix)).0 (index_name prefix)).0

    rebuild-none :
        (z : FileStore D)
        → ((seg : ℕ) → fs.open_read z.disk (segment_name z.base_prefix seg) ≡ none)
        → rebuild_index_from_segments fs z
          ≡ record z { index = []; index_file = none; disk = with_index z.disk z.base_prefix }
    unfolding rebuild_index_from_segments write_index_bulk bulk_chunks write_chunks
    rebuild-none z h =
        rw
          (
            rebuild_index_from_segments,
            write_index_bulk,
            scan_files-none z.segment_count z.disk z.base_prefix 0 [] h,
            law.open_append_ok (fs.remove z.disk (index_name z.base_prefix)).0
                (index_name z.base_prefix),
          )
          refl

    module _ (z : FileStore D) (prefix : List ℕ) (segment_size segment_count : ℕ)
        (new : IsNew fs z prefix segment_count) where
      -- The store before `init` opens the segment to write to.
      abbrev indexed_new : FileStore D
      indexed_new = record z {
        mounted = true;
        base_prefix = prefix;
        segment_size = if ltb 0 segment_size then segment_size else z.segment_size;
        segment_count = count_of z segment_count;
        disk = (fs.open_append (with_index z.disk prefix) (index_name prefix)).0;
        index = [];
        dead_since_compact = (z.dead_since_compact + 0) % 2 ^ 32;
        index_file = some (index_name prefix);
      }

      abbrev resumed_new : ℕ
      resumed_new = resume_segment fs indexed_new.segment_count indexed_new.disk prefix 0 0

      init-indexed_new :
          init fs z prefix false segment_size segment_count
          ≡ (opened_at fs law indexed_new resumed_new, true)
      unfolding init
      init-indexed_new =
          let name : take max_name prefix ≡ prefix =
            take_of_length-le max_name prefix (omega (arith, new.short)) in
          let m : FileStore D = record z {
            mounted = true;
            base_prefix = prefix;
            segment_size = if ltb 0 segment_size then segment_size else z.segment_size;
            segment_count = count_of z segment_count;
          } in
          let folder = make_folder-none fs z.disk prefix new.no_folder in
          let recovered = recover_if_needed-none fs m new.no_journal in
          let loaded = load_index-none m new.no_index in
          let rebuilt = rebuild-none m new.no_segment in
          rw (name, folder, recovered, loaded, rebuilt)
            (ap (λ x. (x, true))
              (init_files-opened_at fs law
                (record m { index = []; index_file = none; disk = with_index z.disk prefix })
                new.no_limit))

      -- No other file than the index file is there yet.
      only_index :
          (q : FilePath)
          → index_name prefix ≢ q
          → fs.open_read indexed_new.disk q ≡ fs.open_read z.disk q
      only_index q ne =
          law.open_append_other (with_index z.disk prefix) _ q ne
          ∙ (law.open_append_other (fs.remove z.disk (index_name prefix)).0 _ q ne
              ∙ law.remove_other z.disk _ q ne)

      index_is_empty : fs.open_read indexed_new.disk (index_name prefix) ≡ some []
      index_is_empty =
          law.open_append_self (with_index z.disk prefix) _
          ∙ ap (λ c. some (or_empty c))
              (law.open_append_self (fs.remove z.disk (index_name prefix)).0 _
                ∙ ap (λ c. some (or_empty c)) (law.remove_self z.disk _))

      segment_is_empty : (seg : ℕ) → fs.open_read indexed_new.disk (segment_name prefix seg) ≡ none
      segment_is_empty seg =
          only_index (segment_name prefix seg) (λ e. (names_apart prefix seg new.short).0 (sym e))
          ∙ new.no_segment seg

      resumes_at_zero : resumed_new ≡ 0
      resumes_at_zero =
          resume_segment-none indexed_new.segment_count indexed_new.disk prefix 0 0 segment_is_empty

      new-Begun : Begun (opened_at fs law indexed_new resumed_new) prefix
      unfolding opened_at
      new-Begun = rw resumes_at_zero (record {
        segment = refl;
        offset = ap (λ c. length (or_empty c) % 2 ^ 32) (segment_is_empty 0);
        active = refl;
        index_file = refl;
        first =
            law.open_append_self indexed_new.disk _
            ∙ ap (λ c. some (or_empty c)) (segment_is_empty 0);
        others = λ seg ne. law.open_append_other indexed_new.disk _ _ ne ∙ segment_is_empty seg;
        index_on_disk =
            law.open_append_other indexed_new.disk _ _ (names_apart prefix 0 new.short).0
            ∙ index_is_empty;
      })

      new-IsOpen : IsOpen fs (opened_at fs law indexed_new resumed_new)
      new-IsOpen =
          opened_at-IsOpen fs law indexed_new resumed_new refl new.idle
            (λ seg e.
              (names_apart prefix seg new.short).0
                (sym (some-injective (index_name prefix) (segment_name prefix seg) e)))
            (resume_segment-lt fs indexed_new.segment_count indexed_new.disk prefix 0 0 (2 ^ 8)
              (omega arith) (omega (arith, new.few)))
            (omega (arith, ap (λ c. length (or_empty c)) (segment_is_empty resumed_new)))

      new-Models : (d : D) → Models fs prefix d [] no_items
      unfolding lookup
      new-Models d = record { present = λ k v at. absurd (ground arith); absent = λ k at. refl }

      new-Saved : Saved fs (opened_at fs law indexed_new resumed_new) no_items
      unfolding opened_at apply_entries entries_bytes
      new-Saved =
          let (si, sj, st, ij, it, jt) = names_apart prefix resumed_new new.short in
          record {
            entries = [];
            fit = tt;
            file = refl;
            on_disk = law.open_append_other indexed_new.disk _ _ si ∙ index_is_empty;
            items = new-Models _;
            no_journal =
                law.open_append_other indexed_new.disk _ _ sj
                ∙ (only_index (journal_name prefix) ij ∙ new.no_journal);
            short = new.short;
          }

      new-Represents :
          Represents fs (opened_at fs law indexed_new resumed_new) z.policy_ttl_secs no_items
      unfolding opened_at
      new-Represents = record { policy_ttl = refl; opened = new-IsOpen; items = new-Models _ }

    -- `init` of a new store on a disk without a file of its own returns true. The store then has
    -- segment 0, empty, to write to and no other, an empty index file to append to, and nothing
    -- under any key, in the index and in the index file. The store has no limit on the records and
    -- at most 256 segments, and its prefix at most 61 characters and no '/' at the end.
    pub init-IsNew :
        (z : FileStore D) (prefix : List ℕ) (segment_size segment_count : ℕ)
        → IsNew fs z prefix segment_count
        → ((init fs z prefix false segment_size segment_count).1 ≡ true)
          × Represents fs
              (init fs z prefix false segment_size segment_count).0
              z.policy_ttl_secs
              no_items
          × Saved fs (init fs z prefix false segment_size segment_count).0 no_items
          × Begun (init fs z prefix false segment_size segment_count).0 prefix
    init-IsNew z prefix segment_size segment_count new =
        rw (init-indexed_new z prefix segment_size segment_count new) (
          refl,
          new-Represents z prefix segment_size segment_count new,
          new-Saved z prefix segment_size segment_count new,
          new-Begun z prefix segment_size segment_count new,
        )
