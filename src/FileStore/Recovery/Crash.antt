-- ===== src/FileStore/Recovery/Crash.antt =====
-- FileStore.h: what a boot finds and does after a compaction that was cut off.
use micro_store.Base.{
  ℕ, zero, suc, ◌+◌, ◌^◌, ◌≤◌, ◌<◌, ◌≡◌, ◌≢◌, refl, ap, sym, ◌∙◌, false, none, some, List, [],
  arith, length, take, take_of_length-le, bytes_eq, bytes_eq_iff, Bool-cases, inl, inr, ◌==◌,
}
use micro_store.FileStore.Layout.{Journal, encode_journal, journal_magic, journal_size}
use micro_store.FileStore.Layout.RoundTrip.{decode_journal-encode_journal}
use micro_store.FileStore.Files.{FilePath, FileSystem, read}
use micro_store.FileStore.Files.Lawful.{IsLawful}
use micro_store.FileStore.Names.{segment_name, index_name, journal_name, tmp_name}
use micro_store.FileStore.Names.Distinct.{names_apart}
use micro_store.FileStore.State.{FileStore}
use micro_store.FileStore.Compaction.{
  remove_segments, finalize_compaction, reindex, journal_commit, journal_compacting,
}
use micro_store.FileStore.IndexFile.{write_index_bulk, open_index_for_append, bulk_chunks}
use micro_store.FileStore.IndexFile.Writes.{write_chunks_other}
use micro_store.FileStore.Scan.{scan_file}
use micro_store.FileStore.Recovery.{recover_from, recover_opened, recover_if_needed}

-- The journal as `write_journal` writes it.
pub journal_of : ℕ → ℕ → ℕ → Journal
journal_of state next_seg size = record {
  magic = journal_magic;
  state = state;
  next_seg = next_seg;
  tmp_valid_size = size;
}

module _ {D : Type 0} (fs : FileSystem D) where
  -- A whole journal is read back and acted on.
  recover_of_journal :
      (s : FileStore D) (state next_seg size : ℕ)
      → state ≤ journal_commit
      → next_seg < 2 ^ 32
      → size < 2 ^ 32
      → fs.open_read s.disk (journal_name s.base_prefix)
        ≡ some (encode_journal (journal_of state next_seg size))
      → recover_if_needed fs s ≡ recover_from fs s (journal_of state next_seg size)
  unfolding recover_if_needed recover_opened read journal_of
  recover_of_journal s state next_seg size hs hn hz found =
      let j = journal_of state next_seg size in
      let (len, back) =
        decode_journal-encode_journal j (record {
          magic = omega arith;
          state = omega arith;
          next_seg = hn;
          tmp_valid_size = hz;
        }) in
      let all : take journal_size (encode_journal j) ≡ encode_journal j =
        take_of_length-le journal_size (encode_journal j) (omega (arith, len)) in
      rw found (rw all (rw (len, back)))

  module _ (law : IsLawful fs) where
    remove_keeps_none :
        (d : D) (p q : FilePath) → fs.open_read d q ≡ none → fs.open_read (fs.remove d p).0 q ≡ none
    remove_keeps_none d p q h = elim (Bool-cases (bytes_eq p q)) [
      | inl same ↦ let e : p ≡ q = (bytes_eq_iff p q).0 same in rw (← e) (law.remove_self d p)
      | inr other ↦ law.remove_other d p q (λ e. ground (arith, bytes_eq_iff p q)) ∙ h
    ]

    remove_segments_keeps_none :
        (n : ℕ) (d : D) (prefix : List ℕ) (i : ℕ) (q : FilePath)
        → fs.open_read d q ≡ none
        → fs.open_read (remove_segments fs n d prefix i) q ≡ none
    unfolding remove_segments
    remove_segments_keeps_none zero d prefix i q h = h
    remove_segments_keeps_none (suc n) d prefix i q h =
        remove_segments_keeps_none n (fs.remove d (segment_name prefix i)).0 prefix (i + 1) q
          (remove_keeps_none d (segment_name prefix i) q h)

    remove_segments_all :
        (n : ℕ) (d : D) (prefix : List ℕ) (i k j : ℕ)
        → j ≡ i + k
        → k < n
        → fs.open_read (remove_segments fs n d prefix i) (segment_name prefix j) ≡ none
    unfolding remove_segments
    remove_segments_all zero d prefix i k j e h = absurd (omega arith)
    remove_segments_all (suc n) d prefix i zero j e h =
        let same : i ≡ j = omega arith in
        remove_segments_keeps_none n (fs.remove d (segment_name prefix i)).0 prefix (i + 1)
          (segment_name prefix j) (rw (← same) (law.remove_self d (segment_name prefix i)))
    remove_segments_all (suc n) d prefix i (suc k) j e h =
        remove_segments_all n (fs.remove d (segment_name prefix i)).0 prefix (i + 1) k j
          (omega arith) (omega arith)

    finalize_missing :
        (s : FileStore D) (j : ℕ)
        → fs.open_read s.disk (tmp_name s.base_prefix) ≡ none
        → j < s.segment_count
        → fs.open_read (finalize_compaction fs s).disk (segment_name s.base_prefix j) ≡ none
    unfolding finalize_compaction
    finalize_missing s j missing h =
        let d = remove_segments fs s.segment_count s.disk s.base_prefix 0 in
        let tmp = tmp_name s.base_prefix in
        let seg0 = segment_name s.base_prefix 0 in
        let no_tmp =
          remove_segments_keeps_none s.segment_count s.disk s.base_prefix 0 tmp missing in
        rw (law.rename_missing d tmp seg0 no_tmp) (
          remove_keeps_none (fs.rename d tmp seg0).0 tmp (segment_name s.base_prefix j) (
            law.rename_missing_all d tmp seg0 (segment_name s.base_prefix j) no_tmp
            ∙ remove_segments_all s.segment_count s.disk s.base_prefix 0 j j (omega arith) h))

    -- A crash in `finalize_compaction` after the rename and before the journal is cleared: the next
    -- boot finds the journal in the state COMMIT and no compact.tmp, finalizes once more, and that
    -- removes every segment, the one with all the compacted records among them.
    pub recover_commit_again :
        (s : FileStore D) (j : ℕ)
        → fs.open_read s.disk (journal_name s.base_prefix)
          ≡ some (encode_journal (journal_of journal_commit 0 0))
        → fs.open_read s.disk (tmp_name s.base_prefix) ≡ none
        → j < s.segment_count
        → fs.open_read (recover_if_needed fs s).disk (segment_name s.base_prefix j) ≡ none
    recover_commit_again s j journal missing h =
        rw
          (recover_of_journal s journal_commit 0 0 (omega arith) (omega arith) (omega arith)
            journal)
          (unfold recover_from journal_of in
            remove_keeps_none (finalize_compaction fs s).disk (journal_name s.base_prefix)
              (segment_name s.base_prefix j) (finalize_missing s j missing h))

    -- A crash before any segment was committed: the boot removes the journal and compact.tmp, and
    -- any other file `q` is what it was.
    pub recover_uncommitted :
        (s : FileStore D) (size : ℕ) (q : FilePath)
        → size < 2 ^ 32
        → fs.open_read s.disk (journal_name s.base_prefix)
          ≡ some (encode_journal (journal_of journal_compacting 0 size))
        → tmp_name s.base_prefix ≢ q
        → journal_name s.base_prefix ≢ q
        → (fs.open_read (recover_if_needed fs s).disk (journal_name s.base_prefix) ≡ none)
          × (fs.open_read (recover_if_needed fs s).disk (tmp_name s.base_prefix) ≡ none)
          × (fs.open_read (recover_if_needed fs s).disk q ≡ fs.open_read s.disk q)
    recover_uncommitted s size q hz journal ne_tmp ne_name =
        let tmp = tmp_name s.base_prefix in
        let name = journal_name s.base_prefix in
        let d = (fs.remove s.disk tmp).0 in
        rw (recover_of_journal s journal_compacting 0 size (omega arith) (omega arith) hz journal) (
          unfold recover_from journal_of in
          (
            law.remove_self d name,
            remove_keeps_none d name tmp (law.remove_self s.disk tmp),
            law.remove_other d name q ne_name ∙ law.remove_other s.disk tmp q ne_tmp,
          ))

    -- A crash after segments were committed, with a prefix of at most 61 characters: compact.tmp
    -- becomes segment 0 with every byte that it held, the journal goes, and any other file `q` than
    -- those, such as the index file, is what it was, as is the index in memory.
    pub recover_committed_segments :
        (s : FileStore D) (next_seg size : ℕ) (c : List ℕ) (q : FilePath)
        → 0 < next_seg
        → next_seg < 2 ^ 32
        → size < 2 ^ 32
        → fs.open_read s.disk (journal_name s.base_prefix)
          ≡ some (encode_journal (journal_of journal_compacting next_seg size))
        → fs.open_read s.disk (tmp_name s.base_prefix) ≡ some c
        → length s.base_prefix ≤ 61
        → tmp_name s.base_prefix ≢ q
        → journal_name s.base_prefix ≢ q
        → segment_name s.base_prefix 0 ≢ q
        → (fs.open_read (recover_if_needed fs s).disk (segment_name s.base_prefix 0) ≡ some c)
          × (fs.open_read (recover_if_needed fs s).disk (journal_name s.base_prefix) ≡ none)
          × (fs.open_read (recover_if_needed fs s).disk q ≡ fs.open_read s.disk q)
          × ((recover_if_needed fs s).index ≡ s.index)
    recover_committed_segments s next_seg size c q pos hn hz journal tmp_there short ne_tmp ne_name
          ne_seg =
        let tmp = tmp_name s.base_prefix in
        let name = journal_name s.base_prefix in
        let seg0 = segment_name s.base_prefix 0 in
        let d = (fs.rename s.disk tmp seg0).0 in
        let apart = names_apart s.base_prefix 0 short in
        let more : (next_seg == 0) ≡ false = ground arith in
        rw (recover_of_journal s journal_compacting next_seg size (omega arith) hn hz journal) (
          unfold recover_from journal_of in
          rw (law.rename_ok s.disk tmp seg0 c tmp_there, more)
            (
              law.remove_other d name seg0 (λ e. apart.1 (sym e))
                  ∙ law.rename_to s.disk tmp seg0 c tmp_there,
              law.remove_self d name,
              law.remove_other d name q ne_name ∙ law.rename_other s.disk tmp seg0 q ne_tmp ne_seg,
              refl,
            ))

    -- Removing the segments leaves any file alone that has no segment's name.
    remove_segments_other :
        (n : ℕ) (d : D) (prefix : List ℕ) (i : ℕ) (q : FilePath)
        → ((k : ℕ) → segment_name prefix k ≢ q)
        → fs.open_read (remove_segments fs n d prefix i) q ≡ fs.open_read d q
    unfolding remove_segments
    remove_segments_other zero d prefix i q ne = refl
    remove_segments_other (suc n) d prefix i q ne =
        remove_segments_other n (fs.remove d (segment_name prefix i)).0 prefix (i + 1) q ne
        ∙ law.remove_other d (segment_name prefix i) q (ne i)

    write_index_bulk_other :
        (s : FileStore D) (q : FilePath)
        → index_name s.base_prefix ≢ q
        → fs.open_read (write_index_bulk fs s).0.disk q ≡ fs.open_read s.disk q
    unfolding write_index_bulk
    write_index_bulk_other s q ne =
        let name = index_name s.base_prefix in
        rw (law.open_append_ok s.disk name) (
          write_chunks_other fs law (fs.open_append s.disk name).0 name q (bulk_chunks s.index) ne
          ∙ law.open_append_other s.disk name q ne)

    write_index_bulk_prefix :
        (s : FileStore D) → (write_index_bulk fs s).0.base_prefix ≡ s.base_prefix
    unfolding write_index_bulk
    write_index_bulk_prefix s =
        let name = index_name s.base_prefix in rw (law.open_append_ok s.disk name) refl

    reindex_other :
        (s : FileStore D) (q : FilePath)
        → index_name s.base_prefix ≢ q
        → fs.open_read (reindex fs s).disk q ≡ fs.open_read s.disk q
    unfolding reindex open_index_for_append
    reindex_other s q ne =
        let cleared : FileStore D = record s {
          index = scan_file fs false s.disk s.base_prefix 0 [];
          index_file = none;
          disk = (fs.remove s.disk (index_name s.base_prefix)).0;
        } in
        let b = (write_index_bulk fs cleared).0 in
        law.open_append_other b.disk (index_name b.base_prefix) q
          (λ e. ne (sym (ap index_name (write_index_bulk_prefix cleared)) ∙ e))
        ∙ (write_index_bulk_other cleared q ne
            ∙ law.remove_other s.disk (index_name s.base_prefix) q ne)

    -- A crash after the journal was committed and before the swap, with a prefix of at most 61
    -- characters: the boot finishes the swap. Segment 0 has every byte of compact.tmp, no other segment is left, and compact.tmp and the
    -- journal are gone.
    pub recover_commit :
        (s : FileStore D) (c : List ℕ) (j : ℕ)
        → fs.open_read s.disk (journal_name s.base_prefix)
          ≡ some (encode_journal (journal_of journal_commit 0 0))
        → fs.open_read s.disk (tmp_name s.base_prefix) ≡ some c
        → length s.base_prefix ≤ 61
        → j < s.segment_count
        → segment_name s.base_prefix 0 ≢ segment_name s.base_prefix j
        → (fs.open_read (recover_if_needed fs s).disk (segment_name s.base_prefix 0) ≡ some c)
          × (fs.open_read (recover_if_needed fs s).disk (segment_name s.base_prefix j) ≡ none)
          × (fs.open_read (recover_if_needed fs s).disk (tmp_name s.base_prefix) ≡ none)
          × (fs.open_read (recover_if_needed fs s).disk (journal_name s.base_prefix) ≡ none)
    recover_commit s c j journal tmp_there short h ne =
        let prefix = s.base_prefix in
        let tmp = tmp_name prefix in
        let name = journal_name prefix in
        let seg0 = segment_name prefix 0 in
        let segj = segment_name prefix j in
        let d = remove_segments fs s.segment_count s.disk prefix 0 in
        let apart = names_apart prefix 0 short in
        let apartj = names_apart prefix j short in
        let kept : fs.open_read d tmp ≡ some c =
          remove_segments_other s.segment_count s.disk prefix 0 tmp
            (λ k. (names_apart prefix k short).2)
          ∙ tmp_there in
        let r : FileStore D = record s { disk = (fs.rename d tmp seg0).0 } in
        let swapped : finalize_compaction fs s ≡ reindex fs r =
          unfold finalize_compaction in rw (law.rename_ok d tmp seg0 c kept) refl in
        let t = (reindex fs r).disk in
        rw
          (recover_of_journal s journal_commit 0 0 (omega arith) (omega arith) (omega arith)
            journal)
          (unfold recover_from journal_of in
            rw swapped (
              law.remove_other t name seg0 (λ e. apart.1 (sym e))
                  ∙ (reindex_other r seg0 (λ e. apart.0 (sym e)) ∙ law.rename_to d tmp seg0 c kept),
              law.remove_other t name segj (λ e. apartj.1 (sym e))
                  ∙ (reindex_other r segj (λ e. apartj.0 (sym e))
                      ∙ (law.rename_other d tmp seg0 segj (λ e. apartj.2 (sym e)) ne
                          ∙ remove_segments_all s.segment_count s.disk prefix 0 j j (omega arith)
                              h)),
              law.remove_other t name tmp apart.5
                  ∙ (reindex_other r tmp apart.4
                      ∙ law.rename_from d tmp seg0 (λ e. apart.2 (sym e))),
              law.remove_self t name,
            ))
