-- ===== src/FileStore/View/Steps.antt =====
-- FileStore.h: the steps of `init`, on a disk without a journal and without a limit on the records.
use micro_store.Base.{
  ℕ, zero, suc, ◌+◌, ◌-◌, ◌≤◌, ◌<◌, ◌%◌, ◌^◌, ◌≡◌, refl, ap, sym, ◌∙◌, true, false, none, some,
  List, [], ◌++◌, arith, length, ◌==◌, ltb, get_or, if◌then◌else◌, Option-cases, inl, inr,
}
use mathlib.Core.List.{append-nil}
use micro_store.FileStore.Files.{FileSystem}
use micro_store.FileStore.Files.Lawful.{IsLawful}
use micro_store.FileStore.Names.{segment_name, index_name, journal_name}
use micro_store.FileStore.Eviction.{prune}
use micro_store.FileStore.IndexFile.{load_index, load_from, open_index_for_append}
use micro_store.FileStore.IndexFile.Entries.{
  entries_bytes, apply_entries, load_entries_behind, no_entry,
}
use micro_store.FileStore.State.{FileStore, prune_index}
use micro_store.FileStore.Recovery.{
  init_files, recover_if_needed, recover_opened, make_folder, resume_segment,
}
use micro_store.FileStore.View.{Contents}
use micro_store.FileStore.View.Rotate.{opened_at, open_segment-opened_at}
use micro_store.FileStore.View.Saved.{Saved}

-- The number of segments that `init` goes by.
abbrev pub count_of : {D : Type 0} → FileStore D → ℕ → ℕ
count_of z segment_count = if ltb 0 segment_count then segment_count else z.segment_count

module _ {D : Type 0} (fs : FileSystem D) where
  pub resume_segment-lt :
      (n : ℕ) (d : D) (prefix : List ℕ) (i found bound : ℕ)
      → found < bound
      → i + n ≤ bound
      → resume_segment fs n d prefix i found < bound
  unfolding resume_segment
  resume_segment-lt zero d prefix i found bound h k = h
  resume_segment-lt (suc n) d prefix i found bound h k =
      elim (Option-cases (fs.open_read d (segment_name prefix i))) [
        | inl e ↦ rw e (resume_segment-lt n d prefix (i + 1) found bound h (omega arith))
        | inr (c, e) ↦
            rw e (resume_segment-lt n d prefix (i + 1) i bound (omega arith) (omega arith))
      ]

  pub load_index-entries :
      (s : FileStore D) (n : Contents) (h : Saved fs s n) (z : FileStore D)
      → z.index ≡ []
      → z.base_prefix ≡ s.base_prefix
      → z.disk ≡ s.disk
      → load_index fs z ≡ (record z { index = apply_entries h.entries [] }, true)
  unfolding load_index load_from
  load_index-entries s n h z empty base disk =
      let whole : fs.open_read z.disk (index_name z.base_prefix)
          ≡ some (entries_bytes h.entries ++ []) =
        rw (base, disk) (h.on_disk ∙ ap some (sym (append-nil (entries_bytes h.entries)))) in
      rw (whole, empty) (rw (load_entries_behind h.entries [] [] h.fit no_entry) refl)

  pub make_folder-none :
      (d : D) (prefix : List ℕ)
      → (get_or prefix (length prefix - 1) 0 == b'/') ≡ false
      → make_folder fs d prefix ≡ d
  unfolding make_folder
  make_folder-none d prefix h = ground arith

  pub recover_if_needed-none :
      (z : FileStore D)
      → fs.open_read z.disk (journal_name z.base_prefix) ≡ none
      → recover_if_needed fs z ≡ z
  unfolding recover_if_needed recover_opened
  recover_if_needed-none z h = rw h refl

  module _ (law : IsLawful fs) where
    prune_index-none :
        (w : FileStore D)
        → w.policy_max_recs ≡ 0
        → prune_index w ≡ (record w { dead_since_compact = (w.dead_since_compact + 0) % 2 ^ 32 }, 0)
    unfolding prune_index prune
    prune_index-none w no_limit =
        let e : (w.policy_max_recs == 0) ≡ true = ap (λ n. n == 0) no_limit in rw e refl

    pub init_files-opened_at :
        (w : FileStore D)
        → w.policy_max_recs ≡ 0
        → init_files fs w
          ≡ opened_at fs law
              (record w {
                disk = (fs.open_append w.disk (index_name w.base_prefix)).0;
                dead_since_compact = (w.dead_since_compact + 0) % 2 ^ 32;
                index_file = some (index_name w.base_prefix);
              })
              (resume_segment fs w.segment_count
                (fs.open_append w.disk (index_name w.base_prefix)).0
                w.base_prefix
                0
                0)
    unfolding init_files open_index_for_append
    init_files-opened_at w no_limit =
        rw
          (
            prune_index-none w no_limit,
            init_files,
            open_index_for_append,
            law.open_append_ok w.disk (index_name w.base_prefix),
          )
          (open_segment-opened_at fs law _ _)
