-- ===== src/FileStore/View/Start.antt =====
-- FileStore.h: `close`, and `init` on the disk that a store leaves.
use micro_store.Base.{
  ℕ, ◌+◌, ◌-◌, ◌≤◌, ◌<◌, ◌%◌, ◌^◌, ◌≡◌, refl, ap, sym, ◌∙◌, true, false, Bool, some, [], arith,
  length, ◌==◌, ltb, get_or, take, take_of_length-le, if◌then◌else◌,
}
use mathlib.Core.List.{append-nil}
use mathlib.Core.Option.{some-injective}
use micro_store.FileStore.Files.{FileSystem}
use micro_store.FileStore.Files.Lawful.{IsLawful, or_empty}
use micro_store.FileStore.Names.{segment_name, index_name, max_name}
use micro_store.FileStore.Names.Distinct.{names_apart}
use micro_store.FileStore.Index.{IndexMap}
use micro_store.FileStore.IndexFile.Entries.{apply_entries}
use micro_store.FileStore.State.{FileStore}
use micro_store.FileStore.Recovery.{init, close, resume_segment}
use micro_store.FileStore.Operations.PutGet.{flush_buffer_idle}
use micro_store.FileStore.View.{Contents, Models, Models-Extends}
use micro_store.FileStore.View.Append.{IsOpen, Represents}
use micro_store.FileStore.View.Rotate.{opened_at, opened_at-IsOpen, open_append-Extends}
use micro_store.FileStore.View.Saved.{Saved}
use micro_store.FileStore.View.Steps.{
  count_of, make_folder-none, recover_if_needed-none, resume_segment-lt, load_index-entries,
  init_files-opened_at,
}

module _ {D : Type 0} (fs : FileSystem D) where
  module _ (law : IsLawful fs) where
    -- The store before `init` opens the segment to write to.
    abbrev indexed_at : FileStore D → FileStore D → IndexMap → ℕ → ℕ → FileStore D
    indexed_at z s index segment_size segment_count = record z {
      mounted = true;
      base_prefix = s.base_prefix;
      segment_size = if ltb 0 segment_size then segment_size else z.segment_size;
      segment_count = count_of z segment_count;
      disk = (fs.open_append s.disk (index_name s.base_prefix)).0;
      index = index;
      dead_since_compact = (z.dead_since_compact + 0) % 2 ^ 32;
      index_file = some (index_name s.base_prefix);
    }

    init-opened_at :
        (s : FileStore D) (n : Contents) (h : Saved fs s n) (z : FileStore D)
        (segment_size segment_count : ℕ)
        → z.disk ≡ s.disk
        → z.index ≡ []
        → z.policy_max_recs ≡ 0
        → (get_or s.base_prefix (length s.base_prefix - 1) 0 == b'/') ≡ false
        → init fs z s.base_prefix false segment_size segment_count ≡ (
          opened_at fs law
              (indexed_at z s (apply_entries h.entries []) segment_size segment_count)
              (resume_segment fs
                (count_of z segment_count)
                (fs.open_append s.disk (index_name s.base_prefix)).0
                s.base_prefix
                0
                0),
          true,
        )
    unfolding init
    init-opened_at s n h z segment_size segment_count disk empty no_limit no_folder =
        let name : take max_name s.base_prefix ≡ s.base_prefix =
          take_of_length-le max_name s.base_prefix (omega (arith, h.short)) in
        let m : FileStore D = record z {
          mounted = true;
          base_prefix = s.base_prefix;
          segment_size = if ltb 0 segment_size then segment_size else z.segment_size;
          segment_count = count_of z segment_count;
        } in
        let folder = make_folder-none fs z.disk s.base_prefix no_folder in
        let recovered = recover_if_needed-none fs m (rw disk h.no_journal) in
        let loaded = load_index-entries fs s n h m empty refl disk in
        rw (name, folder, recovered, loaded)
          (ap (λ x. (x, true))
            (init_files-opened_at fs law (record m { index = apply_entries h.entries [] }) no_limit
              ∙ ap
                  (λ d.
                    opened_at fs law
                      (record m {
                        disk = (fs.open_append d (index_name s.base_prefix)).0;
                        index = apply_entries h.entries [];
                        dead_since_compact = (z.dead_since_compact + 0) % 2 ^ 32;
                        index_file = some (index_name s.base_prefix);
                      })
                      (resume_segment fs (count_of z segment_count)
                        (fs.open_append d (index_name s.base_prefix)).0 s.base_prefix 0 0))
                  disk))

    -- A new store that `init` takes: empty, without a limit on the records, with at most 256
    -- segments, each of less than 2^24 bytes, under a prefix that does not end in a '/'.
    pub record CanStart (s z : FileStore D) (segment_count : ℕ) : Type 0 where
      pub empty : z.index ≡ []
      pub idle : z.write_buf ≡ []
      pub no_limit : z.policy_max_recs ≡ 0
      pub few : count_of z segment_count ≤ 2 ^ 8
      pub no_folder : (get_or s.base_prefix (length s.base_prefix - 1) 0 == b'/') ≡ false
      pub small :
          (seg : ℕ)
          → length (or_empty (fs.open_read s.disk (segment_name s.base_prefix seg))) < 2 ^ 24

    module _ (s : FileStore D) (n : Contents) (h : Saved fs s n) (z : FileStore D)
        (segment_size segment_count : ℕ) (can : CanStart s z segment_count) where
      abbrev begun : FileStore D
      begun = indexed_at z s (apply_entries h.entries []) segment_size segment_count

      abbrev resumed : ℕ
      resumed = resume_segment fs begun.segment_count begun.disk s.base_prefix 0 0

      begun_segment :
          (seg : ℕ)
          → fs.open_read begun.disk (segment_name s.base_prefix seg)
            ≡ fs.open_read s.disk (segment_name s.base_prefix seg)
      begun_segment seg =
          law.open_append_other s.disk _ _ (λ e. (names_apart s.base_prefix seg h.short).0 (sym e))

      started-IsOpen : IsOpen fs (opened_at fs law begun resumed)
      started-IsOpen =
          opened_at-IsOpen fs law begun resumed refl can.idle
            (λ seg e.
              (names_apart s.base_prefix seg h.short).0 (
                sym (some-injective (index_name s.base_prefix) (segment_name s.base_prefix seg) e)))
            (resume_segment-lt fs begun.segment_count begun.disk s.base_prefix 0 0 (2 ^ 8)
              (omega arith) (omega (arith, can.few)))
            (omega
              (arith, ap (λ c. length (or_empty c)) (begun_segment resumed), can.small resumed))

      started-Models :
          Models fs s.base_prefix
            (opened_at fs law begun resumed).disk
            (apply_entries h.entries [])
            n
      unfolding opened_at
      started-Models =
          Models-Extends fs s.base_prefix begun.disk _ (apply_entries h.entries []) n
            (open_append-Extends fs law s.base_prefix begun.disk resumed)
            (Models-Extends fs s.base_prefix s.disk begun.disk (apply_entries h.entries []) n
              (λ seg c there. ([], begun_segment seg ∙ (there ∙ ap some (sym (append-nil c)))))
              h.items)

      started-Saved : Saved fs (opened_at fs law begun resumed) n
      unfolding opened_at
      started-Saved =
          let (si, sj, st, ij, it, jt) = names_apart s.base_prefix resumed h.short in
          record {
            entries = h.entries;
            fit = h.fit;
            file = refl;
            on_disk =
                law.open_append_other begun.disk _ _ si
                ∙ (law.open_append_self s.disk _ ∙ ap (λ c. some (or_empty c)) h.on_disk);
            items = started-Models;
            no_journal =
                law.open_append_other begun.disk _ _ sj
                ∙ (law.open_append_other s.disk _ _ ij ∙ h.no_journal);
            short = h.short;
          }

      started-Represents : Represents fs (opened_at fs law begun resumed) z.policy_ttl_secs n
      unfolding opened_at
      started-Represents = record {
        policy_ttl = refl;
        opened = started-IsOpen;
        items = started-Models;
      }

    -- A store that is closed and started again, by `init` of a new store on its disk, has what the
    -- index file says: the values that were put and not removed.
    pub init-close :
        (s : FileStore D) (n : Contents) (z : FileStore D) (segment_size segment_count : ℕ)
        → IsOpen fs s
        → Saved fs s n
        → CanStart s z segment_count
        → z.disk ≡ (close fs s).disk
        → ((init fs z s.base_prefix false segment_size segment_count).1 ≡ true)
          × Represents fs
              (init fs z s.base_prefix false segment_size segment_count).0
              z.policy_ttl_secs
              n
          × Saved fs (init fs z s.base_prefix false segment_size segment_count).0 n
    unfolding close
    init-close s n z segment_size segment_count o h can disk =
        let same : z.disk ≡ s.disk =
          disk
          ∙ ap (λ (x : FileStore D × Bool). x.0.disk)
              (flush_buffer_idle fs law s o.ready.no_buffer) in
        rw
          (init-opened_at s n h z segment_size segment_count same can.empty can.no_limit
            can.no_folder)
          (
            refl,
            started-Represents s n h z segment_size segment_count can,
            started-Saved s n h z segment_size segment_count can,
          )
