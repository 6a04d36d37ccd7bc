-- ===== src/FileStore/View/Rotate.antt =====
-- FileStore.h: `rotate_segment_if_needed` where a segment has room for the record.
use micro_store.Base.{
  true, ℕ, ◌+◌, ◌≤◌, ◌<◌, ◌%◌, ◌^◌, ◌≡◌, ◌≢◌, refl, ap, sym, ◌∙◌, false, none, some, List, [],
  arith, length, Bool-cases, inl, inr, bytes_eq, bytes_eq_iff, ltb, leb,
}
use mathlib.Core.List.{append-nil}
use micro_store.FileStore.Layout.{header_size, commit_size, max_key_len}
use micro_store.FileStore.Files.{FilePath, FileSystem}
use micro_store.FileStore.Files.Lawful.{IsLawful, or_empty}
use micro_store.FileStore.Names.{segment_name}
use micro_store.FileStore.State.{FileStore, Clock}
use micro_store.FileStore.Recovery.{open_segment}
use micro_store.FileStore.Operations.{rotate_segment_if_needed}
use micro_store.FileStore.Operations.Ready.{rotate_stays}
use micro_store.FileStore.Operations.PutGet.{flush_buffer_idle}
use micro_store.FileStore.View.{Extends}
use micro_store.FileStore.View.Append.{IsOpen}

-- The size of the largest record around a value of `n` bytes.
abbrev pub largest : ℕ → ℕ
largest n = header_size + max_key_len + n + commit_size

-- The current segment takes the record, or it is full and the next one does: there is a next
-- segment, so no compaction is due. Offsets stay below 2^24, as the index keeps them.
pub data HasRoom {D : Type 0} (fs : FileSystem D) (s : FileStore D) (n : ℕ) : Type 0 where
  in_segment :
      s.current_offset + n + header_size + commit_size < s.segment_size
      → s.current_offset + largest n < 2 ^ 24
      → HasRoom fs s n
  in_next :
      s.segment_size ≤ s.current_offset + n + header_size + commit_size
      → s.current_offset + n < 2 ^ 32
      → s.current_segment + 1 < s.segment_count
      → s.current_segment + 1 < 2 ^ 8
      → length (or_empty (fs.open_read s.disk (segment_name s.base_prefix (s.current_segment + 1))))
          + largest n
        < 2 ^ 24
      → HasRoom fs s n

module _ {D : Type 0} (fs : FileSystem D) where
  -- The store with a segment to write to.
  pub record Rotated (s r : FileStore D) (n : ℕ) : Type 0 where
    pub fields : r ≡ record s {
      disk = r.disk;
      active_file = r.active_file;
      current_segment = r.current_segment;
      current_offset = r.current_offset;
    }
    pub opened : IsOpen fs r
    pub extends : Extends fs s.base_prefix s.disk r.disk
    pub others :
        (q : FilePath)
        → ((seg : ℕ) → segment_name s.base_prefix seg ≢ q)
        → fs.open_read r.disk q ≡ fs.open_read s.disk q
    pub room : r.current_offset + largest n < 2 ^ 24

  module _ (law : IsLawful fs) where
    pub open_append-Extends :
        (prefix : List ℕ) (d : D) (id : ℕ)
        → Extends fs prefix d (fs.open_append d (segment_name prefix id)).0
    open_append-Extends prefix d id seg c there =
        let p = segment_name prefix id in
        let q = segment_name prefix seg in
        elim (Bool-cases (bytes_eq p q)) [
          | inl same ↦
              let e = (bytes_eq_iff p q).0 same in
              (
                [],
                ap (fs.open_read (fs.open_append d p).0) (sym e)
                    ∙ (law.open_append_self d p
                        ∙ ap some
                            (ap or_empty (ap (fs.open_read d) e ∙ there) ∙ sym (append-nil c))),
              )
          | inr other ↦ (
            [],
            law.open_append_other d p q (λ e. ground (arith, bytes_eq_iff p q))
                ∙ (there ∙ ap some (sym (append-nil c))),
          )
        ]

    -- The state that `open_segment` leaves for a segment.
    unfoldable pub opened_at : FileStore D → ℕ → FileStore D
    opened_at s id = record s {
      disk = (fs.open_append s.disk (segment_name s.base_prefix id)).0;
      active_file = some (segment_name s.base_prefix id);
      current_segment = id;
      current_offset =
          length (or_empty (fs.open_read s.disk (segment_name s.base_prefix id))) % 2 ^ 32;
    }

    pub open_segment-opened_at :
        (s : FileStore D) (id : ℕ) → (open_segment fs s id).0 ≡ opened_at s id
    unfolding open_segment opened_at
    open_segment-opened_at s id =
        let p = segment_name s.base_prefix id in
        rw (law.open_append_ok s.disk p, law.open_append_self s.disk p) refl

    pub opened_at-IsOpen :
        (s : FileStore D) (id : ℕ)
        → s.mounted ≡ true
        → s.write_buf ≡ []
        → ((seg : ℕ) → s.index_file ≢ some (segment_name s.base_prefix seg))
        → id < 2 ^ 8
        → length (or_empty (fs.open_read s.disk (segment_name s.base_prefix id))) < 2 ^ 24
        → IsOpen fs (opened_at s id)
    unfolding opened_at
    opened_at-IsOpen s id mounted idle apart small room =
        let p = segment_name s.base_prefix id in
        let bytes = or_empty (fs.open_read s.disk p) in
        let offset : length bytes % 2 ^ 32 ≡ length bytes = omega arith in
        record {
          ready = record {
            mounted = mounted;
            no_buffer = idle;
            active = refl;
            bytes = bytes;
            on_disk = law.open_append_self s.disk p;
            offset = offset;
            segment_small = small;
            offset_small = omega (arith, offset);
            index_apart = apart id;
          };
          apart = apart;
        }

    opened_at-Rotated :
        (s : FileStore D) (id n : ℕ)
        → IsOpen fs s
        → id < 2 ^ 8
        → length (or_empty (fs.open_read s.disk (segment_name s.base_prefix id))) + largest n
          < 2 ^ 24
        → Rotated s (opened_at s id) n
    unfolding opened_at
    opened_at-Rotated s id n o small room =
        let p = segment_name s.base_prefix id in
        let bytes = or_empty (fs.open_read s.disk p) in
        let offset : length bytes % 2 ^ 32 ≡ length bytes = omega arith in
        record {
          fields = refl;
          opened =
              opened_at-IsOpen s id o.ready.mounted o.ready.no_buffer o.apart small (omega arith);
          extends = open_append-Extends s.base_prefix s.disk id;
          others = λ q apart. law.open_append_other s.disk p q (apart id);
          room = omega (arith, offset);
        }

    rotate_next :
        (s : FileStore D) (clock : Clock) (n : ℕ)
        → IsOpen fs s
        → s.segment_size ≤ s.current_offset + n + header_size + commit_size
        → s.current_offset + n < 2 ^ 32
        → s.current_segment + 1 < s.segment_count
        → s.current_segment + 1 < 2 ^ 8
        → (rotate_segment_if_needed fs s clock n).0 ≡ opened_at s (s.current_segment + 1)
    unfolding rotate_segment_if_needed opened_at
    rotate_next s clock n o full small more few =
        let wrap : (s.current_offset + n) % 2 ^ 32 ≡ s.current_offset + n = omega arith in
        let next : (s.current_segment + 1) % 2 ^ 32 ≡ s.current_segment + 1 = omega arith in
        let fits : ltb ((s.current_offset + n) % 2 ^ 32 + header_size + commit_size) s.segment_size
            ≡ false =
          ground arith in
        let last : leb s.segment_count (s.current_segment + 1) ≡ false = ground arith in
        let moved : FileStore D = record s {
          active_file = none;
          current_segment = s.current_segment + 1;
        } in
        rw (flush_buffer_idle fs law s o.ready.no_buffer, next, fits, last)
          (open_segment-opened_at moved (s.current_segment + 1))

    pub rotate-Rotated :
        (s : FileStore D) (clock : Clock) (n : ℕ)
        → IsOpen fs s
        → HasRoom fs s n
        → Rotated s (rotate_segment_if_needed fs s clock n).0 n
    rotate-Rotated s clock n o (in_segment a b) =
        rw (rotate_stays fs law s clock n a (omega arith)) (record {
          fields = refl;
          opened = o;
          extends = λ seg c there. ([], there ∙ ap some (sym (append-nil c)));
          others = λ q apart. refl;
          room = b;
        })
    rotate-Rotated s clock n o (in_next a b c d e) =
        rw (rotate_next s clock n o a b c d) (opened_at-Rotated s (s.current_segment + 1) n o d e)
