-- ===== src/FileStore/Operations/Stored.antt =====
-- FileStore.h: `put` up to the index, and the bytes that it leaves in the active segment.
use micro_store.Base.{
  ℕ, ◌+◌, ◌%◌, ◌^◌, ◌≡◌, ◌≢◌, refl, ap, sym, ◌∙◌, true, some, List, [], ◌++◌, arith, length,
}
use mathlib.Core.List.{append-nil}
use micro_store.Assoc.{Key, assign}
use micro_store.FileStore.Index.{index_value, IndexMap}
use micro_store.FileStore.Layout.{header_size, commit_size}
use micro_store.FileStore.Files.{FilePath, FileSystem}
use micro_store.FileStore.Files.Lawful.{IsLawful}
use micro_store.FileStore.Names.{segment_name}
use micro_store.FileStore.State.{FileStore, Clock, flush_buffer}
use micro_store.FileStore.State.Buffer.{Pending, Frame}
use micro_store.FileStore.Scan.Log.{Logged, record_bytes}
use micro_store.FileStore.Operations.Append.{append_record-flush}
use micro_store.FileStore.IndexFile.{IndexEntry, entry_chunks}
use micro_store.FileStore.IndexFile.Entries.{joined}
use micro_store.FileStore.Operations.Quiet.{IsQuiet}
use micro_store.FileStore.Operations.Indexed.{put_index_entry, Indexed, put_indexed-Indexed}
use micro_store.FileStore.Operations.Ready.{IsReady}
use micro_store.FileStore.Operations.{
  append_record, put_header, put_record, rotate_segment_if_needed,
}

-- The record that `put` appends.
abbrev pub put_logged : Key → List ℕ → ℕ → ℕ → ℕ → Logged
put_logged key value ttl ts priority = record {
  hdr = put_header key value ttl ts priority;
  key = key;
  value = value;
}

module _ {D : Type 0} (fs : FileSystem D) where
  -- The store after an operation on `r` that appended a record to its active segment and set
  -- off neither a rotation nor a compaction: its index and offset, and the files.
  pub record Appended (r : FileStore D) (ready : IsReady fs r) (g : Logged) (index : IndexMap)
      (offset : ℕ) (e : IndexEntry) (t : FileStore D) : Type 0 where
    pub fields : t ≡ record r {
      disk = t.disk;
      write_buf = [];
      index = index;
      dead_since_compact = t.dead_since_compact;
      current_offset = offset;
    }
    pub on_disk :
        fs.open_read t.disk (segment_name r.base_prefix r.current_segment)
        ≡ some (ready.bytes ++ record_bytes g)
    pub others :
        (q : FilePath)
        → r.index_file ≢ some q
        → segment_name r.base_prefix r.current_segment ≢ q
        → fs.open_read t.disk q ≡ fs.open_read r.disk q
    pub saved :
        (q : FilePath) (c : List ℕ)
        → r.index_file ≡ some q
        → fs.open_read r.disk q ≡ some c
        → fs.open_read t.disk q ≡ some (c ++ joined (entry_chunks e))

  pub Appended-of :
      (r f t : FileStore D) (ready : IsReady fs r) (g : Logged) (index : IndexMap) (offset : ℕ)
      (e : IndexEntry)
      → Indexed fs f t index offset e
      → Frame fs (segment_name r.base_prefix r.current_segment) r f
      → f.write_buf ≡ []
      → fs.open_read f.disk (segment_name r.base_prefix r.current_segment)
        ≡ some (ready.bytes ++ record_bytes g)
      → Appended r ready g index offset e t
  Appended-of r f t ready g index offset e ix frame empty disk =
      let file : f.index_file ≡ r.index_file =
        ap (λ (x : FileStore D). x.index_file) frame.fields in
      let put_in = λ (x : FileStore D) (b : List ℕ). record x {
        disk = t.disk;
        write_buf = b;
        index = index;
        dead_since_compact = t.dead_since_compact;
        current_offset = offset;
      } in
      record {
        fields =
            ix.fields
            ∙ (ap (λ (x : FileStore D). put_in x x.write_buf) frame.fields ∙ ap (put_in r) empty);
        on_disk = ix.files _ (λ k. ready.index_apart (sym file ∙ k)) ∙ disk;
        others = λ q apart ne. ix.files q (λ k. apart (sym file ∙ k)) ∙ frame.others q ne;
        saved = λ q c at there.
            ix.saved q c (file ∙ at)
              (frame.others q (λ k. ready.index_apart (at ∙ ap some (sym k))) ∙ there);
      }

  module _ (law : IsLawful fs) where
    pub ready-Pending :
        (r : FileStore D) (ready : IsReady fs r)
        → Pending fs (segment_name r.base_prefix r.current_segment) ready.bytes r
    ready-Pending r ready = record {
      holds = record {
        active = ready.active;
        written = ready.bytes;
        on_disk = ready.on_disk;
        total_is = ap (λ b. ready.bytes ++ b) ready.no_buffer ∙ append-nil ready.bytes;
      };
      room = omega (arith, ap (length {A = ℕ}) ready.no_buffer);
    }

    pub put_record-Appended :
        (s r : FileStore D) (clock : Clock) (key : Key) (value : List ℕ) (ttl ts priority : ℕ)
        (ready : IsReady fs r)
        → (rotate_segment_if_needed fs s clock (length value)).0 ≡ r
        → IsQuiet r key
        → r.policy_max_recs ≡ 0
        → ((put_record fs s clock key value ttl ts priority).1 ≡ true)
          × Appended r ready
              (put_logged key value ttl ts priority)
              (assign key (index_value r.current_segment r.current_offset ts ttl priority) r.index)
              ((r.current_offset + header_size + length key + length value + commit_size) % 2 ^ 32)
              (put_index_entry key r.current_segment r.current_offset ts ttl priority)
              (put_record fs s clock key value ttl ts priority).0
    unfolding put_record
    put_record-Appended s r clock key value ttl ts priority ready rotated quiet no_limit =
        let p = segment_name r.base_prefix r.current_segment in
        let g = put_logged key value ttl ts priority in
        let f = (flush_buffer fs (append_record fs r g.hdr key value)).0 in
        let (ok, disk, empty, frame) = append_record-flush fs law p r g (ready-Pending r ready) in
        let quiet_f : IsQuiet f key = record {
          share = rw frame.fields quiet.share;
          small = rw frame.fields quiet.small;
        } in
        let indexed =
          put_indexed-Indexed fs law f clock key value r.current_offset ttl ts priority quiet_f
            (ap (λ (x : FileStore D). x.policy_max_recs) frame.fields ∙ no_limit) in
        let new =
          ap
            (λ (x : FileStore D).
              assign key (index_value x.current_segment r.current_offset ts ttl priority) x.index)
            frame.fields in
        let end =
          ap
            (λ (x : FileStore D).
              (x.current_offset + header_size + length key + length value + commit_size) % 2 ^ 32)
            frame.fields in
        let entry =
          ap
            (λ (x : FileStore D).
              put_index_entry key x.current_segment r.current_offset ts ttl priority)
            frame.fields in
        rw (rotated, ok)
          (refl, Appended-of r f _ ready g _ _ _ (rw (new, end, entry) at indexed) frame empty disk)
