-- ===== src/FileStore/View/Put.antt =====
-- FileStore.h: `put` as an update of the abstract state.
use micro_store.Base.{
  ℕ, ◌+◌, ◌%◌, ◌^◌, ◌≡◌, refl, ap, sym, ◌∙◌, true, some, List, [], ◌++◌, arith, length,
}
use mathlib.Core.List.{append-nil}
use micro_store.Assoc.{Key, assign}
use micro_store.FileStore.Layout.{header_size, commit_size}
use micro_store.FileStore.Files.{FileSystem}
use micro_store.FileStore.Files.Lawful.{IsLawful}
use micro_store.FileStore.Names.{segment_name}
use micro_store.FileStore.Operations.Indexed.{put_index_entry}
use micro_store.FileStore.Index.{IndexValue, IndexMap, index_value}
use micro_store.FileStore.Scan.Log.{record_bytes, record_size, length-record_bytes}
use micro_store.FileStore.State.{FileStore, Clock}
use micro_store.FileStore.Operations.{put, put_header, put_record, rotate_segment_if_needed}
use micro_store.FileStore.Operations.Quiet.{IsQuiet}
use micro_store.FileStore.Operations.Ready.{
  IsArgument, put_header-fits, uint24_round, of_uint24-to_uint24,
}
use micro_store.FileStore.Operations.Stored.{Appended, put_logged, put_record-Appended}
use micro_store.FileStore.Operations.PutGet.{put_legal}
use micro_store.FileStore.IndexFile.{IndexEntry}
use micro_store.FileStore.View.{
  Item, Contents, set, IsRecord, IsBacked, Models, Models-Extends, Models-assign,
}
use micro_store.FileStore.View.Append.{IsOpen, Represents, Appended-Extends, Appended-IsOpen}
use micro_store.FileStore.View.Rotate.{Rotated, HasRoom, rotate-Rotated}

put_logged-IsRecord :
    (key : Key) (value : List ℕ) (ttl ts priority : ℕ)
    → IsArgument key value ttl ts priority
    → IsRecord (put_logged key value ttl ts priority)
unfolding put_header
put_logged-IsRecord key value ttl ts priority a = record {
  fits = put_header-fits key value ttl ts priority a;
  magic = refl;
  key_len = refl;
  value_len = refl;
  key_max = a.key_max;
  value_max = a.value_max;
}

-- What `put` stores: the index keeps 24 bits of the time to live.
abbrev pub put_item : List ℕ → ℕ → ℕ → Item
put_item value ttl ts = record { value = value; timestamp = ts; ttl = ttl % 2 ^ 24 }

module _ {D : Type 0} (fs : FileSystem D) where
  -- The entry that `put` makes points at the record that it appended.
  put-IsBacked :
      (r t : FileStore D) (o : IsOpen fs r) (key : Key) (value : List ℕ) (ttl ts priority : ℕ)
      (index : IndexMap) (offset : ℕ) (e : IndexEntry)
      → IsArgument key value ttl ts priority
      → Appended fs r o.ready (put_logged key value ttl ts priority) index offset e t
      → IsBacked fs r.base_prefix t.disk key
          (index_value r.current_segment r.current_offset ts ttl priority)
          (put_item value ttl ts)
  unfolding index_value
  put-IsBacked r t o key value ttl ts priority index offset e a h =
      let g = put_logged key value ttl ts priority in
      let seg : r.current_segment % 2 ^ 8 ≡ r.current_segment =
        omega (arith, o.ready.segment_small) in
      record {
        pre = o.ready.bytes;
        rest = [];
        logged = g;
        on_disk =
            ap (λ n. fs.open_read t.disk (segment_name r.base_prefix n)) seg
            ∙ (h.on_disk ∙ ap (λ b. some (o.ready.bytes ++ b)) (sym (append-nil (record_bytes g))));
        at = uint24_round r.current_offset o.ready.offset_small ∙ o.ready.offset;
        is_record = put_logged-IsRecord key value ttl ts priority a;
        its_key = refl;
        its_value = refl;
        timestamp = refl;
        ttl = of_uint24-to_uint24 ttl;
      }

  module _ (law : IsLawful fs) (s : FileStore D) (clock : Clock) (key : Key) (value : List ℕ)
      (ttl ts priority : ℕ) (o : IsOpen fs s) (quiet : IsQuiet s key)
      (no_limit : s.policy_max_recs ≡ 0) (a : IsArgument key value ttl ts priority)
      (room : HasRoom fs s (length value)) where
    abbrev rotated : FileStore D
    rotated = (rotate_segment_if_needed fs s clock (length value)).0

    abbrev stored : FileStore D
    stored = (put_record fs s clock key value ttl ts priority).0

    abbrev entry_at : IndexValue
    entry_at = index_value rotated.current_segment rotated.current_offset ts ttl priority

    pub put-Rotated : Rotated fs s rotated (length value)
    put-Rotated = rotate-Rotated fs law s clock (length value) o room

    pub put-Appended :
        ((put_record fs s clock key value ttl ts priority).1 ≡ true)
        × Appended fs rotated put-Rotated.opened.ready
            (put_logged key value ttl ts priority)
            (assign key entry_at rotated.index)
            ((rotated.current_offset + header_size + length key + length value + commit_size)
              % 2 ^ 32)
            (put_index_entry key rotated.current_segment rotated.current_offset ts ttl priority)
            stored
    put-Appended =
        let rot = put-Rotated in
        put_record-Appended fs law s rotated clock key value ttl ts priority rot.opened.ready refl
          (record { share = rw rot.fields quiet.share; small = rw rot.fields quiet.small })
          (ap (λ (x : FileStore D). x.policy_max_recs) rot.fields ∙ no_limit)

    base_stays : stored.base_prefix ≡ s.base_prefix
    base_stays =
        ap (λ (x : FileStore D). x.base_prefix) put-Appended.1.fields
        ∙ ap (λ (x : FileStore D). x.base_prefix) put-Rotated.fields

    -- Any index that is right before is right behind it, with the new entry.
    pub put-Models :
        (index : IndexMap) (m : Contents)
        → Models fs s.base_prefix s.disk index m
        → Models fs stored.base_prefix stored.disk
            (assign key entry_at index)
            (set m key (some (put_item value ttl ts)))
    put-Models index m h =
        let rot = put-Rotated in
        let st = put-Appended.1 in
        let base : rotated.base_prefix ≡ s.base_prefix =
          ap (λ (x : FileStore D). x.base_prefix) rot.fields in
        let in_r = Models-Extends fs s.base_prefix s.disk rotated.disk index m rot.extends h in
        let extends = rw base at (Appended-Extends fs rotated stored rot.opened _ _ _ _ st) in
        let in_t = Models-Extends fs s.base_prefix rotated.disk stored.disk index m extends in_r in
        let backed =
          rw base at
            (put-IsBacked rotated stored rot.opened key value ttl ts priority _ _ _ a st) in
        rw base_stays (
          Models-assign fs s.base_prefix stored.disk index m key entry_at (put_item value ttl ts)
            in_t backed)

    put-IsOpen : IsOpen fs stored
    put-IsOpen =
        let rot = put-Rotated in
        let g = put_logged key value ttl ts priority in
        let size : length (record_bytes g) ≡ header_size + length key + length value + commit_size =
          length-record_bytes g ∙ unfold record_size in refl in
        Appended-IsOpen fs rotated stored rot.opened g _ _ _ put-Appended.1
          (omega (arith, size, rot.room, rot.opened.ready.offset, a.key_max))
          (omega (arith, size, rot.room, rot.opened.ready.offset, a.key_max))

  -- `put` in a store with room for the record, which sets off no compaction and has no limit on
  -- the records, returns true, and the store then has the value under the key and is otherwise
  -- unchanged.
  pub put-Represents :
      (law : IsLawful fs) (s : FileStore D) (policy : ℕ) (m : Contents) (clock : Clock) (key : Key)
      (value : List ℕ) (ttl ts priority : ℕ)
      → Represents fs s policy m
      → IsQuiet s key
      → s.policy_max_recs ≡ 0
      → IsArgument key value ttl ts priority
      → HasRoom fs s (length value)
      → ((put fs s clock key value ttl ts priority).1 ≡ true)
        × Represents fs
            (put fs s clock key value ttl ts priority).0
            policy
            (set m key (some (put_item value ttl ts)))
  put-Represents law s policy m clock key value ttl ts priority h quiet no_limit a room =
      let o = h.opened in
      let rot = put-Rotated law s clock key value ttl ts priority o quiet no_limit a room in
      let (ok, st) = put-Appended law s clock key value ttl ts priority o quiet no_limit a room in
      let r = (rotate_segment_if_needed fs s clock (length value)).0 in
      let t = (put_record fs s clock key value ttl ts priority).0 in
      let v = index_value r.current_segment r.current_offset ts ttl priority in
      let index : t.index ≡ assign key v s.index =
        ap (λ (x : FileStore D). x.index) st.fields
        ∙ ap (λ (x : FileStore D). assign key v x.index) rot.fields in
      rw (put_legal fs law s clock key value ttl ts priority o.ready.mounted a) (
        ok,
        record {
          policy_ttl =
              ap (λ (x : FileStore D). x.policy_ttl_secs) st.fields
              ∙ (ap (λ (x : FileStore D). x.policy_ttl_secs) rot.fields ∙ h.policy_ttl);
          opened = put-IsOpen law s clock key value ttl ts priority o quiet no_limit a room;
          items = rw index (
              put-Models law s clock key value ttl ts priority o quiet no_limit a room s.index m
                h.items);
        },
      )
