-- ===== src/FileStore/View/Remove.antt =====
-- FileStore.h: `remove` as an update of the abstract state.
use micro_store.Base.{
  ℕ, ◌+◌, ◌*◌, ◌≤◌, ◌<◌, ◌%◌, ◌^◌, ◌≡◌, refl, ap, ◌∙◌, true, false, none, [], arith, length, ltb,
}
use micro_store.Assoc.{Key, lookup, erase, length-erase-le}
use micro_store.FileStore.Layout.{header_size, commit_size, max_key_len}
use micro_store.FileStore.Files.{FileSystem}
use micro_store.FileStore.Files.Lawful.{IsLawful}
use micro_store.FileStore.Names.{segment_name}
use micro_store.FileStore.Index.{IndexMap, index_find, index_remove}
use micro_store.FileStore.IndexFile.{IndexEntry}
use micro_store.FileStore.IndexFile.Writes.{persist_index_entry_fields}
use micro_store.FileStore.Scan.Log.{Logged, record_bytes, record_size, length-record_bytes}
use micro_store.FileStore.State.{FileStore, Clock, flush_buffer}
use micro_store.FileStore.Operations.{
  remove, remove_record, remove_indexed, append_record, tombstone_header, count_found, count_dead,
  compact_threshold,
}
use micro_store.FileStore.Operations.Append.{append_record-flush}
use micro_store.FileStore.Operations.Quiet.{
  dead_after, dead_after-count, dead_after-le, count_found_fields,
}
use micro_store.FileStore.Operations.Indexed.{Indexed, finish-Indexed}
use micro_store.FileStore.Operations.Ready.{IsReady}
use micro_store.FileStore.Operations.Stored.{Appended, Appended-of, ready-Pending}
use micro_store.FileStore.View.{Models, Contents, set, Models-Extends, Models-erase}
use micro_store.FileStore.View.Append.{IsOpen, Represents, Appended-Extends, Appended-IsOpen}
use micro_store.FileStore.View.Rotate.{largest}

-- The tombstone that `remove` appends.
abbrev pub tombstone : Key → ℕ → ℕ → Logged
tombstone key stack_ttl stack_priority = record {
  hdr = tombstone_header key stack_ttl stack_priority;
  key = key;
  value = [];
}

-- The entry that `remove` appends to the index file.
abbrev pub remove_index_entry : Key → IndexEntry
remove_index_entry key = record {
  key = key;
  seg = 0xffff_ffff;
  off = 0;
  ts = 0;
  ttl = 0;
  priority = 0;
}

-- No compaction is due once the key is out of the index.
pub record IsCalm {D : Type 0} (s : FileStore D) (key : Key) : Type 0 where
  pub share :
      dead_after s key * 100 < compact_threshold * (length (erase key s.index) + dead_after s key)
  pub small : (length s.index + s.dead_since_compact + 1) * 100 < 2 ^ 32

-- That, and the segment's offset stays below 2^24.
pub record CanRemove {D : Type 0} (s : FileStore D) (key : Key) : Type 0 where
  pub calm : IsCalm s key
  pub room : s.current_offset + largest 0 < 2 ^ 24
  pub key_max : length key ≤ max_key_len

module _ {D : Type 0} (fs : FileSystem D) (law : IsLawful fs) where
  remove_indexed-Indexed :
      (f : FileStore D) (clock : Clock) (key : Key)
      → IsCalm f key
      → Indexed fs f
          (remove_indexed fs f clock key)
          (erase key f.index)
          ((f.current_offset + header_size + length key + commit_size) % 2 ^ 32)
          (remove_index_entry key)
  unfolding remove_indexed index_remove count_dead index_find
  remove_indexed-Indexed f clock key quiet =
      let d = count_found fs f (lookup key f.index) in
      let (fields, dead) = count_found_fields fs f (lookup key f.index) in
      let i : FileStore D = record d { index = erase key d.index } in
      let idx : d.index ≡ f.index = ap (λ (x : FileStore D). x.index) fields in
      let more = dead_after-count fs f d key quiet.small dead in
      let shorter = length-erase-le key f.index in
      let most : dead_after f key ≤ f.dead_since_compact + 1 = dead_after-le f key in
      let new : erase key d.index ≡ erase key f.index = rw idx refl in
      let end = λ (e : IndexEntry).
        ap (λ n. (n + header_size + length key + commit_size) % 2 ^ 32)
          (ap (λ (x : FileStore D). x.current_offset) (persist_index_entry_fields fs i e)
            ∙ ap (λ (x : FileStore D). x.current_offset) fields) in
      finish-Indexed fs law f i clock _ _ _ _ _
        (ap (λ (x : FileStore D). record x { index = i.index }) fields
          ∙ ap (λ ix. record f { index = ix; dead_since_compact = d.dead_since_compact }) new)
        (end _) refl (omega (arith, more, quiet.share))
        (omega (arith, more, most, shorter, quiet.small))

  pub remove_record-Appended :
      (s : FileStore D) (clock : Clock) (key : Key) (stack_ttl stack_priority : ℕ)
      (ready : IsReady fs s)
      → IsCalm s key
      → Appended fs s ready
          (tombstone key stack_ttl stack_priority)
          (erase key s.index)
          ((s.current_offset + header_size + length key + commit_size) % 2 ^ 32)
          (remove_index_entry key)
          (remove_record fs s clock key stack_ttl stack_priority)
  unfolding remove_record
  remove_record-Appended s clock key stack_ttl stack_priority ready quiet =
      let p = segment_name s.base_prefix s.current_segment in
      let g = tombstone key stack_ttl stack_priority in
      let f = (flush_buffer fs (append_record fs s g.hdr key [])).0 in
      let (ok, disk, empty, frame) =
        append_record-flush fs law p s g (ready-Pending fs law s ready) in
      let quiet_f : IsCalm f key = record {
        share = rw frame.fields quiet.share;
        small = rw frame.fields quiet.small;
      } in
      let new = ap (λ (x : FileStore D). erase key x.index) frame.fields in
      let end =
        ap
          (λ (x : FileStore D).
            (x.current_offset + header_size + length key + commit_size) % 2 ^ 32)
          frame.fields in
      Appended-of fs s f _ ready g _ _ _
        (rw (new, end) at (remove_indexed-Indexed f clock key quiet_f)) frame empty disk

  pub remove_legal :
      (s : FileStore D) (clock : Clock) (key : Key) (stack_ttl stack_priority : ℕ)
      → s.mounted ≡ true
      → length key ≤ max_key_len
      → remove fs s clock key stack_ttl stack_priority
        ≡ (remove_record fs s clock key stack_ttl stack_priority, true)
  unfolding remove
  remove_legal s clock key stack_ttl stack_priority mounted short =
      let hk : ltb max_key_len (length key) ≡ false = ground arith in ground (arith, mounted, hk)

  -- Any index that is right before is right behind it, without the key.
  pub remove-Models :
      (s : FileStore D) (clock : Clock) (key : Key) (stack_ttl stack_priority : ℕ) (o : IsOpen fs s)
      (index : IndexMap) (m : Contents)
      → IsCalm s key
      → Models fs s.base_prefix s.disk index m
      → Models fs
          (remove_record fs s clock key stack_ttl stack_priority).base_prefix
          (remove_record fs s clock key stack_ttl stack_priority).disk
          (erase key index)
          (set m key none)
  remove-Models s clock key stack_ttl stack_priority o index m calm h =
      let t = remove_record fs s clock key stack_ttl stack_priority in
      let st = remove_record-Appended s clock key stack_ttl stack_priority o.ready calm in
      let base : t.base_prefix ≡ s.base_prefix =
        ap (λ (x : FileStore D). x.base_prefix) st.fields in
      rw base (
        Models-erase fs s.base_prefix t.disk index m key (
          Models-Extends fs s.base_prefix s.disk t.disk index m
            (Appended-Extends fs s t o _ _ _ _ st) h))

  -- `remove` of a key that sets off no compaction returns true, and the store then has nothing
  -- under the key and is otherwise unchanged.
  pub remove-Represents :
      (s : FileStore D) (policy : ℕ) (m : Contents) (clock : Clock) (key : Key)
      (stack_ttl stack_priority : ℕ)
      → Represents fs s policy m
      → CanRemove s key
      → ((remove fs s clock key stack_ttl stack_priority).1 ≡ true)
        × Represents fs (remove fs s clock key stack_ttl stack_priority).0 policy (set m key none)
  remove-Represents s policy m clock key stack_ttl stack_priority h can =
      let o = h.opened in
      let g = tombstone key stack_ttl stack_priority in
      let t = remove_record fs s clock key stack_ttl stack_priority in
      let st = remove_record-Appended s clock key stack_ttl stack_priority o.ready can.calm in
      let size : length (record_bytes g) ≡ header_size + length key + commit_size =
        length-record_bytes g ∙ (unfold record_size in omega arith) in
      let index : t.index ≡ erase key s.index = ap (λ (x : FileStore D). x.index) st.fields in
      rw (remove_legal s clock key stack_ttl stack_priority o.ready.mounted can.key_max) (
        refl,
        record {
          policy_ttl = ap (λ (x : FileStore D). x.policy_ttl_secs) st.fields ∙ h.policy_ttl;
          opened =
              Appended-IsOpen fs s t o g _ _ _ st
                (omega (arith, size, can.room, o.ready.offset, can.key_max))
                (omega (arith, size, can.room, o.ready.offset, can.key_max));
          items =
              rw index
                (remove-Models s clock key stack_ttl stack_priority o s.index m can.calm h.items);
        },
      )
