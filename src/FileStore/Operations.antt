-- ===== src/FileStore/Operations.antt =====
-- FileStore.h: the operations of a store that is in use.
pub mod EmptyKey
pub mod Append
pub mod Quiet
pub mod Indexed
pub mod Ready
pub mod Stored
pub mod PutGet
use micro_store.Base.{
  ℕ, zero, suc, ◌+◌, ◌-◌, ◌*◌, ◌/◌, ◌%◌, ◌^◌, min, Bool, true, false, ◌&&◌, ◌||◌, not, Option, none,
  some, List, [], ◌∷◌, ◌++◌, length, take, drop, replicate, ltb, leb, ◌==◌, if◌then◌else◌, sub32,
}
use micro_store.Assoc.{Key}
use micro_store.Utility.{crc32}
use micro_store.FileStore.Layout.{
  RecordHeader, encode_header, decode_header, le32, magic_record, magic_commit, flag_delete,
  max_key_len, max_value_len, header_size, commit_size,
}
use micro_store.FileStore.Files.{FilePath, FileSystem, read_exact}
use micro_store.FileStore.Names.{segment_name}
use micro_store.FileStore.Index.{
  IndexValue, IndexMap, of_uint24, index_find, index_insert, index_remove,
}
use micro_store.FileStore.Eviction.{is_ttl_expired}
use micro_store.FileStore.State.{FileStore, Clock, flush_buffer, append_buffer, prune_index}
use micro_store.FileStore.IndexFile.{◌>>=◌, guard, IndexEntry, persist_index_entry}
use micro_store.FileStore.Compaction.{compact}
use micro_store.FileStore.Recovery.{open_segment}

-- USTORE_COMPACT_RETRY_MS, USTORE_COMPACT_THRESHOLD
abbrev pub compact_retry_ms : ℕ
compact_retry_ms = 60000

abbrev pub compact_threshold : ℕ
compact_threshold = 25

-- The three checksums of `put`: of the header up to its last field, of the key, of the value.
unfoldable pub record_crc : RecordHeader → Key → List ℕ → ℕ
record_crc h key value =
    crc32 (crc32 (crc32 0 (some (take (header_size - 4) (encode_header h)))) (some key))
      (some value)

-- The header that `put` writes.
unfoldable pub put_header : Key → List ℕ → ℕ → ℕ → ℕ → RecordHeader
put_header key value ttl ts priority =
    let h : RecordHeader = record {
      magic = magic_record;
      flags = 0;
      key_len = length key;
      value_len = length value;
      timestamp = ts;
      ttl = ttl;
      priority = priority;
      crc = 0;
    } in
    record h { crc = record_crc h key value }

-- The two checksums of `remove`.
unfoldable pub tombstone_crc : RecordHeader → Key → ℕ
tombstone_crc h key = crc32 (crc32 0 (some (take (header_size - 4) (encode_header h)))) (some key)

-- The header of a tombstone. `remove` leaves the fields `ttl` and `priority` as the stack had them.
unfoldable pub tombstone_header : Key → ℕ → ℕ → RecordHeader
tombstone_header key stack_ttl stack_priority =
    let h : RecordHeader = record {
      magic = magic_record;
      flags = flag_delete;
      key_len = length key;
      value_len = 0;
      timestamp = 0;
      ttl = stack_ttl;
      priority = stack_priority;
      crc = 0;
    } in
    record h { crc = tombstone_crc h key }

module _ {D : Type 0} (fs : FileSystem D) where
  -- The last segment again, after a compaction that was put off or failed.
  stay_in_last : FileStore D → FileStore D × Bool
  stay_in_last s =
      let last = sub32 s.segment_count 1 in
      ((open_segment fs (record s { current_segment = last }) last).0, false)

  -- The compaction at the end of the segments.
  rotate_by_compaction : FileStore D → Clock → FileStore D × Bool
  unfolding stay_in_last
  rotate_by_compaction s clock =
      let (c, ok) = compact fs s clock in
      let failed =
        stay_in_last
          (record c { compact_in_cooldown = true; compact_cooldown_start_ms = clock.millis }) in
      let fresh =
        (open_segment fs (record c { compact_in_cooldown = false; current_segment = 1 }) 1).0 in
      if s.compact_in_cooldown
        && ltb (sub32 clock.millis s.compact_cooldown_start_ms) compact_retry_ms
      then stay_in_last s
      else if ok
      then (fresh, true)
      else failed

  unfoldable pub rotate_segment_if_needed : FileStore D → Clock → ℕ → FileStore D × Bool
  unfolding rotate_by_compaction
  rotate_segment_if_needed s clock write_size =
      let flushed = (flush_buffer fs s).0 in
      let next : FileStore D = record flushed {
        active_file = none;
        current_segment = (flushed.current_segment + 1) % 2 ^ 32;
      } in
      let compacted = rotate_by_compaction next clock in
      let opened = (open_segment fs next next.current_segment).0 in
      if ltb ((s.current_offset + write_size) % 2 ^ 32 + header_size + commit_size) s.segment_size
      then (s, true)
      else if leb next.segment_count next.current_segment
      then compacted
      else (opened, true)

  unfoldable pub compact_if_threshold : FileStore D → Clock → FileStore D
  compact_if_threshold s clock =
      let total = (length s.index + s.dead_since_compact) % 2 ^ 32 in
      let (c, ok) = compact fs s clock in
      let after = if ok then (open_segment fs (record c { current_segment = 1 }) 1).0 else c in
      if ltb 0 total && leb compact_threshold (s.dead_since_compact * 100 % 2 ^ 32 / total)
      then after
      else s

  -- The record on its way to the file: header, key, value and commit mark.
  unfoldable pub append_record : FileStore D → RecordHeader → Key → List ℕ → FileStore D
  append_record s h key value =
      append_buffer fs
        (append_buffer fs (append_buffer fs (append_buffer fs s (encode_header h)) key) value)
        (le32 magic_commit)

  pub count_found : FileStore D → Option IndexValue → FileStore D
  count_found s none = s
  count_found s (some e) = record s { dead_since_compact = (s.dead_since_compact + 1) % 2 ^ 32 }

  -- `if (index_find(key, key_len)) _dead_since_compact++`
  unfoldable pub count_dead : FileStore D → Key → FileStore D
  unfolding count_found
  count_dead s key = count_found s (index_find key s.index)

  -- The check of the limit on the records.
  unfoldable pub enforce_limit : FileStore D → FileStore D
  enforce_limit s =
      if ltb 0 s.policy_max_recs && ltb s.policy_max_recs (length s.index)
      then (prune_index s).0
      else s

  -- The end of `put`: the entry for the index file, the new offset, and perhaps a compaction.
  unfoldable pub put_entry : FileStore D → Clock → Key → List ℕ → ℕ → ℕ → ℕ → ℕ → FileStore D
  put_entry s clock key value offset ttl ts priority =
      let entry : IndexEntry = record {
        key = key;
        seg = s.current_segment;
        off = offset;
        ts = ts;
        ttl = ttl;
        priority = priority;
      } in
      let p = (persist_index_entry fs s entry).0 in
      compact_if_threshold
        (record p {
          current_offset =
              (p.current_offset + header_size + length key + length value + commit_size) % 2 ^ 32;
        })
        clock

  -- `put` once the record is in the file at the offset.
  unfoldable pub put_indexed : FileStore D → Clock → Key → List ℕ → ℕ → ℕ → ℕ → ℕ → FileStore D
  put_indexed s clock key value offset ttl ts priority =
      let d = count_dead s key in
      put_entry
        (enforce_limit
          (record d { index = index_insert key d.current_segment offset ts ttl priority d.index }))
        clock key value offset ttl ts priority

  -- `put` of a legal key and value.
  unfoldable pub put_record : FileStore D → Clock → Key → List ℕ → ℕ → ℕ → ℕ → FileStore D × Bool
  put_record s clock key value ttl ts priority =
      let r = (rotate_segment_if_needed s clock (length value)).0 in
      let (f, flushed) =
        flush_buffer fs (append_record r (put_header key value ttl ts priority) key value) in
      if flushed
      then (put_indexed f clock key value r.current_offset ttl ts priority, true)
      else (f, false)

  unfoldable pub put : FileStore D → Clock → Key → List ℕ → ℕ → ℕ → ℕ → FileStore D × Bool
  put s clock key value ttl ts priority =
      let stored = put_record s clock key value ttl ts priority in
      if not s.mounted
      then (s, false)
      else if ltb max_key_len (length key)
      then (s, false)
      else if ltb max_value_len (length value)
      then (s, false)
      else stored

  -- `put` of two vectors: the sizes are cast to `uint8_t` and `uint16_t`.
  unfoldable pub put_vector : FileStore D → Clock → Key → List ℕ → ℕ → ℕ → ℕ → FileStore D × Bool
  put_vector s clock key value ttl ts priority =
      put s clock (take (length key % 2 ^ 8) key) (take (length value % 2 ^ 16) value) ttl ts
        priority

-- What `get` leaves to its caller: the bytes copied to `out` and the value's size.
pub record Fetched : Type 0 where
  pub copied : List ℕ
  pub size : ℕ

-- The reads of `get` from a segment's bytes.
unfoldable pub fetch : List ℕ → ℕ → Bool → ℕ → Option Fetched
fetch bytes off with_out size = do
  (h, _) ← read_exact header_size (drop off bytes)
  let hdr = decode_header h
  _ ← guard (
      hdr.magic == magic_record && (leb hdr.key_len max_key_len && leb hdr.value_len max_value_len))
  (value, _) ←
      read_exact (if with_out then min hdr.value_len size else 0)
        (drop (off + header_size + hdr.key_len) bytes)
  some (record { copied = value; size = hdr.value_len })

unfoldable pub fetch_from : Option (List ℕ) → ℕ → Bool → ℕ → Option Fetched
fetch_from none off with_out size = none
fetch_from (some bytes) off with_out size = fetch bytes off with_out size

-- `get` of a vector into a vector: a buffer of the largest value, cut to the size read.
unfoldable pub resized : Option Fetched → Option (List ℕ)
resized none = none
resized (some f) = some (take f.size (f.copied ++ replicate max_value_len 0))

module _ {D : Type 0} (fs : FileSystem D) where
  unfoldable pub get_found :
      FileStore D → Clock → Key → Bool → ℕ → Option IndexValue → FileStore D × Option Fetched
  unfolding fetch_from
  get_found s clock key with_out size none = (s, none)
  get_found s clock key with_out size (some e) =
      if is_ttl_expired s.policy_ttl_secs clock.now e.timestamp (of_uint24 e.ttl)
      then (record s { index = index_remove key s.index }, none)
      else (
        s,
        fetch_from (fs.open_read s.disk (segment_name s.base_prefix e.segment)) (of_uint24 e.offset)
            with_out size,
      )

  -- `none` stands for the result false.
  unfoldable pub get : FileStore D → Clock → Key → Bool → ℕ → FileStore D × Option Fetched
  unfolding get_found
  get s clock key with_out size =
      let f = (flush_buffer fs s).0 in
      let found = get_found f clock key with_out size (index_find key f.index) in
      if not s.mounted then (s, none) else if ltb max_key_len (length key) then (s, none) else found

  unfoldable pub get_vector : FileStore D → Clock → Key → FileStore D × Option (List ℕ)
  get_vector s clock key =
      let (s', f) = get s clock (take (length key % 2 ^ 8) key) true max_value_len in
      (s', resized f)

  -- `remove` once the tombstone is in the file.
  unfoldable pub remove_indexed : FileStore D → Clock → Key → FileStore D
  remove_indexed s clock key =
      let d = count_dead fs s key in
      let r : FileStore D = record d { index = index_remove key d.index } in
      let entry : IndexEntry = record {
        key = key;
        seg = 0xffff_ffff;
        off = 0;
        ts = 0;
        ttl = 0;
        priority = 0;
      } in
      let p = (persist_index_entry fs r entry).0 in
      compact_if_threshold fs
        (record p {
          current_offset = (p.current_offset + header_size + length key + commit_size) % 2 ^ 32;
        })
        clock

  -- `remove` of a legal key.
  unfoldable pub remove_record : FileStore D → Clock → Key → ℕ → ℕ → FileStore D
  remove_record s clock key stack_ttl stack_priority =
      remove_indexed
        (flush_buffer fs
          (append_record fs s (tombstone_header key stack_ttl stack_priority) key [])).0
        clock key

  unfoldable pub remove : FileStore D → Clock → Key → ℕ → ℕ → FileStore D × Bool
  remove s clock key stack_ttl stack_priority =
      let removed = remove_record s clock key stack_ttl stack_priority in
      if not s.mounted
      then (s, false)
      else if ltb max_key_len (length key)
      then (s, false)
      else (removed, true)

module _ {D : Type 0} where
  unfoldable pub exists : FileStore D → Clock → Key → FileStore D × Bool
  exists s clock key =
      let found : FileStore D × Bool = elim (index_find key s.index) [
        | none ↦ (s, false)
        | some e ↦
            if is_ttl_expired s.policy_ttl_secs clock.now e.timestamp (of_uint24 e.ttl)
            then (record s { index = index_remove key s.index }, false)
            else (s, true)
      ] in
      if not s.mounted
      then (s, false)
      else if ltb max_key_len (length key)
      then (s, false)
      else found

  unfoldable pub size : FileStore D → ℕ
  size s = if s.mounted then length s.index else 0

  unfoldable pub set_ttl_secs : FileStore D → ℕ → FileStore D
  set_ttl_secs s ttl_s = record s { policy_ttl_secs = ttl_s }

  unfoldable pub set_max_recs : FileStore D → ℕ → FileStore D
  set_max_recs s max_recs = record s { policy_max_recs = max_recs }
