-- ===== src/FileStore/State.antt =====
-- FileStore.h: the state of a store, and the writes through its buffer.
pub mod Buffer
use micro_store.Base.{
  ℕ, zero, suc, ◌+◌, ◌-◌, ◌%◌, ◌^◌, min, Bool, true, false, Option, none, some, List, [], ◌∷◌, ◌++◌,
  length, take, drop, ◌==◌, if◌then◌else◌,
}
use micro_store.FileStore.Layout.{write_buffer_size}
use micro_store.FileStore.Files.{FilePath, FileSystem}
use micro_store.FileStore.Index.{IndexMap}
use micro_store.FileStore.Eviction.{prune}

-- `mounted` says that `_filesystem` is set; a file is the name that it was opened under, or none.
pub record FileStore (D : Type 0) : Type 0 where
  pub mounted : Bool
  pub disk : D
  pub base_prefix : List ℕ
  pub segment_size : ℕ
  pub segment_count : ℕ
  pub active_file : Option FilePath
  pub index_file : Option FilePath
  pub current_segment : ℕ
  pub current_offset : ℕ
  pub compact_in_cooldown : Bool
  pub compact_cooldown_start_ms : ℕ
  pub dead_since_compact : ℕ
  pub policy_ttl_secs : ℕ
  pub policy_max_recs : ℕ
  pub write_buf : List ℕ
  pub index : IndexMap

-- The clock in seconds and in milliseconds, read once in a call.
pub record Clock : Type 0 where
  pub now : ℕ
  pub millis : ℕ

module _ {D : Type 0} (fs : FileSystem D) where
  flush_to : FileStore D → Option FilePath → FileStore D × Bool
  flush_to s none = (record s { write_buf = [] }, false)
  flush_to s (some file) =
      (record s { disk = (fs.write s.disk file s.write_buf).0; write_buf = [] }, true)

  unfoldable pub flush_buffer : FileStore D → FileStore D × Bool
  unfolding flush_to
  flush_buffer s = if length s.write_buf == 0 then (s, true) else flush_to s s.active_file

  -- One round of the loop takes at least one byte, so a round for each byte is enough.
  unfoldable pub append_loop : ℕ → FileStore D → List ℕ → FileStore D
  append_loop zero s bytes = s
  append_loop (suc f) s [] = s
  append_loop (suc f) s (b ∷ bs) =
      let n = min (length (b ∷ bs)) (write_buffer_size - length s.write_buf) in
      let filled : FileStore D = record s { write_buf = s.write_buf ++ take n (b ∷ bs) } in
      append_loop f
        (if length filled.write_buf == write_buffer_size then (flush_buffer filled).0 else filled)
        (drop n (b ∷ bs))

  unfoldable pub append_buffer : FileStore D → List ℕ → FileStore D
  append_buffer s bytes = append_loop (length bytes) s bytes

-- `prune_index_to_max_recs_`
unfoldable pub prune_index : {D : Type 0} → FileStore D → FileStore D × ℕ
prune_index s =
    let (index, evicted) = prune s.policy_ttl_secs s.policy_max_recs s.index in
    (
      record s { index = index; dead_since_compact = (s.dead_since_compact + evicted) % 2 ^ 32 },
      evicted,
    )
