-- ===== src/Tests/EmptyKey.antt =====
-- include/microStore/FileStore.h: the empty key in a store whose segment has one record.
use micro_store.Base.{ℕ, ◌+◌, ◌<◌, ◌≡◌, refl, true, some, List, [], ◌∷◌, arith, length, bytes_eq}
use micro_store.Assoc.{lookup}
use micro_store.MemoryDisk.{Contents, memory}
use micro_store.MemoryDisk.Lawful.{memory-IsLawful}
use micro_store.FileStore.Layout.{encode_header, le16, le32, header_size, commit_size}
use micro_store.FileStore.Names.{segment_name, prefix_sep, decimal, decimal_loop}
use micro_store.FileStore.State.{FileStore}
use micro_store.FileStore.Scan.Log.{log_bytes, record_bytes}
use micro_store.FileStore.Operations.{put}
use micro_store.FileStore.Operations.Quiet.{IsQuiet}
use micro_store.FileStore.Operations.Ready.{IsReady, IsArgument}
use micro_store.FileStore.Operations.EmptyKey.{EndsWith, put_empty_key-walk}
use micro_store.Tests.Files.{one_record, one_record-IsLegal}
use micro_store.Tests.Store.{prefix, opened_on, at_noon, no_index_file}

-- The file of segment 0 with one record.
abbrev one_log : List ℕ
one_log = log_bytes (one_record ∷ [])

abbrev logged_once : FileStore Contents
logged_once = record (opened_on ((segment_name prefix 0, one_log) ∷ [])) {
  current_offset = length one_log;
}

log_is_there : memory.open_read logged_once.disk (segment_name prefix 0) ≡ some one_log
unfolding memory lookup segment_name bytes_eq prefix_sep decimal decimal_loop
log_is_there = refl

logged_once-IsReady : IsReady memory logged_once
unfolding log_bytes record_bytes encode_header le32 le16
logged_once-IsReady = record {
  mounted = refl;
  no_buffer = refl;
  active = refl;
  bytes = one_log;
  on_disk = log_is_there;
  offset = refl;
  segment_small = omega arith;
  offset_small = omega arith;
  index_apart = no_index_file;
}

logged_once-IsQuiet : IsQuiet logged_once []
unfolding lookup bytes_eq
logged_once-IsQuiet = record { share = omega arith; small = omega arith }

empty_key-IsArgument : IsArgument [] (7 ∷ 8 ∷ []) 60 1000 0
empty_key-IsArgument = record {
  key_max = omega arith;
  value_max = omega arith;
  ttl_small = omega arith;
  ts_small = omega arith;
  priority_small = omega arith;
}

log_has_room :
    logged_once.current_offset + length {A = ℕ} (7 ∷ 8 ∷ []) + header_size + commit_size
    < logged_once.segment_size
unfolding log_bytes record_bytes encode_header le32 le16
log_has_room = omega arith

put_empty_key-walk_example :
    ((put memory logged_once at_noon [] (7 ∷ 8 ∷ []) 60 1000 0).1 ≡ true)
    × ((after : List ℕ) × ((memory.open_read
              (put memory logged_once at_noon [] (7 ∷ 8 ∷ []) 60 1000 0).0.disk
              (segment_name prefix 0)
            ≡ some after)
          × EndsWith after (one_record ∷ [])))
put_empty_key-walk_example =
    put_empty_key-walk memory memory-IsLawful logged_once at_noon (7 ∷ 8 ∷ []) 60 1000 0
      (one_record ∷ []) logged_once-IsReady logged_once-IsQuiet empty_key-IsArgument refl
      log_has_room (one_record-IsLegal, tt) log_is_there
