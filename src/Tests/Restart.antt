-- ===== src/Tests/Restart.antt =====
-- include/microStore/FileStore.h: a store in memory that is used, closed and started again.
use micro_store.Base.{
  List, ◌^◌, ℕ, ◌+◌, ◌≤◌, ◌<◌, ◌≡◌, refl, true, false, none, [], ◌∷◌, arith, length, bytes_eq,
  sub32, get_or, ◌-◌, ◌==◌,
}
use micro_store.Assoc.{lookup, assign, erase}
use micro_store.MemoryDisk.{open_or_make, remove_from, Contents, memory, append_to}
use micro_store.MemoryDisk.Lawful.{memory-IsLawful}
use micro_store.FileStore.Layout.{le32, le16, encode_header}
use micro_store.FileStore.Files.{FilePath, write_chunks}
use micro_store.FileStore.Files.Lawful.{or_empty}
use micro_store.FileStore.Names.{
  index_name, journal_name, segment_name, prefix_sep, decimal, decimal_loop,
}
use micro_store.FileStore.Index.{
  of_uint24, to_uint24, index_value, index_find, index_insert, index_remove,
}
use micro_store.FileStore.IndexFile.{
  load_index, load_from, write_index_bulk, bulk_chunks, open_index_for_append, persist_index_entry,
  entry_chunks,
}
use micro_store.FileStore.State.{prune_index, FileStore, flush_buffer, append_buffer, append_loop}
use micro_store.FileStore.Recovery.{
  init, close, init_files, make_folder, recover_if_needed, recover_opened,
  rebuild_index_from_segments, open_segment, resume_segment,
}
use micro_store.FileStore.Operations.{
  put, put_record, rotate_segment_if_needed, append_record, put_indexed, count_dead, enforce_limit,
  put_entry, compact_if_threshold, put_header, remove, remove_record, remove_indexed, get,
  get_found, exists, set_ttl_secs, tombstone_header,
}
use micro_store.FileStore.Eviction.{prune, is_ttl_expired}
use micro_store.FileStore.View.Append.{Represents}
use micro_store.FileStore.View.New.{IsNew, Begun, no_items, init-IsNew}
use micro_store.FileStore.Scan.{scan_files, scan_file, scan_opened}
use micro_store.FileStore.View.Rotate.{in_segment}
use micro_store.FileStore.State.{Clock}
use micro_store.Tests.View.{small-IsArgument}
use micro_store.FileStore.View.Run.{replay_calls}
use micro_store.FileStore.View.Saved.{Saved}
use micro_store.FileStore.View.Start.{CanStart}
use micro_store.FileStore.View.Run.{
  AreAllowed, IsAllowed, Call, call_put, call_get, run_call, run_calls, Shows,
}
use micro_store.FileStore.View.Restart.{keep_calls, init-run_calls-init}
use micro_store.Tests.View.{at_noon, prefix, fresh}

-- All bytes of all files.
abbrev total : Contents → ℕ
total [] = 0
total ((name, bytes) ∷ d) = length bytes + total d

length-lookup_le : (q : FilePath) (d : Contents) → length (or_empty (lookup q d)) ≤ total d
unfolding lookup
length-lookup_le q [] = omega arith
length-lookup_le q ((name, bytes) ∷ d) = ground (arith, length-lookup_le q d)

-- A store before its first `init`, on a disk without files.
abbrev unused : FileStore Contents
unused = record fresh { mounted = false; disk = []; active_file = none; index_file = none }

unused-IsNew : IsNew memory unused prefix 0
unfolding memory lookup
unused-IsNew = record {
  empty = refl;
  idle = refl;
  no_limit = refl;
  few = omega arith;
  short = omega arith;
  no_folder = refl;
  no_segment = λ seg. refl;
  no_index = refl;
  no_journal = refl;
}

init-IsNew_example :
    ((init memory unused prefix false 0 0).1 ≡ true)
    × Represents memory (init memory unused prefix false 0 0).0 0 no_items
    × Saved memory (init memory unused prefix false 0 0).0 no_items
    × Begun memory (init memory unused prefix false 0 0).0 prefix
init-IsNew_example = init-IsNew memory memory-IsLawful unused prefix 0 0 unused-IsNew

abbrev begun : FileStore Contents
begun = (init memory unused prefix false 0 0).0

abbrev few_calls : List (Clock × Call)
few_calls =
    (at_noon, call_put (1 ∷ []) (7 ∷ 8 ∷ []) 60 1000 0)
    ∷ (at_noon, call_put (2 ∷ []) (7 ∷ 8 ∷ []) 60 1000 0)
    ∷ (at_noon, call_get (1 ∷ []) 16)
    ∷ []

begun_1-IsAllowed : IsAllowed memory begun (call_put (1 ∷ []) (7 ∷ 8 ∷ []) 60 1000 0)
unfolding run_calls run_call put put_record rotate_segment_if_needed append_record put_indexed
    count_dead enforce_limit put_entry compact_if_threshold put_header flush_buffer append_buffer
    append_loop index_find index_insert index_remove lookup assign erase persist_index_entry le32
    le16 encode_header bytes_eq remove remove_record remove_indexed get get_found exists
    set_ttl_secs tombstone_header memory append_to write_chunks entry_chunks index_name segment_name
    prefix_sep decimal decimal_loop is_ttl_expired sub32 of_uint24 to_uint24 index_value init
    init_files make_folder recover_if_needed recover_opened load_index load_from
    rebuild_index_from_segments scan_files scan_file scan_opened write_index_bulk bulk_chunks
    prune_index prune open_index_for_append open_segment resume_segment journal_name open_or_make
    remove_from
begun_1-IsAllowed = (
  record { share = omega arith; small = omega arith },
  refl,
  small-IsArgument 1,
  in_segment (omega arith) (omega arith),
)

begun_2-IsAllowed :
    IsAllowed memory
      (run_call memory begun at_noon (call_put (1 ∷ []) (7 ∷ 8 ∷ []) 60 1000 0)).0
      (call_put (2 ∷ []) (7 ∷ 8 ∷ []) 60 1000 0)
unfolding run_calls run_call put put_record rotate_segment_if_needed append_record put_indexed
    count_dead enforce_limit put_entry compact_if_threshold put_header flush_buffer append_buffer
    append_loop index_find index_insert index_remove lookup assign erase persist_index_entry le32
    le16 encode_header bytes_eq remove remove_record remove_indexed get get_found exists
    set_ttl_secs tombstone_header memory append_to write_chunks entry_chunks index_name segment_name
    prefix_sep decimal decimal_loop is_ttl_expired sub32 of_uint24 to_uint24 index_value init
    init_files make_folder recover_if_needed recover_opened load_index load_from
    rebuild_index_from_segments scan_files scan_file scan_opened write_index_bulk bulk_chunks
    prune_index prune open_index_for_append open_segment resume_segment journal_name open_or_make
    remove_from
begun_2-IsAllowed = (
  record { share = omega arith; small = omega arith },
  refl,
  small-IsArgument 2,
  in_segment (omega arith) (omega arith),
)

few_calls-AreAllowed : AreAllowed memory begun few_calls
few_calls-AreAllowed = (begun_1-IsAllowed, (begun_2-IsAllowed, (omega arith, tt)))

abbrev ended : FileStore Contents
ended = (run_calls memory begun few_calls).0

ended-total : total ended.disk < 2 ^ 24
unfolding run_calls run_call put put_record rotate_segment_if_needed append_record put_indexed
    count_dead enforce_limit put_entry compact_if_threshold put_header flush_buffer append_buffer
    append_loop index_find index_insert index_remove lookup assign erase persist_index_entry le32
    le16 encode_header bytes_eq remove remove_record remove_indexed get get_found exists
    set_ttl_secs tombstone_header memory append_to write_chunks entry_chunks index_name segment_name
    prefix_sep decimal decimal_loop is_ttl_expired sub32 of_uint24 to_uint24 index_value init
    init_files make_folder recover_if_needed recover_opened load_index load_from
    rebuild_index_from_segments scan_files scan_file scan_opened write_index_bulk bulk_chunks
    prune_index prune open_index_for_append open_segment resume_segment journal_name open_or_make
    remove_from
ended-total = omega arith

ended-no_folder : (get_or ended.base_prefix (length ended.base_prefix - 1) 0 == b'/') ≡ false
unfolding run_calls run_call put put_record rotate_segment_if_needed append_record put_indexed
    count_dead enforce_limit put_entry compact_if_threshold put_header flush_buffer append_buffer
    append_loop index_find index_insert index_remove lookup assign erase persist_index_entry le32
    le16 encode_header bytes_eq remove remove_record remove_indexed get get_found exists
    set_ttl_secs tombstone_header memory append_to write_chunks entry_chunks index_name segment_name
    prefix_sep decimal decimal_loop is_ttl_expired sub32 of_uint24 to_uint24 index_value init
    init_files make_folder recover_if_needed recover_opened load_index load_from
    rebuild_index_from_segments scan_files scan_file scan_opened write_index_bulk bulk_chunks
    prune_index prune open_index_for_append open_segment resume_segment journal_name open_or_make
    remove_from
ended-no_folder = refl

ended-small :
    (seg : ℕ)
    → length (or_empty (memory.open_read ended.disk (segment_name ended.base_prefix seg))) < 2 ^ 24
unfolding memory
ended-small seg =
    omega (arith, ended-total, length-lookup_le (segment_name ended.base_prefix seg) ended.disk)

-- A store before its `init`, on the disk that the closed store leaves.
abbrev next : FileStore Contents
next = record unused { disk = (close memory ended).disk }

next-CanStart : CanStart memory memory-IsLawful ended next 0
next-CanStart = record {
  empty = refl;
  idle = refl;
  no_limit = refl;
  few = omega arith;
  no_folder = ended-no_folder;
  small = ended-small;
}

init-run_calls-init_example :
    ((run_calls memory begun few_calls).1
      ≡ (replay_calls (record { policy = 0; contents = no_items }) few_calls).1)
    × ((init memory next ended.base_prefix false 0 0).1 ≡ true)
    × Shows memory
        (init memory next ended.base_prefix false 0 0).0
        (record { policy = 0; contents = keep_calls no_items few_calls })
init-run_calls-init_example =
    init-run_calls-init memory memory-IsLawful unused prefix 0 0 few_calls next 0 0 unused-IsNew
      few_calls-AreAllowed next-CanStart refl
