-- ===== src/Tests/View.antt =====
-- include/microStore/FileStore.h: calls on a store in memory against calls on the abstract state.
use micro_store.Base.{
  sym, sub32, ℕ, ◌≡◌, ◌≢◌, refl, true, false, Option, none, some, List, [], ◌∷◌, arith, bytes_eq,
}
use micro_store.Assoc.{lookup, assign, erase}
use micro_store.MemoryDisk.{Contents, memory}
use micro_store.MemoryDisk.Lawful.{memory-IsLawful}
use micro_store.FileStore.Files.{FilePath}
use micro_store.FileStore.Names.{codes, index_name, segment_name, prefix_sep, decimal, decimal_loop}
use mathlib.Core.Option.{some-injective}
use micro_store.FileStore.Names.Distinct.{names_apart}
use micro_store.FileStore.Index.{index_find, index_insert}
use micro_store.FileStore.State.{FileStore, Clock, flush_buffer, append_buffer, append_loop}
use micro_store.FileStore.IndexFile.{persist_index_entry}
use micro_store.FileStore.Operations.{
  put, put_record, rotate_segment_if_needed, append_record, put_indexed, count_dead, enforce_limit,
  put_entry, compact_if_threshold, put_header,
}
use micro_store.FileStore.Operations.Ready.{IsArgument}
use micro_store.FileStore.Layout.{le32, le16, encode_header}
use micro_store.FileStore.View.Rotate.{in_segment}
use micro_store.FileStore.Eviction.{is_ttl_expired}
use micro_store.FileStore.View.Remove.{CanRemove}
use micro_store.FileStore.View.Run.{
  Call, said, read, nothing, run_call, run_calls, replay_call, replay_calls, Abstract, AreAllowed,
  Shows, IsAllowed, call_put, call_remove, call_get, call_exists, call_set_ttl_secs,
  run_calls-replay_calls,
}

abbrev pub prefix : List ℕ
prefix = codes "p"

abbrev pub fresh : FileStore (Contents)
fresh = record {
  mounted = true;
  disk = (segment_name prefix 0, []) ∷ (index_name prefix, []) ∷ [];
  base_prefix = prefix;
  segment_size = 4096;
  segment_count = 3;
  active_file = some (segment_name prefix 0);
  index_file = some (index_name prefix);
  current_segment = 0;
  current_offset = 0;
  compact_in_cooldown = false;
  compact_cooldown_start_ms = 0;
  dead_since_compact = 0;
  policy_ttl_secs = 0;
  policy_max_recs = 0;
  write_buf = [];
  index = [];
}

abbrev pub at_noon : Clock
at_noon = record { now = 1000; millis = 5000 }

abbrev late : Clock
late = record { now = 2000; millis = 9000 }

-- A small value under a key of one byte.
abbrev put_at : ℕ → Clock × Call
put_at k = (at_noon, call_put (k ∷ []) (7 ∷ 8 ∷ []) 60 1000 0)

abbrev put_first : ℕ → FileStore Contents → FileStore Contents
put_first k s = (run_call memory s at_noon (call_put (k ∷ []) (7 ∷ 8 ∷ []) 60 1000 0)).0

abbrev stored_1 : FileStore Contents
stored_1 = put_first 1 fresh

abbrev stored_2 : FileStore Contents
stored_2 = put_first 2 stored_1

abbrev stored_3 : FileStore Contents
stored_3 = put_first 3 stored_2

abbrev stored_4 : FileStore Contents
stored_4 = put_first 4 stored_3

abbrev stored_5 : FileStore Contents
stored_5 = put_first 5 stored_4

pub small-IsArgument : (k : ℕ) → IsArgument (k ∷ []) (7 ∷ 8 ∷ []) 60 1000 0
small-IsArgument k = record {
  key_max = omega arith;
  value_max = omega arith;
  ttl_small = omega arith;
  ts_small = omega arith;
  priority_small = omega arith;
}

put_1-IsAllowed : IsAllowed memory fresh (call_put (1 ∷ []) (7 ∷ 8 ∷ []) 60 1000 0)
unfolding run_call put put_record rotate_segment_if_needed append_record put_indexed count_dead
    enforce_limit put_entry compact_if_threshold put_header flush_buffer append_buffer append_loop
    index_find index_insert lookup assign persist_index_entry le32 le16 encode_header bytes_eq
put_1-IsAllowed = (
  record { share = omega arith; small = omega arith },
  refl,
  small-IsArgument 1,
  in_segment (omega arith) (omega arith),
)

put_2-IsAllowed : IsAllowed memory stored_1 (call_put (2 ∷ []) (7 ∷ 8 ∷ []) 60 1000 0)
unfolding run_call put put_record rotate_segment_if_needed append_record put_indexed count_dead
    enforce_limit put_entry compact_if_threshold put_header flush_buffer append_buffer append_loop
    index_find index_insert lookup assign persist_index_entry le32 le16 encode_header bytes_eq
put_2-IsAllowed = (
  record { share = omega arith; small = omega arith },
  refl,
  small-IsArgument 2,
  in_segment (omega arith) (omega arith),
)

put_3-IsAllowed : IsAllowed memory stored_2 (call_put (3 ∷ []) (7 ∷ 8 ∷ []) 60 1000 0)
unfolding run_call put put_record rotate_segment_if_needed append_record put_indexed count_dead
    enforce_limit put_entry compact_if_threshold put_header flush_buffer append_buffer append_loop
    index_find index_insert lookup assign persist_index_entry le32 le16 encode_header bytes_eq
put_3-IsAllowed = (
  record { share = omega arith; small = omega arith },
  refl,
  small-IsArgument 3,
  in_segment (omega arith) (omega arith),
)

put_4-IsAllowed : IsAllowed memory stored_3 (call_put (4 ∷ []) (7 ∷ 8 ∷ []) 60 1000 0)
unfolding run_call put put_record rotate_segment_if_needed append_record put_indexed count_dead
    enforce_limit put_entry compact_if_threshold put_header flush_buffer append_buffer append_loop
    index_find index_insert lookup assign persist_index_entry le32 le16 encode_header bytes_eq
put_4-IsAllowed = (
  record { share = omega arith; small = omega arith },
  refl,
  small-IsArgument 4,
  in_segment (omega arith) (omega arith),
)

put_5-IsAllowed : IsAllowed memory stored_4 (call_put (5 ∷ []) (7 ∷ 8 ∷ []) 60 1000 0)
unfolding run_call put put_record rotate_segment_if_needed append_record put_indexed count_dead
    enforce_limit put_entry compact_if_threshold put_header flush_buffer append_buffer append_loop
    index_find index_insert lookup assign persist_index_entry le32 le16 encode_header bytes_eq
put_5-IsAllowed = (
  record { share = omega arith; small = omega arith },
  refl,
  small-IsArgument 5,
  in_segment (omega arith) (omega arith),
)

remove_1-CanRemove : CanRemove stored_5 (1 ∷ [])
unfolding run_call put put_record rotate_segment_if_needed append_record put_indexed count_dead
    enforce_limit put_entry compact_if_threshold put_header flush_buffer append_buffer append_loop
    index_find index_insert lookup assign persist_index_entry le32 le16 encode_header bytes_eq erase
remove_1-CanRemove = record {
  calm = record { share = omega arith; small = omega arith };
  room = omega arith;
  key_max = omega arith;
}

-- Five keys, one of which is removed again.
abbrev pub calls : List (Clock × Call)
calls =
    put_at 1
    ∷ put_at 2
    ∷ put_at 3
    ∷ put_at 4
    ∷ put_at 5
    ∷ (at_noon, call_remove (1 ∷ []) 0 0)
    ∷ (at_noon, call_exists (1 ∷ []))
    ∷ (at_noon, call_get (2 ∷ []) 16)
    ∷ (at_noon, call_set_ttl_secs 5)
    ∷ (late, call_get (3 ∷ []) 1)
    ∷ []

pub calls-AreAllowed : AreAllowed memory fresh calls
calls-AreAllowed = (
  put_1-IsAllowed,
  (
    put_2-IsAllowed,
    (
      put_3-IsAllowed,
      (
        put_4-IsAllowed,
        (
          put_5-IsAllowed,
          (remove_1-CanRemove, (omega arith, (omega arith, (tt, (omega arith, tt))))),
        ),
      ),
    ),
  ),
)

-- Nothing is stored yet.
abbrev pub nothing_stored : Abstract
nothing_stored = record { policy = 0; contents = λ k. none }

segment_is_there : memory.open_read fresh.disk (segment_name prefix 0) ≡ some []
unfolding memory lookup segment_name bytes_eq prefix_sep decimal decimal_loop
segment_is_there = refl

index_apart :
    (seg : ℕ)
    → ◌≢◌ {A = Option FilePath} (some (index_name prefix)) (some (segment_name prefix seg))
index_apart seg e =
    (names_apart prefix seg (omega arith)).0
      (sym (some-injective (index_name prefix) (segment_name prefix seg) e))

pub fresh-Shows : Shows memory fresh nothing_stored
unfolding lookup
fresh-Shows = record {
  policy_ttl = refl;
  opened = record {
    ready = record {
      mounted = refl;
      no_buffer = refl;
      active = refl;
      bytes = [];
      on_disk = segment_is_there;
      offset = refl;
      segment_small = omega arith;
      offset_small = omega arith;
      index_apart = index_apart 0;
    };
    apart = index_apart;
  };
  items = record { present = λ k v at. absurd (ground arith); absent = λ k at. refl };
}

-- What the calls answer.
answers :
    (replay_calls nothing_stored calls).1
    ≡ said true
      ∷ said true
      ∷ said true
      ∷ said true
      ∷ said true
      ∷ said true
      ∷ said false
      ∷ read (some (record { copied = 7 ∷ 8 ∷ []; size = 2 }))
      ∷ nothing
      ∷ read none
      ∷ []
unfolding replay_calls replay_call bytes_eq is_ttl_expired sub32
answers = refl

run_calls-replay_calls_example :
    ((run_calls memory fresh calls).1 ≡ (replay_calls nothing_stored calls).1)
    × Shows memory (run_calls memory fresh calls).0 (replay_calls nothing_stored calls).0
run_calls-replay_calls_example =
    run_calls-replay_calls memory memory-IsLawful fresh nothing_stored calls fresh-Shows
      calls-AreAllowed
