-- ===== src/Tests/Store.antt =====
-- include/microStore/FileStore.h: a store over files in memory, in use and after a crash.
use micro_store.Base.{
  ℕ, ◌≡◌, ◌≢◌, refl, sym, true, false, Option, none, some, List, [], ◌∷◌, ◌++◌, arith, length, take,
  min, bytes_eq,
}
use micro_store.Assoc.{lookup}
use micro_store.MemoryDisk.{Contents, memory}
use micro_store.MemoryDisk.Lawful.{memory-IsLawful}
use micro_store.FileStore.Layout.{encode_journal}
use micro_store.FileStore.Files.{FilePath}
use micro_store.FileStore.Names.{
  codes, segment_name, index_name, journal_name, tmp_name, prefix_sep, decimal, decimal_loop,
}
use micro_store.FileStore.Names.Distinct.{segment_names_differ, names_apart}
use micro_store.FileStore.Index.{IndexValue, index_value}
use micro_store.FileStore.Eviction.{is_ttl_expired}
use micro_store.FileStore.State.{FileStore, Clock, append_buffer}
use micro_store.FileStore.State.Buffer.{Pending, Frame, append_buffer-Pending}
use micro_store.FileStore.Compaction.{journal_commit, journal_compacting}
use micro_store.FileStore.Recovery.{recover_if_needed}
use micro_store.FileStore.Recovery.Crash.{
  journal_of, recover_commit, recover_commit_again, recover_committed_segments, recover_uncommitted,
}
use micro_store.FileStore.Operations.{put, get}
use micro_store.FileStore.Operations.Ready.{IsReady, IsArgument}
use micro_store.FileStore.Operations.Quiet.{IsQuiet}
use micro_store.FileStore.Operations.PutGet.{get-put}

abbrev pub prefix : List ℕ
prefix = codes "p"

abbrev sample : IndexValue
sample = index_value 1 0 900 0 0

-- A store that has just been opened on its empty segment 0, on the given files.
abbrev pub opened_on : Contents → FileStore Contents
opened_on files = record {
  mounted = true;
  disk = files;
  base_prefix = prefix;
  segment_size = 4096;
  segment_count = 3;
  active_file = some (segment_name prefix 0);
  index_file = none;
  current_segment = 0;
  current_offset = 0;
  compact_in_cooldown = false;
  compact_cooldown_start_ms = 0;
  dead_since_compact = 0;
  policy_ttl_secs = 0;
  policy_max_recs = 0;
  write_buf = [];
  index =
      (1 ∷ [], sample)
      ∷ (2 ∷ [], sample)
      ∷ (3 ∷ [], sample)
      ∷ (4 ∷ [], sample)
      ∷ (5 ∷ [], sample)
      ∷ [];
}

abbrev one_segment : FileStore Contents
one_segment = opened_on ((segment_name prefix 0, []) ∷ [])

abbrev pub at_noon : Clock
at_noon = record { now = 1000; millis = 5000 }

segment_is_there : memory.open_read one_segment.disk (segment_name prefix 0) ≡ some []
unfolding memory lookup segment_name bytes_eq prefix_sep decimal decimal_loop
segment_is_there = refl

pub no_index_file : ◌≢◌ {A = Option FilePath} none (some (segment_name prefix 0))
no_index_file e = absurd (ground arith)

one_segment-IsReady : IsReady memory one_segment
one_segment-IsReady = record {
  mounted = refl;
  no_buffer = refl;
  active = refl;
  bytes = [];
  on_disk = segment_is_there;
  offset = refl;
  segment_small = omega arith;
  offset_small = omega arith;
  index_apart = no_index_file;
}

one_segment-IsQuiet : IsQuiet one_segment (9 ∷ [])
unfolding lookup bytes_eq
one_segment-IsQuiet = record { share = omega arith; small = omega arith }

small-IsArgument : IsArgument (9 ∷ []) (7 ∷ 8 ∷ []) 60 1000 0
small-IsArgument = record {
  key_max = omega arith;
  value_max = omega arith;
  ttl_small = omega arith;
  ts_small = omega arith;
  priority_small = omega arith;
}

not_expired : is_ttl_expired 0 1000 1000 60 ≡ false
unfolding is_ttl_expired
not_expired = refl

get-put_example :
    ((put memory one_segment at_noon (9 ∷ []) (7 ∷ 8 ∷ []) 60 1000 0).1 ≡ true)
    × ((get memory
          (put memory one_segment at_noon (9 ∷ []) (7 ∷ 8 ∷ []) 60 1000 0).0
          at_noon
          (9 ∷ [])
          true
          16).1
        ≡ some (record {
          copied = take (min (length {A = ℕ} (7 ∷ 8 ∷ [])) 16) (7 ∷ 8 ∷ []);
          size = length {A = ℕ} (7 ∷ 8 ∷ []);
        }))
get-put_example =
    get-put memory memory-IsLawful one_segment at_noon (9 ∷ []) (7 ∷ 8 ∷ []) 60 1000 0 16
      one_segment-IsReady one_segment-IsQuiet small-IsArgument refl (omega arith) not_expired

one_segment-Pending : Pending memory (segment_name prefix 0) [] one_segment
one_segment-Pending = record {
  holds = record { active = refl; written = []; on_disk = segment_is_there; total_is = refl };
  room = omega arith;
}

append_buffer-Pending_example :
    Pending memory
      (segment_name prefix 0)
      ([] ++ 1 ∷ 2 ∷ [])
      (append_buffer memory one_segment (1 ∷ 2 ∷ []))
    × Frame memory
        (segment_name prefix 0)
        one_segment
        (append_buffer memory one_segment (1 ∷ 2 ∷ []))
append_buffer-Pending_example =
    append_buffer-Pending memory memory-IsLawful (segment_name prefix 0) one_segment (1 ∷ 2 ∷ [])
      one_segment-Pending

-- The files after a crash: a journal in the given state, and perhaps compact.tmp.
abbrev crashed : ℕ → ℕ → Contents → FileStore Contents
crashed state next_seg files =
    opened_on ((journal_name prefix, encode_journal (journal_of state next_seg 0)) ∷ files)

abbrev tmp_files : Contents
tmp_files = (tmp_name prefix, 5 ∷ 6 ∷ []) ∷ (index_name prefix, 7 ∷ []) ∷ []

journal_is_there :
    (state next_seg : ℕ) (files : Contents)
    → memory.open_read (crashed state next_seg files).disk (journal_name prefix)
      ≡ some (encode_journal (journal_of state next_seg 0))
unfolding memory lookup journal_name bytes_eq prefix_sep
journal_is_there state next_seg files = refl

tmp_is_there :
    (state next_seg : ℕ)
    → memory.open_read (crashed state next_seg tmp_files).disk (tmp_name prefix) ≡ some (5 ∷ 6 ∷ [])
unfolding memory lookup journal_name tmp_name bytes_eq prefix_sep
tmp_is_there state next_seg = refl

tmp_is_not_there :
    (state next_seg : ℕ)
    → memory.open_read (crashed state next_seg []).disk (tmp_name prefix) ≡ none
unfolding memory lookup journal_name tmp_name bytes_eq prefix_sep
tmp_is_not_there state next_seg = refl

zero_is_not_one : ◌≢◌ {A = ℕ} 0 1
zero_is_not_one e = absurd (omega arith)

apart_names :
    (segment_name prefix 0 ≢ index_name prefix)
    × (segment_name prefix 0 ≢ journal_name prefix)
    × (segment_name prefix 0 ≢ tmp_name prefix)
    × (index_name prefix ≢ journal_name prefix)
    × (index_name prefix ≢ tmp_name prefix)
    × (journal_name prefix ≢ tmp_name prefix)
apart_names = names_apart prefix 0 (omega arith)

tmp_not_index : tmp_name prefix ≢ index_name prefix
tmp_not_index e = let (a, b, c, d, f, g) = apart_names in f (sym e)

journal_not_index : journal_name prefix ≢ index_name prefix
journal_not_index e = let (a, b, c, d, f, g) = apart_names in d (sym e)

segment_not_index : segment_name prefix 0 ≢ index_name prefix
segment_not_index = let (a, b, c, d, f, g) = apart_names in a

recover_commit_example :
    (memory.open_read
        (recover_if_needed memory (crashed journal_commit 0 tmp_files)).disk
        (segment_name prefix 0)
      ≡ some (5 ∷ 6 ∷ []))
    × (memory.open_read
          (recover_if_needed memory (crashed journal_commit 0 tmp_files)).disk
          (segment_name prefix 1)
        ≡ none)
    × (memory.open_read
          (recover_if_needed memory (crashed journal_commit 0 tmp_files)).disk
          (tmp_name prefix)
        ≡ none)
    × (memory.open_read
          (recover_if_needed memory (crashed journal_commit 0 tmp_files)).disk
          (journal_name prefix)
        ≡ none)
recover_commit_example =
    recover_commit memory memory-IsLawful (crashed journal_commit 0 tmp_files) (5 ∷ 6 ∷ []) 1
      (journal_is_there journal_commit 0 tmp_files) (tmp_is_there journal_commit 0) (omega arith)
      (omega arith)
      (segment_names_differ prefix 0 1 (omega arith) (omega arith) (omega arith) zero_is_not_one)

recover_commit_again_example :
    memory.open_read
      (recover_if_needed memory (crashed journal_commit 0 [])).disk
      (segment_name prefix 0)
    ≡ none
recover_commit_again_example =
    recover_commit_again memory memory-IsLawful (crashed journal_commit 0 []) 0
      (journal_is_there journal_commit 0 []) (tmp_is_not_there journal_commit 0) (omega arith)

recover_uncommitted_example :
    (memory.open_read
        (recover_if_needed memory (crashed journal_compacting 0 tmp_files)).disk
        (journal_name prefix)
      ≡ none)
    × (memory.open_read
          (recover_if_needed memory (crashed journal_compacting 0 tmp_files)).disk
          (tmp_name prefix)
        ≡ none)
    × (memory.open_read
          (recover_if_needed memory (crashed journal_compacting 0 tmp_files)).disk
          (index_name prefix)
        ≡ memory.open_read (crashed journal_compacting 0 tmp_files).disk (index_name prefix))
recover_uncommitted_example =
    recover_uncommitted memory memory-IsLawful (crashed journal_compacting 0 tmp_files) 0
      (index_name prefix) (omega arith) (journal_is_there journal_compacting 0 tmp_files)
      tmp_not_index journal_not_index

recover_committed_segments_example :
    (memory.open_read
        (recover_if_needed memory (crashed journal_compacting 1 tmp_files)).disk
        (segment_name prefix 0)
      ≡ some (5 ∷ 6 ∷ []))
    × (memory.open_read
          (recover_if_needed memory (crashed journal_compacting 1 tmp_files)).disk
          (journal_name prefix)
        ≡ none)
    × (memory.open_read
          (recover_if_needed memory (crashed journal_compacting 1 tmp_files)).disk
          (index_name prefix)
        ≡ memory.open_read (crashed journal_compacting 1 tmp_files).disk (index_name prefix))
    × ((recover_if_needed memory (crashed journal_compacting 1 tmp_files)).index
        ≡ (crashed journal_compacting 1 tmp_files).index)
recover_committed_segments_example =
    recover_committed_segments memory memory-IsLawful (crashed journal_compacting 1 tmp_files) 1 0
      (5 ∷ 6 ∷ []) (index_name prefix) (omega arith) (omega arith) (omega arith)
      (journal_is_there journal_compacting 1 tmp_files) (tmp_is_there journal_compacting 1)
      (omega arith) tmp_not_index journal_not_index segment_not_index
