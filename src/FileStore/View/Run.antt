-- ===== src/FileStore/View/Run.antt =====
-- FileStore.h: sequences of calls on a store against the same calls on the abstract state.
use micro_store.Base.{ℕ, ◌≤◌, ◌≡◌, refl, ap, true, Bool, Option, none, some, List, [], ◌∷◌, length}
use micro_store.Assoc.{Key}
use micro_store.FileStore.Layout.{max_key_len}
use micro_store.FileStore.Files.{FileSystem}
use micro_store.FileStore.Files.Lawful.{IsLawful}
use micro_store.FileStore.State.{FileStore, Clock}
use micro_store.FileStore.Operations.{Fetched, put, get, remove, exists, set_ttl_secs}
use micro_store.FileStore.Operations.Quiet.{IsQuiet}
use micro_store.FileStore.Operations.Ready.{IsArgument}
use micro_store.FileStore.View.{Contents, set}
use micro_store.FileStore.View.Append.{IsOpen-fields, Represents}
use micro_store.FileStore.View.Rotate.{HasRoom}
use micro_store.FileStore.View.Put.{put_item, put-Represents}
use micro_store.FileStore.View.Remove.{CanRemove, remove-Represents}
use micro_store.FileStore.View.Get.{live, seen, is_there, get-Represents, exists-Represents}

-- A call of the store, with what its clock shows. `call_remove` carries what the stack held.
pub data Call : Type 0 where
  call_put : Key → List ℕ → ℕ → ℕ → ℕ → Call
  call_remove : Key → ℕ → ℕ → Call
  call_get : Key → ℕ → Call
  call_exists : Key → Call
  call_set_ttl_secs : ℕ → Call

-- What the caller gets.
pub data Answer : Type 0 where
  said : Bool → Answer
  read : Option Fetched → Answer
  nothing : Answer

module _ {D : Type 0} (fs : FileSystem D) where
  unfoldable pub run_call : FileStore D → Clock → Call → FileStore D × Answer
  run_call s clock (call_put key value ttl ts priority) =
      let (t, ok) = put fs s clock key value ttl ts priority in (t, said ok)
  run_call s clock (call_remove key stack_ttl stack_priority) =
      let (t, ok) = remove fs s clock key stack_ttl stack_priority in (t, said ok)
  run_call s clock (call_get key size) =
      let (t, found) = get fs s clock key true size in (t, read found)
  run_call s clock (call_exists key) = let (t, found) = exists s clock key in (t, said found)
  run_call s clock (call_set_ttl_secs ttl_s) = (set_ttl_secs s ttl_s, nothing)

  unfoldable pub run_calls : FileStore D → List (Clock × Call) → FileStore D × List Answer
  run_calls s [] = (s, [])
  run_calls s ((clock, call) ∷ calls) =
      let (t, answer) = run_call s clock call in
      let (u, answers) = run_calls t calls in (u, answer ∷ answers)

  -- What a call needs: legal lengths and words, space on the disk, and no compaction or eviction due.
  abbrev pub IsAllowed : FileStore D → Call → Type 0
  IsAllowed s (call_put key value ttl ts priority) =
      IsQuiet s key
      × (s.policy_max_recs ≡ 0)
      × IsArgument key value ttl ts priority
      × HasRoom fs s (length value)
  IsAllowed s (call_remove key stack_ttl stack_priority) = CanRemove s key
  IsAllowed s (call_get key size) = length key ≤ max_key_len
  IsAllowed s (call_exists key) = length key ≤ max_key_len
  IsAllowed s (call_set_ttl_secs ttl_s) = Unit

  abbrev pub AreAllowed : FileStore D → List (Clock × Call) → Type 0
  AreAllowed s [] = Unit
  AreAllowed s ((clock, call) ∷ calls) =
      IsAllowed s call × AreAllowed (run_call s clock call).0 calls

-- The store as its clients think of it: a time to live and what each key has.
pub record Abstract : Type 0 where
  pub policy : ℕ
  pub contents : Contents

unfoldable pub replay_call : Abstract → Clock → Call → Abstract × Answer
replay_call a clock (call_put key value ttl ts priority) =
    (record a { contents = set a.contents key (some (put_item value ttl ts)) }, said true)
replay_call a clock (call_remove key stack_ttl stack_priority) =
    (record a { contents = set a.contents key none }, said true)
replay_call a clock (call_get key size) =
    let item = live a.policy clock.now (a.contents key) in
    (record a { contents = set a.contents key item }, read (seen size item))
replay_call a clock (call_exists key) =
    let item = live a.policy clock.now (a.contents key) in
    (record a { contents = set a.contents key item }, said (is_there item))
replay_call a clock (call_set_ttl_secs ttl_s) = (record a { policy = ttl_s }, nothing)

unfoldable pub replay_calls : Abstract → List (Clock × Call) → Abstract × List Answer
replay_calls a [] = (a, [])
replay_calls a ((clock, call) ∷ calls) =
    let (b, answer) = replay_call a clock call in
    let (c, answers) = replay_calls b calls in (c, answer ∷ answers)

module _ {D : Type 0} (fs : FileSystem D) where
  abbrev pub Shows : FileStore D → Abstract → Type 0
  Shows s a = Represents fs s a.policy a.contents

  set_ttl_secs-Represents :
      (s : FileStore D) (policy ttl_s : ℕ) (m : Contents)
      → Represents fs s policy m
      → Represents fs (set_ttl_secs s ttl_s) ttl_s m
  unfolding set_ttl_secs
  set_ttl_secs-Represents s policy ttl_s m h = record {
    policy_ttl = refl;
    opened = IsOpen-fields fs s s.index ttl_s h.opened;
    items = h.items;
  }

  module _ (law : IsLawful fs) where
    pub run_call-replay_call :
        (s : FileStore D) (a : Abstract) (clock : Clock) (call : Call)
        → Shows s a
        → IsAllowed fs s call
        → ((run_call fs s clock call).1 ≡ (replay_call a clock call).1)
          × Shows (run_call fs s clock call).0 (replay_call a clock call).0
    unfolding run_call replay_call
    run_call-replay_call s a clock (call_put key value ttl ts priority) h
          (quiet, no_limit, legal, room) =
        let (ok, r) =
          put-Represents fs law s a.policy a.contents clock key value ttl ts priority h quiet
            no_limit legal room in
        (ap said ok, r)
    run_call-replay_call s a clock (call_remove key stack_ttl stack_priority) h can =
        let (ok, r) =
          remove-Represents fs law s a.policy a.contents clock key stack_ttl stack_priority h can in
        (ap said ok, r)
    run_call-replay_call s a clock (call_get key size) h short =
        let (found, r) = get-Represents fs law s a.policy a.contents clock key size h short in
        (ap read found, r)
    run_call-replay_call s a clock (call_exists key) h short =
        let (found, r) = exists-Represents fs s a.policy a.contents clock key h short in
        (ap said found, r)
    run_call-replay_call s a clock (call_set_ttl_secs ttl_s) h allowed =
        (refl, set_ttl_secs-Represents s a.policy ttl_s a.contents h)

    -- On a disk with room and no faults, a store that shows an abstract state gives, on any calls
    -- of `put`, `remove`, `get`, `exists` and `set_ttl_secs` that are each allowed where they come,
    -- the answers of the same calls on the abstract state, and shows the state these end in. There a
    -- `put` keeps the last 24 bits of the time to live. Every call has a key of at most 64 bytes. A
    -- `put` is allowed with a value of at most 1024 bytes, a time to live and a timestamp of 32 bits
    -- and a priority of 8, where policy_max_recs is 0 and the share of dead records stays below the
    -- threshold of a compaction, and where the record has room in the current segment or in a next
    -- one, at an offset below 2^24. A `remove` is allowed where that share and the offset stay below.
    pub run_calls-replay_calls :
        (s : FileStore D) (a : Abstract) (calls : List (Clock × Call))
        → Shows s a
        → AreAllowed fs s calls
        → ((run_calls fs s calls).1 ≡ (replay_calls a calls).1)
          × Shows (run_calls fs s calls).0 (replay_calls a calls).0
    unfolding run_calls replay_calls
    run_calls-replay_calls s a [] h allowed = (refl, h)
    run_calls-replay_calls s a ((clock, call) ∷ calls) h (ok, oks) =
        let (same, h') = run_call-replay_call s a clock call h ok in
        let (rest, h'') =
          run_calls-replay_calls (run_call fs s clock call).0 (replay_call a clock call).0 calls h'
            oks in
        (rw (same, rest) refl, h'')
