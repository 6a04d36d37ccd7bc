-- ===== src/FileStore/View/Restart.antt =====
-- FileStore.h: sequences of calls, and the store that `init` makes of the disk behind them.
use micro_store.Base.{ℕ, ◌≡◌, true, false, none, some, List, [], ◌∷◌, arith}
use micro_store.Assoc.{Key}
use micro_store.FileStore.Files.{FileSystem}
use micro_store.FileStore.Files.Lawful.{IsLawful}
use micro_store.FileStore.Index.{IndexMap}
use micro_store.FileStore.State.{FileStore, Clock}
use micro_store.FileStore.Recovery.{init, close}
use micro_store.FileStore.Operations.{get, get_found, exists, set_ttl_secs}
use micro_store.FileStore.Operations.PutGet.{flush_buffer_idle}
use micro_store.FileStore.View.{Contents, set}
use micro_store.FileStore.View.Append.{IsOpen}
use micro_store.FileStore.View.Put.{put_item}
use micro_store.FileStore.View.Saved.{Saved, put-Saved, remove-Saved}
use micro_store.FileStore.View.New.{IsNew, no_items, init-IsNew}
use micro_store.FileStore.View.Start.{CanStart, init-close}
use micro_store.FileStore.View.Run.{
  Call, call_put, call_remove, call_get, call_exists, call_set_ttl_secs, Abstract, Shows, run_call,
  run_calls, replay_calls, replay_call, IsAllowed, AreAllowed, run_call-replay_call,
  run_calls-replay_calls,
}

-- What a call changes of what is saved: `get` and `exists` take an expired item out of the index
-- in memory, and not out of the index file.
unfoldable pub keep_call : Contents → Call → Contents
keep_call n (call_put key value ttl ts priority) = set n key (some (put_item value ttl ts))
keep_call n (call_remove key stack_ttl stack_priority) = set n key none
keep_call n (call_get key size) = n
keep_call n (call_exists key) = n
keep_call n (call_set_ttl_secs ttl_s) = n

unfoldable pub keep_calls : Contents → List (Clock × Call) → Contents
keep_calls n [] = n
keep_calls n ((clock, call) ∷ calls) = keep_calls (keep_call n call) calls

module _ {D : Type 0} (fs : FileSystem D) where
  Saved-fields :
      (s : FileStore D) (n : Contents) (index : IndexMap) (policy : ℕ)
      → Saved fs s n
      → Saved fs (record s { index = index; policy_ttl_secs = policy }) n
  Saved-fields s n index policy h = record {
    entries = h.entries;
    fit = h.fit;
    file = h.file;
    on_disk = h.on_disk;
    items = h.items;
    no_journal = h.no_journal;
    short = h.short;
  }

  exists-index :
      (s : FileStore D) (clock : Clock) (key : Key)
      → (exists s clock key).0 ≡ record s { index = (exists s clock key).0.index }
  unfolding exists
  exists-index s clock key = ground arith

  module _ (law : IsLawful fs) where
    get-index :
        (s : FileStore D) (clock : Clock) (key : Key) (size : ℕ)
        → s.write_buf ≡ []
        → (get fs s clock key true size).0
          ≡ record s { index = (get fs s clock key true size).0.index }
    unfolding get get_found
    get-index s clock key size idle = rw (flush_buffer_idle fs law s idle) (ground arith)

    run_call-Saved :
        (s : FileStore D) (n : Contents) (clock : Clock) (call : Call)
        → IsOpen fs s
        → Saved fs s n
        → IsAllowed fs s call
        → Saved fs (run_call fs s clock call).0 (keep_call n call)
    unfolding run_call keep_call set_ttl_secs
    run_call-Saved s n clock (call_put key value ttl ts priority) o h
          (quiet, no_limit, legal, room) =
        put-Saved fs law s n clock key value ttl ts priority o h quiet no_limit legal room
    run_call-Saved s n clock (call_remove key stack_ttl stack_priority) o h can =
        remove-Saved fs law s n clock key stack_ttl stack_priority o h can
    run_call-Saved s n clock (call_get key size) o h short =
        rw (get-index s clock key size o.ready.no_buffer) (Saved-fields s n _ s.policy_ttl_secs h)
    run_call-Saved s n clock (call_exists key) o h short =
        rw (exists-index s clock key) (Saved-fields s n _ s.policy_ttl_secs h)
    run_call-Saved s n clock (call_set_ttl_secs ttl_s) o h allowed =
        Saved-fields s n s.index ttl_s h

    run_calls-Saved :
        (s : FileStore D) (a : Abstract) (n : Contents) (calls : List (Clock × Call))
        → Shows fs s a
        → Saved fs s n
        → AreAllowed fs s calls
        → Saved fs (run_calls fs s calls).0 (keep_calls n calls)
    unfolding run_calls keep_calls
    run_calls-Saved s a n [] shows h allowed = h
    run_calls-Saved s a n ((clock, call) ∷ calls) shows h (ok, oks) =
        let (same, shows') = run_call-replay_call fs law s a clock call shows ok in
        run_calls-Saved (run_call fs s clock call).0 (replay_call a clock call).0 (keep_call n call)
          calls shows' (run_call-Saved s n clock call shows.opened h ok) oks

    -- After any calls that are each allowed where they come, a store that is closed and started
    -- again by `init` of a new store on its disk shows every value that was put and not removed, and
    -- nothing else, under the time to live of the new store.
    pub init-run_calls :
        (s : FileStore D) (a : Abstract) (n : Contents) (calls : List (Clock × Call))
        (z : FileStore D) (segment_size segment_count : ℕ)
        → Shows fs s a
        → Saved fs s n
        → AreAllowed fs s calls
        → CanStart fs law (run_calls fs s calls).0 z segment_count
        → z.disk ≡ (close fs (run_calls fs s calls).0).disk
        → ((init fs z (run_calls fs s calls).0.base_prefix false segment_size segment_count).1
            ≡ true)
          × Shows fs
              (init fs z (run_calls fs s calls).0.base_prefix false segment_size segment_count).0
              (record { policy = z.policy_ttl_secs; contents = keep_calls n calls })
    init-run_calls s a n calls z segment_size segment_count shows h allowed can disk =
        let (same, shows') = run_calls-replay_calls fs law s a calls shows allowed in
        let h' = run_calls-Saved s a n calls shows h allowed in
        let (ok, started, saved) =
          init-close fs law (run_calls fs s calls).0 (keep_calls n calls) z segment_size
            segment_count shows'.opened h' can disk in
        (ok, started)

    -- From the first start on: on a disk with room and no faults, a new store without files there,
    -- which `init` starts, answers any calls that are each allowed where they come as an abstract
    -- state without items does. When it is then closed and started again by `init` of a new store on
    -- its disk, that store shows every value that was put and not removed, with the last 24 bits of
    -- its time to live, and nothing else. A call is allowed as for one run: with keys and values of
    -- legal lengths and words for the rest, where no compaction is due, policy_max_recs is 0, and the
    -- record has room in the current segment or in a next one, at an offset below 2^24. Both stores
    -- have no limit on the records and at most 256 segments, each of less than 2^24 bytes at the
    -- second start, under a prefix of at most 61 characters that does not end in a '/'.
    pub init-run_calls-init :
        (x : FileStore D) (prefix : List ℕ) (x_size x_count : ℕ) (calls : List (Clock × Call))
        (z : FileStore D) (z_size z_count : ℕ)
        → IsNew fs x prefix x_count
        → AreAllowed fs (init fs x prefix false x_size x_count).0 calls
        → CanStart fs law (run_calls fs (init fs x prefix false x_size x_count).0 calls).0 z z_count
        → z.disk ≡ (close fs (run_calls fs (init fs x prefix false x_size x_count).0 calls).0).disk
        → ((run_calls fs (init fs x prefix false x_size x_count).0 calls).1
            ≡ (replay_calls (record { policy = x.policy_ttl_secs; contents = no_items }) calls).1)
          × ((init fs z
                (run_calls fs (init fs x prefix false x_size x_count).0 calls).0.base_prefix
                false
                z_size
                z_count).1
              ≡ true)
          × Shows fs
              (init fs z
                (run_calls fs (init fs x prefix false x_size x_count).0 calls).0.base_prefix
                false
                z_size
                z_count).0
              (record { policy = z.policy_ttl_secs; contents = keep_calls no_items calls })
    init-run_calls-init x prefix x_size x_count calls z z_size z_count new allowed can disk =
        let (ok, shows, saved, begun) = init-IsNew fs law x prefix x_size x_count new in
        let s = (init fs x prefix false x_size x_count).0 in
        let a : Abstract = record { policy = x.policy_ttl_secs; contents = no_items } in
        let (same, shows') = run_calls-replay_calls fs law s a calls shows allowed in
        let (started, shows'') =
          init-run_calls s a no_items calls z z_size z_count shows saved allowed can disk in
        (same, started, shows'')
