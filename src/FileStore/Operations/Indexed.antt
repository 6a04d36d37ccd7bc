-- ===== src/FileStore/Operations/Indexed.antt =====
-- FileStore.h: the end of `put` and `remove`, from the index in memory on.
use micro_store.Base.{
  ◌++◌, ℕ, ◌+◌, ◌*◌, ◌%◌, ◌^◌, ◌<◌, ◌≡◌, ◌≢◌, refl, ap, sym, ◌∙◌, some, List, arith, length,
}
use micro_store.Assoc.{Key, lookup, assign}
use micro_store.FileStore.Layout.{header_size, commit_size}
use micro_store.FileStore.Index.{IndexValue, IndexMap, index_value, index_insert, index_find}
use micro_store.FileStore.IndexFile.{IndexEntry, entry_chunks, persist_index_entry}
use micro_store.FileStore.IndexFile.Writes.{
  persist_index_entry_fields, persist_index_entry_other, persist_index_entry_self,
}
use micro_store.FileStore.Files.{FilePath, FileSystem}
use micro_store.FileStore.Files.Lawful.{IsLawful}
use micro_store.FileStore.State.{FileStore, Clock}
use micro_store.FileStore.Operations.{
  compact_if_threshold, compact_threshold, count_dead, count_found, put_entry, put_indexed,
}
use micro_store.FileStore.IndexFile.Entries.{joined}
use micro_store.FileStore.Operations.Quiet.{
  IsQuiet, dead_after-count, compact_if_threshold_quiet, count_found_fields, enforce_limit_none,
  counts,
}

-- The entry that `put` appends to the index file.
abbrev pub put_index_entry : Key → ℕ → ℕ → ℕ → ℕ → ℕ → IndexEntry
put_index_entry key segment offset ts ttl priority = record {
  key = key;
  seg = segment;
  off = offset;
  ts = ts;
  ttl = ttl;
  priority = priority;
}

module _ {D : Type 0} (fs : FileSystem D) where
  -- The store after an operation that neither prunes nor compacts: its index, its offset, the
  -- files that it leaves alone, and the entry behind those in the index file.
  pub record Indexed (f t : FileStore D) (index : IndexMap) (offset : ℕ) (e : IndexEntry)
      : Type 0 where
    pub fields : t ≡ record f {
      disk = t.disk;
      index = index;
      dead_since_compact = t.dead_since_compact;
      current_offset = offset;
    }
    pub files :
        (q : FilePath) → f.index_file ≢ some q → fs.open_read t.disk q ≡ fs.open_read f.disk q
    pub saved :
        (q : FilePath) (c : List ℕ)
        → f.index_file ≡ some q
        → fs.open_read f.disk q ≡ some c
        → fs.open_read t.disk q ≡ some (c ++ joined (entry_chunks e))

  -- The end, on the state `i` whose index is the new one.
  pub finish-Indexed :
      (law : IsLawful fs) (f i : FileStore D) (clock : Clock) (index : IndexMap) (e e' : IndexEntry)
      (off offset : ℕ)
      → i ≡ record f { index = index; dead_since_compact = i.dead_since_compact }
      → off ≡ offset
      → e ≡ e'
      → i.dead_since_compact * 100 < compact_threshold * (length index + i.dead_since_compact)
      → (length index + i.dead_since_compact) * 100 < 2 ^ 32
      → Indexed f
          (compact_if_threshold fs
            (record (persist_index_entry fs i e).0 { current_offset = off })
            clock)
          index
          offset
          e'
  finish-Indexed law f i clock index e e' off offset same at entry share small =
      let p = (persist_index_entry fs i e).0 in
      let pe = persist_index_entry_fields fs i e in
      let idx : p.index ≡ index =
        ap (λ (x : FileStore D). x.index) pe ∙ ap (λ (x : FileStore D). x.index) same in
      let dead : p.dead_since_compact ≡ i.dead_since_compact =
        ap (λ (x : FileStore D). x.dead_since_compact) pe in
      let len = ap (length {A = Key × IndexValue}) idx in
      let quiet =
        compact_if_threshold_quiet fs (record p { current_offset = off }) clock
          (omega (arith, len, dead)) (omega (arith, len, dead)) in
      rw quiet (record {
        fields =
            ap (λ (x : FileStore D). record x { current_offset = off })
              (pe ∙ ap (λ (x : FileStore D). record x { disk = p.disk }) same)
            ∙ (ap
                  (λ n. record f {
                    disk = p.disk;
                    index = index;
                    dead_since_compact = n;
                    current_offset = off;
                  })
                  (sym dead)
                ∙ ap
                    (λ n. record f {
                      disk = p.disk;
                      index = index;
                      dead_since_compact = p.dead_since_compact;
                      current_offset = n;
                    })
                    at);
        files = λ q ne.
            persist_index_entry_other fs law i e q
              (λ k. ne (sym (ap (λ (x : FileStore D). x.index_file) same) ∙ k))
            ∙ ap (λ d. fs.open_read d q) (ap (λ (x : FileStore D). x.disk) same);
        saved = λ q c file there.
            persist_index_entry_self fs law i e q c
              (ap (λ (x : FileStore D). x.index_file) same ∙ file)
              (ap (λ d. fs.open_read d q) (ap (λ (x : FileStore D). x.disk) same) ∙ there)
            ∙ ap (λ x. some (c ++ joined (entry_chunks x))) entry;
      })

  pub put_indexed-Indexed :
      (law : IsLawful fs) (f : FileStore D) (clock : Clock) (key : Key) (value : List ℕ)
      (offset ttl ts priority : ℕ)
      → IsQuiet f key
      → f.policy_max_recs ≡ 0
      → Indexed f
          (put_indexed fs f clock key value offset ttl ts priority)
          (assign key (index_value f.current_segment offset ts ttl priority) f.index)
          ((f.current_offset + header_size + length key + length value + commit_size) % 2 ^ 32)
          (put_index_entry key f.current_segment offset ts ttl priority)
  unfolding put_indexed put_entry index_insert count_dead index_find
  put_indexed-Indexed law f clock key value offset ttl ts priority quiet no_limit =
      let d = count_found fs f (lookup key f.index) in
      let (fields, dead) = count_found_fields fs f (lookup key f.index) in
      let v = index_value d.current_segment offset ts ttl priority in
      let i : FileStore D = record d { index = assign key v d.index } in
      let seg : d.current_segment ≡ f.current_segment =
        ap (λ (x : FileStore D). x.current_segment) fields in
      let idx : d.index ≡ f.index = ap (λ (x : FileStore D). x.index) fields in
      let lim : d.policy_max_recs ≡ 0 =
        ap (λ (x : FileStore D). x.policy_max_recs) fields ∙ no_limit in
      let new : assign key v d.index
          ≡ assign key (index_value f.current_segment offset ts ttl priority) f.index =
        rw (seg, idx) refl in
      let more = dead_after-count fs f d key quiet.small dead in
      let sum = counts fs f d key v idx more in
      let size = ap (length {A = Key × IndexValue}) new in
      let end = λ (e : IndexEntry).
        ap (λ n. (n + header_size + length key + length value + commit_size) % 2 ^ 32)
          (ap (λ (x : FileStore D). x.current_offset) (persist_index_entry_fields fs i e)
            ∙ ap (λ (x : FileStore D). x.current_offset) fields) in
      rw (enforce_limit_none fs i lim) (
        finish-Indexed law f i clock _ _ _ _ _
          (ap (λ (x : FileStore D). record x { index = i.index }) fields
            ∙ ap (λ ix. record f { index = ix; dead_since_compact = d.dead_since_compact }) new)
          (end _) (ap (λ n. put_index_entry key n offset ts ttl priority) seg)
          (omega (arith, size, sum, more, quiet.share)) (omega (arith, size, sum, quiet.small)))
