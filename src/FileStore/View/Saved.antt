-- ===== src/FileStore/View/Saved.antt =====
-- FileStore.h: what the disk keeps of a store for the next `init`.
use micro_store.Base.{
  ℕ, ◌≤◌, ◌≡◌, refl, ap, sym, ◌∙◌, false, none, some, List, [], ◌∷◌, ◌++◌, arith, length, ◌==◌,
}
use mathlib.Core.List.{append_assoc, append-nil}
use mathlib.Core.Option.{some-injective}
use micro_store.Assoc.{Key, assign, erase}
use micro_store.FileStore.Files.{FileSystem}
use micro_store.FileStore.Files.Lawful.{IsLawful}
use micro_store.FileStore.Names.{index_name, journal_name}
use micro_store.FileStore.Names.Distinct.{names_apart}
use micro_store.FileStore.Index.{IndexMap, index_value, index_insert, index_remove}
use micro_store.FileStore.IndexFile.{IndexEntry, entry_chunks, apply_entry}
use micro_store.FileStore.IndexFile.Entries.{
  EntryFits, AllFit, entries_bytes, apply_entries, joined,
}
use micro_store.FileStore.Scan.Log.{Logged}
use micro_store.FileStore.State.{FileStore, Clock}
use micro_store.FileStore.Operations.{
  put, remove, put_record, remove_record, rotate_segment_if_needed,
}
use micro_store.FileStore.Operations.Quiet.{IsQuiet}
use micro_store.FileStore.Operations.Ready.{IsArgument, IsReady}
use micro_store.FileStore.Operations.Indexed.{put_index_entry}
use micro_store.FileStore.Operations.Stored.{Appended}
use micro_store.FileStore.Operations.PutGet.{put_legal}
use micro_store.FileStore.View.{Contents, set, Models, Models-Extends}
use micro_store.FileStore.View.Append.{IsOpen}
use micro_store.FileStore.View.Rotate.{HasRoom, Rotated}
use micro_store.FileStore.View.Put.{put_item, put-Rotated, put-Appended, put-Models}
use micro_store.FileStore.View.Remove.{
  CanRemove, remove_index_entry, remove_record-Appended, remove-Models, remove_legal,
}

entries_bytes-snoc :
    (es : List IndexEntry) (e : IndexEntry)
    → entries_bytes (es ++ e ∷ []) ≡ entries_bytes es ++ joined (entry_chunks e)
unfolding entries_bytes
entries_bytes-snoc [] e = append-nil (joined (entry_chunks e))
entries_bytes-snoc (x ∷ es) e =
    ap (λ b. joined (entry_chunks x) ++ b) (entries_bytes-snoc es e)
    ∙ sym (append_assoc (joined (entry_chunks x)) (entries_bytes es) (joined (entry_chunks e)))

apply_entries-snoc :
    (es : List IndexEntry) (e : IndexEntry) (index : IndexMap)
    → apply_entries (es ++ e ∷ []) index ≡ apply_entry e (apply_entries es index)
unfolding apply_entries
apply_entries-snoc [] e index = refl
apply_entries-snoc (x ∷ es) e index = apply_entries-snoc es e (apply_entry x index)

AllFit-snoc :
    (es : List IndexEntry) (e : IndexEntry) → AllFit es → EntryFits e → AllFit (es ++ e ∷ [])
AllFit-snoc [] e fits fit = (fit, tt)
AllFit-snoc (x ∷ es) e (f, fits) fit = (f, AllFit-snoc es e fits fit)

-- The index file holds entries that lead to an index of the items, and there is no journal.
pub record Saved {D : Type 0} (fs : FileSystem D) (s : FileStore D) (n : Contents) : Type 0 where
  pub entries : List IndexEntry
  pub fit : AllFit entries
  pub file : s.index_file ≡ some (index_name s.base_prefix)
  pub on_disk : fs.open_read s.disk (index_name s.base_prefix) ≡ some (entries_bytes entries)
  pub items : Models fs s.base_prefix s.disk (apply_entries entries []) n
  pub no_journal : fs.open_read s.disk (journal_name s.base_prefix) ≡ none
  pub short : length s.base_prefix ≤ 61

module _ {D : Type 0} (fs : FileSystem D) where
  -- A record appended to a segment, with its entry appended to the index file.
  Saved-Appended :
      (r t : FileStore D) (ready : IsReady fs r) (g : Logged) (index : IndexMap) (offset : ℕ)
      (e : IndexEntry) (n n' : Contents) (h : Saved fs r n)
      → Appended fs r ready g index offset e t
      → EntryFits e
      → Models fs t.base_prefix t.disk (apply_entry e (apply_entries h.entries [])) n'
      → Saved fs t n'
  Saved-Appended r t ready g index offset e n n' h st fit items =
      let base : t.base_prefix ≡ r.base_prefix =
        ap (λ (x : FileStore D). x.base_prefix) st.fields in
      let (si, sj, stm, ij, it, jt) = names_apart r.base_prefix r.current_segment h.short in
      record {
        entries = h.entries ++ e ∷ [];
        fit = AllFit-snoc h.entries e h.fit fit;
        file =
            ap (λ (x : FileStore D). x.index_file) st.fields
            ∙ (h.file ∙ ap (λ b. some (index_name b)) (sym base));
        on_disk =
            ap (λ b. fs.open_read t.disk (index_name b)) base
            ∙ (st.saved _ _ h.file h.on_disk ∙ ap some (sym (entries_bytes-snoc h.entries e)));
        items = rw (apply_entries-snoc h.entries e []) items;
        no_journal =
            ap (λ b. fs.open_read t.disk (journal_name b)) base
            ∙ (st.others _
                  (λ k. ij (
                    some-injective (index_name r.base_prefix) (journal_name r.base_prefix)
                      (sym h.file ∙ k)))
                  sj
                ∙ h.no_journal);
        short = omega (arith, ap (length {A = ℕ}) base, h.short);
      }

  Saved-Rotated :
      (s r : FileStore D) (n : ℕ) (m : Contents)
      → Rotated fs s r n
      → (h : Saved fs s m) → (h' : Saved fs r m) × (h'.entries ≡ h.entries)
  Saved-Rotated s r n m rot h =
      let base : r.base_prefix ≡ s.base_prefix =
        ap (λ (x : FileStore D). x.base_prefix) rot.fields in
      (
        record {
          entries = h.entries;
          fit = h.fit;
          file =
              ap (λ (x : FileStore D). x.index_file) rot.fields
              ∙ (h.file ∙ ap (λ b. some (index_name b)) (sym base));
          on_disk =
              ap (λ b. fs.open_read r.disk (index_name b)) base
              ∙ (rot.others _ (λ seg. (names_apart s.base_prefix seg h.short).0) ∙ h.on_disk);
          items = rw base (Models-Extends fs s.base_prefix s.disk r.disk _ m rot.extends h.items);
          no_journal =
              ap (λ b. fs.open_read r.disk (journal_name b)) base
              ∙ (rot.others _ (λ seg. (names_apart s.base_prefix seg h.short).1) ∙ h.no_journal);
          short = omega (arith, ap (length {A = ℕ}) base, h.short);
        },
        refl,
      )

  module _ (law : IsLawful fs) where
    put_index_entry-Fits :
        (r : FileStore D) (key : Key) (value : List ℕ) (ttl ts priority : ℕ)
        → IsReady fs r
        → IsArgument key value ttl ts priority
        → EntryFits (put_index_entry key r.current_segment r.current_offset ts ttl priority)
    put_index_entry-Fits r key value ttl ts priority ready a = record {
      key = a.key_max;
      seg = omega (arith, ready.segment_small);
      off = omega (arith, ready.offset_small);
      ts = a.ts_small;
      ttl = omega (arith, a.ttl_small);
      priority = a.priority_small;
    }

    -- `put` saves the value for the next start, where it leaves the value in the store.
    pub put-Saved :
        (s : FileStore D) (n : Contents) (clock : Clock) (key : Key) (value : List ℕ)
        (ttl ts priority : ℕ)
        → IsOpen fs s
        → Saved fs s n
        → IsQuiet s key
        → s.policy_max_recs ≡ 0
        → IsArgument key value ttl ts priority
        → HasRoom fs s (length value)
        → Saved fs
            (put fs s clock key value ttl ts priority).0
            (set n key (some (put_item value ttl ts)))
    put-Saved s n clock key value ttl ts priority o h quiet no_limit a room =
        let rot = put-Rotated fs law s clock key value ttl ts priority o quiet no_limit a room in
        let (ok, st) =
          put-Appended fs law s clock key value ttl ts priority o quiet no_limit a room in
        let r = (rotate_segment_if_needed fs s clock (length value)).0 in
        let t = (put_record fs s clock key value ttl ts priority).0 in
        let v = index_value r.current_segment r.current_offset ts ttl priority in
        let e = put_index_entry key r.current_segment r.current_offset ts ttl priority in
        let (h', same) = Saved-Rotated s r (length value) n rot h in
        let index = apply_entries h.entries [] in
        let entry : apply_entry e (apply_entries h'.entries []) ≡ assign key v index =
          let small : (r.current_segment == 0xffff_ffff) ≡ false =
            ground (arith, rot.opened.ready.segment_small) in
          (unfold apply_entry index_insert in rw (same, small) refl) in
        rw (put_legal fs law s clock key value ttl ts priority o.ready.mounted a) (
          Saved-Appended r t rot.opened.ready _ _ _ e n _ h' st
            (put_index_entry-Fits r key value ttl ts priority rot.opened.ready a)
            (rw entry (
              put-Models fs law s clock key value ttl ts priority o quiet no_limit a room index n
                h.items)))

    -- `remove` takes the key out of what is saved for the next start.
    pub remove-Saved :
        (s : FileStore D) (n : Contents) (clock : Clock) (key : Key) (stack_ttl stack_priority : ℕ)
        → IsOpen fs s
        → Saved fs s n
        → CanRemove s key
        → Saved fs (remove fs s clock key stack_ttl stack_priority).0 (set n key none)
    remove-Saved s n clock key stack_ttl stack_priority o h can =
        let t = remove_record fs s clock key stack_ttl stack_priority in
        let st =
          remove_record-Appended fs law s clock key stack_ttl stack_priority o.ready can.calm in
        let index = apply_entries h.entries [] in
        let entry : apply_entry (remove_index_entry key) index ≡ erase key index =
          unfold apply_entry index_remove in refl in
        rw (remove_legal fs law s clock key stack_ttl stack_priority o.ready.mounted can.key_max) (
          Saved-Appended s t o.ready _ _ _ (remove_index_entry key) n _ h st
            (record {
              key = can.key_max;
              seg = omega arith;
              off = omega arith;
              ts = omega arith;
              ttl = omega arith;
              priority = omega arith;
            })
            (rw entry (
              remove-Models fs law s clock key stack_ttl stack_priority o index n can.calm
                h.items)))
