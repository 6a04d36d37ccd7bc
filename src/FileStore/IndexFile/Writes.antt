-- ===== src/FileStore/IndexFile/Writes.antt =====
-- FileStore.h: an entry for the index file touches that file and nothing else of a store.
use micro_store.Base.{
  ℕ, ◌≡◌, ◌≢◌, refl, ap, ◌∙◌, Option, none, some, List, [], ◌∷◌, ◌++◌, sym, arith,
}
use mathlib.Core.List.{append_assoc, append-nil}
use mathlib.Core.Option.{some-injective}
use micro_store.FileStore.IndexFile.Entries.{joined}
use micro_store.FileStore.Files.{FilePath, FileSystem, write_chunks}
use micro_store.FileStore.Files.Lawful.{IsLawful}
use micro_store.FileStore.State.{FileStore}
use micro_store.FileStore.IndexFile.{IndexEntry, entry_chunks, persist_to, persist_index_entry}

module _ {D : Type 0} (fs : FileSystem D) where
  persist_to_fields :
      (s : FileStore D) (o : Option FilePath) (e : IndexEntry)
      → (persist_to fs s o e).0 ≡ record s { disk = (persist_to fs s o e).0.disk }
  unfolding persist_to
  persist_to_fields s none e = refl
  persist_to_fields s (some file) e = refl

  pub persist_index_entry_fields :
      (s : FileStore D) (e : IndexEntry)
      → (persist_index_entry fs s e).0 ≡ record s { disk = (persist_index_entry fs s e).0.disk }
  unfolding persist_index_entry
  persist_index_entry_fields s e = persist_to_fields s s.index_file e

  module _ (law : IsLawful fs) where
    pub write_chunks_self :
        (d : D) (p : FilePath) (cs : List (List ℕ)) (c : List ℕ)
        → fs.open_read d p ≡ some c
        → fs.open_read (write_chunks fs d p cs).0 p ≡ some (c ++ joined cs)
    unfolding write_chunks joined
    write_chunks_self d p [] c h = h ∙ ap some (sym (append-nil c))
    write_chunks_self d p (b ∷ bs) c h =
        write_chunks_self (fs.write d p b).0 p bs (c ++ b) (law.write_self d p b c h)
        ∙ ap some (append_assoc c b (joined bs))

    persist_to_self :
        (s : FileStore D) (o : Option FilePath) (e : IndexEntry) (q : FilePath) (c : List ℕ)
        → o ≡ some q
        → fs.open_read s.disk q ≡ some c
        → fs.open_read (persist_to fs s o e).0.disk q ≡ some (c ++ joined (entry_chunks e))
    unfolding persist_to
    persist_to_self s none e q c at h = absurd (ground arith)
    persist_to_self s (some file) e q c at h =
        let same : file ≡ q = some-injective file q at in
        rw same (write_chunks_self s.disk q (entry_chunks e) c h)

    pub persist_index_entry_self :
        (s : FileStore D) (e : IndexEntry) (q : FilePath) (c : List ℕ)
        → s.index_file ≡ some q
        → fs.open_read s.disk q ≡ some c
        → fs.open_read (persist_index_entry fs s e).0.disk q ≡ some (c ++ joined (entry_chunks e))
    unfolding persist_index_entry
    persist_index_entry_self s e q c at h = persist_to_self s s.index_file e q c at h

    pub write_chunks_other :
        (d : D) (p q : FilePath) (cs : List (List ℕ))
        → p ≢ q
        → fs.open_read (write_chunks fs d p cs).0 q ≡ fs.open_read d q
    unfolding write_chunks
    write_chunks_other d p q [] ne = refl
    write_chunks_other d p q (c ∷ cs) ne =
        write_chunks_other (fs.write d p c).0 p q cs ne ∙ law.write_other d p q c ne

    persist_to_other :
        (s : FileStore D) (o : Option FilePath) (e : IndexEntry) (q : FilePath)
        → o ≢ some q
        → fs.open_read (persist_to fs s o e).0.disk q ≡ fs.open_read s.disk q
    unfolding persist_to
    persist_to_other s none e q ne = refl
    persist_to_other s (some file) e q ne =
        write_chunks_other s.disk file q (entry_chunks e) (λ same. ne (ap some same))

    pub persist_index_entry_other :
        (s : FileStore D) (e : IndexEntry) (q : FilePath)
        → s.index_file ≢ some q
        → fs.open_read (persist_index_entry fs s e).0.disk q ≡ fs.open_read s.disk q
    unfolding persist_index_entry
    persist_index_entry_other s e q ne = persist_to_other s s.index_file e q ne
