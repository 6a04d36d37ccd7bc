-- ===== src/FileStore/Files/Lawful.antt =====
-- What include/microStore/File.h and FileSystem.h promise of a disk with room and no faults: a
-- write goes to the end of its file whole, and no method touches another file than those named.
use micro_store.Base.{ℕ, ◌≡◌, ◌≢◌, true, false, Option, none, some, List, [], ◌++◌, length}
use micro_store.FileStore.Files.{FilePath, FileSystem}

-- The content of a file once it is opened for appending.
abbrev pub or_empty : Option (List ℕ) → List ℕ
or_empty none = []
or_empty (some c) = c

pub record IsLawful {D : Type 0} (fs : FileSystem D) : Type 0 where
  pub write_self :
      (d : D) (p : FilePath) (bytes c : List ℕ)
      → fs.open_read d p ≡ some c
      → fs.open_read (fs.write d p bytes).0 p ≡ some (c ++ bytes)
  pub write_count :
      (d : D) (p : FilePath) (bytes c : List ℕ)
      → fs.open_read d p ≡ some c
      → (fs.write d p bytes).1 ≡ length bytes
  pub write_other :
      (d : D) (p q : FilePath) (bytes : List ℕ)
      → p ≢ q
      → fs.open_read (fs.write d p bytes).0 q ≡ fs.open_read d q
  pub open_append_ok : (d : D) (p : FilePath) → (fs.open_append d p).1 ≡ true
  pub open_append_self :
      (d : D) (p : FilePath)
      → fs.open_read (fs.open_append d p).0 p ≡ some (or_empty (fs.open_read d p))
  pub open_append_other :
      (d : D) (p q : FilePath) → p ≢ q → fs.open_read (fs.open_append d p).0 q ≡ fs.open_read d q
  pub open_write_ok : (d : D) (p : FilePath) → (fs.open_write d p).1 ≡ true
  pub open_write_self : (d : D) (p : FilePath) → fs.open_read (fs.open_write d p).0 p ≡ some []
  pub open_write_other :
      (d : D) (p q : FilePath) → p ≢ q → fs.open_read (fs.open_write d p).0 q ≡ fs.open_read d q
  pub remove_self : (d : D) (p : FilePath) → fs.open_read (fs.remove d p).0 p ≡ none
  pub remove_other :
      (d : D) (p q : FilePath) → p ≢ q → fs.open_read (fs.remove d p).0 q ≡ fs.open_read d q
  pub rename_ok :
      (d : D) (p q : FilePath) (c : List ℕ) → fs.open_read d p ≡ some c → (fs.rename d p q).1 ≡ true
  pub rename_to :
      (d : D) (p q : FilePath) (c : List ℕ)
      → fs.open_read d p ≡ some c
      → fs.open_read (fs.rename d p q).0 q ≡ some c
  pub rename_from : (d : D) (p q : FilePath) → p ≢ q → fs.open_read (fs.rename d p q).0 p ≡ none
  pub rename_other :
      (d : D) (p q r : FilePath)
      → p ≢ r
      → q ≢ r
      → fs.open_read (fs.rename d p q).0 r ≡ fs.open_read d r
  pub rename_missing :
      (d : D) (p q : FilePath) → fs.open_read d p ≡ none → (fs.rename d p q).1 ≡ false
  pub rename_missing_all :
      (d : D) (p q r : FilePath)
      → fs.open_read d p ≡ none
      → fs.open_read (fs.rename d p q).0 r ≡ fs.open_read d r
