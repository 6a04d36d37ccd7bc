-- ===== src/MemoryDisk.antt =====
-- A file system in memory that never fails, to run the store on: the contents of the files by
-- name. It stands for the code behind include/microStore/FileSystem.h in tests.
pub mod Lawful
use micro_store.Base.{
  ℕ, Bool, true, false, Option, none, some, List, [], ◌∷◌, ◌++◌, length, if◌then◌else◌, bytes_eq,
}
use micro_store.Assoc.{lookup, erase, assign}
use micro_store.FileStore.Files.{FilePath, FileSystem}

abbrev pub Contents : Type 0
Contents = List (FilePath × List ℕ)

unfoldable pub open_or_make : Contents → FilePath → Option (List ℕ) → Contents × Bool
open_or_make d p none = (assign p [] d, true)
open_or_make d p (some c) = (d, true)

unfoldable pub append_to : Contents → FilePath → List ℕ → Option (List ℕ) → Contents × ℕ
append_to d p bytes none = (d, 0)
append_to d p bytes (some c) = (assign p (c ++ bytes) d, length bytes)

unfoldable pub remove_from : Contents → FilePath → Option (List ℕ) → Contents × Bool
remove_from d p none = (d, false)
remove_from d p (some c) = (erase p d, true)

unfoldable pub rename_from : Contents → FilePath → FilePath → Option (List ℕ) → Contents × Bool
rename_from d p q none = (d, false)
rename_from d p q (some c) = (assign q c (erase p d), true)

unfoldable pub memory : FileSystem Contents
memory = record {
  open_read = λ d p. lookup p d;
  open_append = λ d p. open_or_make d p (lookup p d);
  open_write = λ d p. (assign p [] d, true);
  write = λ d p bytes. append_to d p bytes (lookup p d);
  remove = λ d p. remove_from d p (lookup p d);
  rename = λ d p q. rename_from d p q (lookup p d);
  mkdir = λ d p. (d, true);
}
