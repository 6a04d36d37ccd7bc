-- ===== src/FileStore/Files.antt =====
-- include/microStore/File.h and FileSystem.h: what a store asks of a file system. The files
-- themselves are kept by code that is not in the repository, so they are a parameter.
pub mod ReadExact
pub mod Lawful
pub mod Checked
pub mod Whole
use micro_store.Base.{
  ℕ, zero, ◌+◌, ◌-◌, ◌≤◌, ◌≡◌, ◌≢◌, Bool, true, false, Option, none, some, List, [], ◌∷◌, ◌++◌,
  length, take, drop, leb, if◌then◌else◌,
}

abbrev pub FilePath : Type 0
FilePath = List ℕ

-- The methods of `FileSystem` and `File` that FileStore.h calls, on a disk `D`. A file opened
-- with ModeRead is read as its content; a file opened with ModeAppend or ModeReadAppend takes
-- each write at its end; ModeWrite empties it. `write` returns the number of bytes written.
pub record FileSystem (D : Type 0) : Type 0 where
  pub open_read : D → FilePath → Option (List ℕ)
  pub open_append : D → FilePath → D × Bool
  pub open_write : D → FilePath → D × Bool
  pub write : D → FilePath → List ℕ → D × ℕ
  pub remove : D → FilePath → D × Bool
  pub rename : D → FilePath → FilePath → D × Bool
  pub mkdir : D → FilePath → D × Bool

-- A read of `n` bytes that is all there, and what follows it.
unfoldable pub read_exact : ℕ → List ℕ → Option (List ℕ × List ℕ)
read_exact n bytes = if leb n (length bytes) then some (take n bytes, drop n bytes) else none

-- A read of up to `n` bytes.
unfoldable pub read : ℕ → List ℕ → List ℕ
read n bytes = take n bytes

module _ {D : Type 0} (fs : FileSystem D) where
  -- Writes to one file in turn, with the count of all bytes written.
  unfoldable pub write_chunks : D → FilePath → List (List ℕ) → D × ℕ
  write_chunks d p [] = (d, 0)
  write_chunks d p (c ∷ cs) =
      let (d', n) = fs.write d p c in let (d'', m) = write_chunks d' p cs in (d'', n + m)
