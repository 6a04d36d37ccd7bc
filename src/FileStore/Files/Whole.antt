-- ===== src/FileStore/Files/Whole.antt =====
-- include/microStore/FileSystem.h: `size`, `readFile` and `writeFile`.
use micro_store.Base.{
  ℕ, ◌≡◌, ◌≢◌, ap, ◌∙◌, Option, none, some, List, [], length, take_of_length-le, if◌then◌else◌,
  arith,
}
use micro_store.FileStore.Files.{FilePath, FileSystem, read}
use micro_store.FileStore.Files.Lawful.{IsLawful}

module _ {D : Type 0} (fs : FileSystem D) where
  content_size : Option (List ℕ) → ℕ
  content_size none = 0
  content_size (some c) = length c

  unfoldable pub size : D → FilePath → ℕ
  unfolding content_size
  size d path = content_size (fs.open_read d path)

  read_up_to : ℕ → Option (List ℕ) → List ℕ
  read_up_to n none = []
  read_up_to n (some c) = read n c

  -- The bytes that come into the buffer.
  unfoldable pub read_file : D → FilePath → ℕ → List ℕ
  unfolding read_up_to
  read_file d path n = read_up_to n (fs.open_read d path)

  read_whole : List ℕ → Option (List ℕ) → List ℕ × ℕ
  read_whole old none = (old, 0)
  read_whole old (some c) = (read (length c) c, length (read (length c) c))

  -- Into a vector, which stays when there is no file.
  unfoldable pub read_file_vector : D → FilePath → List ℕ → List ℕ × ℕ
  unfolding read_whole
  read_file_vector d path old = read_whole old (fs.open_read d path)

  -- Both overloads.
  unfoldable pub write_file : D → FilePath → List ℕ → D × ℕ
  write_file d path bytes =
      let (d', opened) = fs.open_write (fs.remove d path).0 path in
      let written = fs.write d' path bytes in if opened then written else (d', 0)

  module _ (laws : IsLawful fs) (d : D) (path : FilePath) (bytes : List ℕ) where
    write_file_is :
        write_file d path bytes ≡ fs.write (fs.open_write (fs.remove d path).0 path).0 path bytes
    unfolding write_file
    write_file_is = rw (laws.open_write_ok (fs.remove d path).0 path)

    write_file_content : fs.open_read (write_file d path bytes).0 path ≡ some bytes
    write_file_content =
        rw write_file_is
          (laws.write_self _ path bytes [] (laws.open_write_self (fs.remove d path).0 path))

    -- On a file system that keeps its promises, `writeFile` writes the bytes whole and returns their
    -- number, `readFile` into a vector then gives them back with their number, and the content of a
    -- file with another name stays.
    pub read_file_vector-write_file :
        (old : List ℕ) (other : FilePath)
        → path ≢ other
        → (read_file_vector (write_file d path bytes).0 path old ≡ (bytes, length bytes))
          × ((write_file d path bytes).1 ≡ length bytes)
          × (fs.open_read (write_file d path bytes).0 other ≡ fs.open_read d other)
    unfolding read_file_vector read_whole read
    read_file_vector-write_file old other ne = (
      rw write_file_content
          (ap (λ c. (c, length c)) (take_of_length-le (length bytes) bytes (omega arith))),
      rw write_file_is
          (laws.write_count _ path bytes [] (laws.open_write_self (fs.remove d path).0 path)),
      rw write_file_is (
          laws.write_other _ path other bytes ne
          ∙ (laws.open_write_other _ path other ne ∙ laws.remove_other d path other ne)),
    )
