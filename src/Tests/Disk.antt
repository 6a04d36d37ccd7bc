-- ===== src/Tests/Disk.antt =====
-- include/microStore/File.h and FileSystem.h on small files.
use micro_store.Base.{ℕ, ◌≡◌, ◌++◌, none, some, List, [], ◌∷◌, arith, length}
use micro_store.Utility.{crc32}
use micro_store.FileStore.Files.Checked.{File, FileImpl, crc-write_all, write_all}

-- A file that keeps what is written, and has nothing to read.
abbrev log_file : FileImpl (List ℕ)
log_file = record {
  available = λ s. 0;
  read_byte = λ s. (s, 0);
  write_byte = λ s b. (s ++ b ∷ [], 1);
  read = λ s n. (s, none);
  write = λ s bytes. (s ++ bytes, length bytes);
}

abbrev new_file : File (List ℕ)
new_file = record { impl = []; crc = 0 }

abbrev three_chunks : List (List ℕ)
three_chunks = (49 ∷ 50 ∷ []) ∷ [] ∷ (51 ∷ []) ∷ []

crc-write_all_example :
    (write_all log_file new_file three_chunks).crc ≡ crc32 0 (some (49 ∷ 50 ∷ 51 ∷ []))
crc-write_all_example =
    crc-write_all log_file new_file three_chunks (omega arith)
      ((omega arith, (omega arith, tt)), (tt, ((omega arith, tt), tt)))
