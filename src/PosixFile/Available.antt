-- ===== src/PosixFile/Available.antt =====
-- Adapters/PosixFileSystem.h: the count of the bytes that are left to read.
use micro_store.Base.{
  ℕ, ◌+◌, ◌-◌, ◌≤◌, ◌≡◌, Option, none, some, List, [], ◌∷◌, length, leb, ◌==◌, if◌then◌else◌,
}
use micro_store.PosixFile.{
  Descriptor, SeekMode, Posix, PosixFile, read_byte, write_byte, read, write, peek, tell, seek,
  flush, seek_mode_cur,
}

abbrev count_of : Option (List ℕ) → ℕ
count_of none = 0
count_of (some bytes) = length bytes

abbrev number_of : Option ℕ → ℕ
number_of none = 0
number_of (some n) = n

abbrev place_of : ℕ → Option ℕ → ℕ
place_of old none = old
place_of old (some pos) = pos

-- What the manual pages promise of a descriptor that no other one shares its file with and that was
-- opened without O_APPEND: a read gives bytes of the file from its place on, a write goes to its place,
-- and one of no byte or that fails leaves the file as it is.
pub record IsPosix {W : Type 0} (os : Posix W) (place : W → Descriptor → ℕ) : Type 0 where
  pub read_place :
      (w : W) (fd : Descriptor) (n : ℕ)
      → place (os.read w fd n).0 fd ≡ place w fd + count_of (os.read w fd n).1
  pub read_size : (w : W) (fd : Descriptor) (n : ℕ) → os.size (os.read w fd n).0 fd ≡ os.size w fd
  pub read_asked : (w : W) (fd : Descriptor) (n : ℕ) → count_of (os.read w fd n).1 ≤ n
  pub read_left :
      (w : W) (fd : Descriptor) (n : ℕ) → count_of (os.read w fd n).1 ≤ os.size w fd - place w fd
  pub write_place :
      (w : W) (fd : Descriptor) (bytes : List ℕ)
      → place (os.write w fd bytes).0 fd ≡ place w fd + number_of (os.write w fd bytes).1
  pub write_size :
      (w : W) (fd : Descriptor) (bytes : List ℕ)
      → os.size (os.write w fd bytes).0 fd ≡ (
          if number_of (os.write w fd bytes).1 == 0
          then os.size w fd
          else if leb (place w fd + number_of (os.write w fd bytes).1) (os.size w fd)
          then os.size w fd
          else place w fd + number_of (os.write w fd bytes).1)
  pub write_asked :
      (w : W) (fd : Descriptor) (bytes : List ℕ) → number_of (os.write w fd bytes).1 ≤ length bytes
  pub lseek_place :
      (w : W) (fd : Descriptor) (pos : ℕ) (mode : SeekMode)
      → place (os.lseek w fd pos mode).0 fd ≡ place_of (place w fd) (os.lseek w fd pos mode).1
  pub lseek_size :
      (w : W) (fd : Descriptor) (pos : ℕ) (mode : SeekMode)
      → os.size (os.lseek w fd pos mode).0 fd ≡ os.size w fd
  pub lseek_cur :
      (w : W) (fd : Descriptor) → place (os.lseek w fd 0 seek_mode_cur).0 fd ≡ place w fd
  pub step_back_place : (w : W) (fd : Descriptor) → place (os.step_back w fd) fd ≡ place w fd - 1
  pub step_back_size : (w : W) (fd : Descriptor) → os.size (os.step_back w fd) fd ≡ os.size w fd
  pub fsync_place : (w : W) (fd : Descriptor) → place (os.fsync w fd) fd ≡ place w fd
  pub fsync_size : (w : W) (fd : Descriptor) → os.size (os.fsync w fd) fd ≡ os.size w fd

-- A call of a method on an open file.
pub data Call : Type 0 where
  call_read_byte : Call
  call_write_byte : ℕ → Call
  call_read : ℕ → Call
  call_write : List ℕ → Call
  call_peek : Call
  call_tell : Call
  call_seek : ℕ → SeekMode → Call
  call_flush : Call

module _ {W : Type 0} (os : Posix W) where
  unfoldable pub run_call : PosixFile W → Call → PosixFile W
  run_call f call_read_byte = (read_byte os f).0
  run_call f (call_write_byte ch) = (write_byte os f ch).0
  run_call f (call_read n) = (read os f n).0
  run_call f (call_write bytes) = (write os f bytes).0
  run_call f call_peek = (peek os f).0
  run_call f call_tell = (tell os f).0
  run_call f (call_seek pos mode) = (seek os f pos mode).0
  run_call f call_flush = flush os f

  unfoldable pub run_calls : PosixFile W → List Call → PosixFile W
  run_calls f [] = f
  run_calls f (c ∷ cs) = run_calls (run_call f c) cs

module _ {W : Type 0} (os : Posix W) (place : W → Descriptor → ℕ) where
  -- The count is what the file has from its place on.
  abbrev pub IsCounted : PosixFile W → Type 0
  IsCounted f = f.available ≡ os.size f.world f.fd - place f.world f.fd

  module _ (laws : IsPosix os place) (f : PosixFile W) (h : IsCounted f) where
    abbrev in_world : W → PosixFile W
    in_world w = record f { world = w }
