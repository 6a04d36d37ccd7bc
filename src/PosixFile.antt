-- ===== src/PosixFile.antt =====
-- include/microStore/Adapters/PosixFileSystem.h: `FileImpl`, a file over a descriptor, with a count
-- of the bytes that are left to read. The assertions on the descriptor are not part of the model.
pub mod Available
pub mod System
use micro_store.Base.{
  ℕ, zero, suc, ◌+◌, ◌-◌, ◌^◌, Bool, true, false, not, ◌&&◌, Option, none, some, List, [], ◌∷◌,
  length, leb, ltb, if◌then◌else◌,
}

-- A descriptor, or `none` for -1.
abbrev pub Descriptor : Type 0
Descriptor = Option ℕ

pub data SeekMode : Type 0 where
  seek_mode_set : SeekMode
  seek_mode_cur : SeekMode
  seek_mode_end : SeekMode

-- The system calls on a world `W`; `none` is -1. `step_back` is lseek by -1 from the current place.
pub record Posix (W : Type 0) : Type 0 where
  pub read : W → Descriptor → ℕ → W × Option (List ℕ)
  pub write : W → Descriptor → List ℕ → W × Option ℕ
  pub lseek : W → Descriptor → ℕ → SeekMode → W × Option ℕ
  pub step_back : W → Descriptor → W
  pub size : W → Descriptor → ℕ
  pub close : W → Descriptor → W
  pub fsync : W → Descriptor → W

-- The fields, in a world.
pub record PosixFile (W : Type 0) : Type 0 where
  pub world : W
  pub fd : Descriptor
  pub closed : Bool
  pub available : ℕ

-- A difference of two size_t, which wraps.
abbrev pub sub_size : ℕ → ℕ → ℕ
sub_size a b = if leb b a then a - b else a + 2 ^ 64 - b

module _ {W : Type 0} (os : Posix W) where
  -- The constructor.
  unfoldable pub open_fd : W → Descriptor → PosixFile W
  open_fd w fd = record { world = w; fd = fd; closed = false; available = os.size w fd }

  unfoldable pub size : PosixFile W → ℕ
  size f = os.size f.world f.fd

  unfoldable pub close : PosixFile W → PosixFile W
  close f = record f { world = os.close f.world f.fd; closed = true; fd = none }

  -- The destructor.
  unfoldable pub destroy : PosixFile W → PosixFile W
  destroy f = if f.closed then f else close f

  byte_read : PosixFile W → Option (List ℕ) → PosixFile W × Option ℕ
  byte_read f none = (f, none)
  byte_read f (some []) = (f, none)
  byte_read f (some (ch ∷ rest)) = (record f { available = f.available - 1 }, some ch)

  -- `read` of a byte; `none` is EOF.
  unfoldable pub read_byte : PosixFile W → PosixFile W × Option ℕ
  unfolding byte_read
  read_byte f =
      let (w, bytes) = os.read f.world f.fd 1 in
      let done = byte_read (record f { world = w }) bytes in
      if leb f.available 0 then (f, none) else done

  byte_written : PosixFile W → Option ℕ → PosixFile W × Option ℕ
  byte_written f none = (f, none)
  byte_written f (some zero) = (f, some 0)
  byte_written f (some (suc n)) = (record f { available = f.available - 1 }, some 1)

  -- `write` of a byte; `none` is -1 as a size_t.
  unfoldable pub write_byte : PosixFile W → ℕ → PosixFile W × Option ℕ
  unfolding byte_written
  write_byte f ch =
      let (w, status) = os.write f.world f.fd (ch ∷ []) in
      byte_written (record f { world = w }) status

  bytes_read : PosixFile W → Option (List ℕ) → PosixFile W × List ℕ
  bytes_read f none = (f, [])
  bytes_read f (some bytes) = (record f { available = sub_size f.available (length bytes) }, bytes)

  -- `read` into a buffer.
  unfoldable pub read : PosixFile W → ℕ → PosixFile W × List ℕ
  unfolding bytes_read
  read f n = let (w, bytes) = os.read f.world f.fd n in bytes_read (record f { world = w }) bytes

  bytes_written : PosixFile W → Option ℕ → PosixFile W × ℕ
  bytes_written f none = (f, 0)
  bytes_written f (some n) =
      (record f { available = if leb n f.available then f.available - n else 0 }, n)

  -- `write` of a buffer.
  unfoldable pub write : PosixFile W → List ℕ → PosixFile W × ℕ
  unfolding bytes_written
  write f buffer =
      let (w, wrote) = os.write f.world f.fd buffer in bytes_written (record f { world = w }) wrote

  byte_peeked : PosixFile W → Option (List ℕ) → PosixFile W × Option ℕ
  byte_peeked f none = (f, none)
  byte_peeked f (some []) = (f, none)
  byte_peeked f (some (ch ∷ rest)) = (record f { world = os.step_back f.world f.fd }, some ch)

  unfoldable pub peek : PosixFile W → PosixFile W × Option ℕ
  unfolding byte_peeked
  peek f =
      let (w, bytes) = os.read f.world f.fd 1 in
      let done = byte_peeked (record f { world = w }) bytes in
      if leb f.available 0 then (f, none) else done

  unfoldable pub tell : PosixFile W → PosixFile W × Option ℕ
  tell f = let (w, pos) = os.lseek f.world f.fd 0 seek_mode_cur in (record f { world = w }, pos)

  sought : PosixFile W → Option ℕ → PosixFile W × Option ℕ
  sought f none = (f, none)
  sought f (some new_pos) =
      let file_size = os.size f.world f.fd in
      (
        record f { available = if leb new_pos file_size then file_size - new_pos else 0 },
        some new_pos,
      )

  unfoldable pub seek : PosixFile W → ℕ → SeekMode → PosixFile W × Option ℕ
  unfolding sought
  seek f pos mode =
      let (w, new_pos) = os.lseek f.world f.fd pos mode in sought (record f { world = w }) new_pos

  unfoldable pub flush : PosixFile W → PosixFile W
  flush f = record f { world = os.fsync f.world f.fd }

  unfoldable pub is_valid : PosixFile W → Bool
  is_valid f = elim f.fd [ none ↦ false | some n ↦ not f.closed ]
