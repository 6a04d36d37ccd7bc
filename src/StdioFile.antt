-- ===== src/StdioFile.antt =====
-- include/microStore/Adapters/StdioFileSystem.h: `FileImpl`, a file over a stream of the C library,
-- with a count of the bytes that are left to read. The assertions are not part of the model.
pub mod Available
pub mod System
use micro_store.Base.{
  ℕ, ◌-◌, Bool, true, false, not, Option, none, some, List, [], ◌∷◌, length, leb, if◌then◌else◌,
}
use micro_store.PosixFile.{SeekMode, sub_size}

-- A pointer to a stream, or `none` for the null pointer.
abbrev pub Stream : Type 0
Stream = Option ℕ

-- The functions of the C library on a world `W`. A byte is `none` for EOF, and a Boolean is true
-- where the call succeeds; `file_size` is st_size of fstat(2) on the stream's descriptor.
pub record Stdio (W : Type 0) : Type 0 where
  pub fgetc : W → Stream → W × Option ℕ
  pub ungetc : W → Stream → Option ℕ → W
  pub fputc : W → Stream → ℕ → W × Bool
  pub fread : W → Stream → ℕ → W × List ℕ
  pub fwrite : W → Stream → List ℕ → W × ℕ
  pub fseek : W → Stream → ℕ → SeekMode → W × Bool
  pub ftell : W → Stream → Option ℕ
  pub file_size : W → Stream → ℕ
  pub fflush : W → Stream → W
  pub fclose : W → Stream → W

-- The fields, in a world.
pub record StdioFile (W : Type 0) : Type 0 where
  pub world : W
  pub file : Stream
  pub closed : Bool
  pub available : ℕ

module _ {W : Type 0} (os : Stdio W) where
  -- The constructor.
  unfoldable pub open_stream : W → Stream → StdioFile W
  open_stream w file = record {
    world = w;
    file = file;
    closed = false;
    available = os.file_size w file;
  }

  unfoldable pub size : StdioFile W → ℕ
  size f = os.file_size f.world f.file

  unfoldable pub close : StdioFile W → StdioFile W
  close f = record f { world = os.fclose f.world f.file; closed = true; file = none }

  -- The destructor.
  unfoldable pub destroy : StdioFile W → StdioFile W
  destroy f = if f.closed then f else close f

  unfoldable pub byte_read : StdioFile W → Option ℕ → StdioFile W × Option ℕ
  byte_read f none = (f, none)
  byte_read f (some ch) = (record f { available = f.available - 1 }, some ch)

  -- `read` of a byte; `none` is EOF.
  unfoldable pub read_byte : StdioFile W → StdioFile W × Option ℕ
  unfolding byte_read
  read_byte f =
      let (w, ch) = os.fgetc f.world f.file in
      let done = byte_read (record f { world = w }) ch in
      if leb f.available 0 then (f, none) else done

  -- `write` of a byte.
  unfoldable pub write_byte : StdioFile W → ℕ → StdioFile W × ℕ
  write_byte f ch =
      let (w, ok) = os.fputc f.world f.file ch in
      let g : StdioFile W = record f { world = w } in
      if ok then (record g { available = f.available - 1 }, 1) else (g, 0)

  -- `read` into a buffer.
  unfoldable pub read : StdioFile W → ℕ → StdioFile W × List ℕ
  read f n =
      let (w, bytes) = os.fread f.world f.file n in
      (record f { world = w; available = sub_size f.available (length bytes) }, bytes)

  -- `write` of a buffer.
  unfoldable pub write : StdioFile W → List ℕ → StdioFile W × ℕ
  write f buffer =
      let (w, wrote) = os.fwrite f.world f.file buffer in
      (
        record f {
          world = w;
          available = if leb wrote f.available then f.available - wrote else 0;
        },
        wrote,
      )

  unfoldable pub peek : StdioFile W → StdioFile W × Option ℕ
  peek f =
      let (w, ch) = os.fgetc f.world f.file in
      let done : StdioFile W = record f { world = os.ungetc w f.file ch } in
      if leb f.available 0 then (f, none) else (done, ch)

  -- `none` is -1 as a size_t.
  unfoldable pub tell : StdioFile W → Option ℕ
  tell f = os.ftell f.world f.file

  unfoldable pub left_behind : StdioFile W → Option ℕ → ℕ
  left_behind f none = 0
  left_behind f (some new_pos) =
      let file_size = size f in if leb new_pos file_size then file_size - new_pos else 0

  -- `seek`; true is the result 0.
  unfoldable pub seek : StdioFile W → ℕ → SeekMode → StdioFile W × Bool
  unfolding left_behind
  seek f pos mode =
      let (w, ok) = os.fseek f.world f.file pos mode in
      let g : StdioFile W = record f { world = w } in
      if ok then (record g { available = left_behind g (os.ftell w f.file) }, true) else (g, false)

  unfoldable pub flush : StdioFile W → StdioFile W
  flush f = record f { world = os.fflush f.world f.file }

  unfoldable pub is_valid : StdioFile W → Bool
  is_valid f = elim f.file [ none ↦ false | some n ↦ not f.closed ]
