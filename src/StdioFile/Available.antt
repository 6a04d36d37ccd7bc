-- ===== src/StdioFile/Available.antt =====
-- Adapters/StdioFileSystem.h: the count of the bytes that are left to read.
use micro_store.Base.{
  ℕ, ◌+◌, ◌-◌, ◌≤◌, ◌≡◌, ◌==◌, Bool, true, false, Option, none, some, List, [], ◌∷◌, length, leb,
  if◌then◌else◌, arith, Option-cases, Bool-cases, inl, inr,
}
use micro_store.PosixFile.{SeekMode}
use micro_store.StdioFile.{
  Stream, Stdio, StdioFile, byte_read, left_behind, open_stream, size, read_byte, write_byte, read,
  write, peek, seek, flush,
}

abbrev pub count_of : Option ℕ → ℕ
count_of none = 0
count_of (some ch) = 1

abbrev one_if : Bool → ℕ
one_if true = 1
one_if false = 0

-- The extent of a file once a number of bytes were written at a place.
abbrev pub extended : ℕ → ℕ → ℕ → ℕ
extended place extent n =
    if n == 0 then extent else if leb (place + n) extent then extent else place + n

-- What the C library promises of a stream that no other shares its file with and that was not
-- opened for appending: reads and writes go on from its place, and a write of no byte or that
-- fails leaves the file as it is. The extent is the size of the file with what the stream still
-- buffers, which a successful fseek has written out. A stream may be read, `reads`, when it has not
-- been written since the last fseek, and written, `writes`, when it has not been read since then;
-- there is no promise for other calls, nor for one behind which the stream is not `clean`, since a
-- call met with an error.
pub record IsStdio {W : Type 0} (os : Stdio W) (place extent : W → Stream → ℕ)
    (reads writes clean : W → Stream → Bool) : Type 0 where
  pub fgetc_place :
      (w : W) (f : Stream)
      → reads w f ≡ true
      → clean (os.fgetc w f).0 f ≡ true
      → place (os.fgetc w f).0 f ≡ place w f + count_of (os.fgetc w f).1
  pub fgetc_extent :
      (w : W) (f : Stream)
      → reads w f ≡ true
      → clean (os.fgetc w f).0 f ≡ true
      → extent (os.fgetc w f).0 f ≡ extent w f
  pub ungetc_place :
      (w : W) (f : Stream)
      → reads w f ≡ true
      → clean (os.ungetc (os.fgetc w f).0 f (os.fgetc w f).1) f ≡ true
      → place (os.ungetc (os.fgetc w f).0 f (os.fgetc w f).1) f ≡ place w f
  pub ungetc_extent :
      (w : W) (f : Stream)
      → reads w f ≡ true
      → clean (os.ungetc (os.fgetc w f).0 f (os.fgetc w f).1) f ≡ true
      → extent (os.ungetc (os.fgetc w f).0 f (os.fgetc w f).1) f ≡ extent w f
  pub fputc_place :
      (w : W) (f : Stream) (ch : ℕ)
      → writes w f ≡ true
      → clean (os.fputc w f ch).0 f ≡ true
      → place (os.fputc w f ch).0 f ≡ place w f + one_if (os.fputc w f ch).1
  pub fputc_extent :
      (w : W) (f : Stream) (ch : ℕ)
      → writes w f ≡ true
      → clean (os.fputc w f ch).0 f ≡ true
      → extent (os.fputc w f ch).0 f
        ≡ extended (place w f) (extent w f) (one_if (os.fputc w f ch).1)
  pub fread_place :
      (w : W) (f : Stream) (n : ℕ)
      → reads w f ≡ true
      → clean (os.fread w f n).0 f ≡ true
      → place (os.fread w f n).0 f ≡ place w f + length (os.fread w f n).1
  pub fread_extent :
      (w : W) (f : Stream) (n : ℕ)
      → reads w f ≡ true
      → clean (os.fread w f n).0 f ≡ true
      → extent (os.fread w f n).0 f ≡ extent w f
  pub fread_left :
      (w : W) (f : Stream) (n : ℕ)
      → reads w f ≡ true
      → clean (os.fread w f n).0 f ≡ true
      → length (os.fread w f n).1 ≤ extent w f - place w f
  pub fwrite_place :
      (w : W) (f : Stream) (bytes : List ℕ)
      → writes w f ≡ true
      → clean (os.fwrite w f bytes).0 f ≡ true
      → place (os.fwrite w f bytes).0 f ≡ place w f + (os.fwrite w f bytes).1
  pub fwrite_extent :
      (w : W) (f : Stream) (bytes : List ℕ)
      → writes w f ≡ true
      → clean (os.fwrite w f bytes).0 f ≡ true
      → extent (os.fwrite w f bytes).0 f ≡ extended (place w f) (extent w f) (os.fwrite w f bytes).1
  pub fseek_stays :
      (w : W) (f : Stream) (pos : ℕ) (mode : SeekMode)
      → clean (os.fseek w f pos mode).0 f ≡ true
      → (os.fseek w f pos mode).1 ≡ false
      → place (os.fseek w f pos mode).0 f ≡ place w f
  pub fseek_extent :
      (w : W) (f : Stream) (pos : ℕ) (mode : SeekMode)
      → clean (os.fseek w f pos mode).0 f ≡ true
      → extent (os.fseek w f pos mode).0 f ≡ extent w f
  pub fseek_written :
      (w : W) (f : Stream) (pos : ℕ) (mode : SeekMode)
      → clean (os.fseek w f pos mode).0 f ≡ true
      → (os.fseek w f pos mode).1 ≡ true
      → os.file_size (os.fseek w f pos mode).0 f ≡ extent (os.fseek w f pos mode).0 f
  pub ftell_place : (w : W) (f : Stream) → clean w f ≡ true → os.ftell w f ≡ some (place w f)
  pub fflush_place :
      (w : W) (f : Stream)
      → writes w f ≡ true
      → clean (os.fflush w f) f ≡ true
      → place (os.fflush w f) f ≡ place w f
  pub fflush_extent :
      (w : W) (f : Stream)
      → writes w f ≡ true
      → clean (os.fflush w f) f ≡ true
      → extent (os.fflush w f) f ≡ extent w f

-- A call of a method on an open file.
pub data Call : Type 0 where
  call_read_byte : Call
  call_write_byte : ℕ → Call
  call_read : ℕ → Call
  call_write : List ℕ → Call
  call_peek : Call
  call_seek : ℕ → SeekMode → Call
  call_flush : Call

module _ {W : Type 0} (os : Stdio W) where
  unfoldable pub run_call : StdioFile W → Call → StdioFile W
  run_call f call_read_byte = (read_byte os f).0
  run_call f (call_write_byte ch) = (write_byte os f ch).0
  run_call f (call_read n) = (read os f n).0
  run_call f (call_write bytes) = (write os f bytes).0
  run_call f call_peek = (peek os f).0
  run_call f (call_seek pos mode) = (seek os f pos mode).0
  run_call f call_flush = flush os f

  unfoldable pub run_calls : StdioFile W → List Call → StdioFile W
  run_calls f [] = f
  run_calls f (c ∷ cs) = run_calls (run_call f c) cs

module _ {W : Type 0} (os : Stdio W) (reads writes clean : W → Stream → Bool) where
  -- What the C library asks of a stream before a call of a method: no read directly behind a
  -- write, and no write or flush directly behind a read.
  abbrev pub IsOrdered : StdioFile W → Call → Type 0
  IsOrdered f call_read_byte = reads f.world f.file ≡ true
  IsOrdered f (call_write_byte ch) = writes f.world f.file ≡ true
  IsOrdered f (call_read n) = reads f.world f.file ≡ true
  IsOrdered f (call_write bytes) = writes f.world f.file ≡ true
  IsOrdered f call_peek = reads f.world f.file ≡ true
  IsOrdered f (call_seek pos mode) = Unit {0}
  IsOrdered f call_flush = writes f.world f.file ≡ true

  -- Each call comes where it may, and none meets with an error.
  abbrev pub AreOrdered : StdioFile W → List Call → Type 0
  AreOrdered f [] = Unit {0}
  AreOrdered f (c ∷ cs) =
      IsOrdered f c
      × (clean (run_call os f c).world f.file ≡ true)
      × AreOrdered (run_call os f c) cs

module _ {W : Type 0} (os : Stdio W) (place extent : W → Stream → ℕ)
    (reads writes clean : W → Stream → Bool) where
  -- The count is what the file has from its place on.
  abbrev pub IsCounted : StdioFile W → Type 0
  IsCounted f = f.available ≡ extent f.world f.file - place f.world f.file

  module _ (laws : IsStdio os place extent reads writes clean) (f : StdioFile W)
      (h : IsCounted f) where
    read_byte-IsCounted :
        reads f.world f.file ≡ true
        → clean (read_byte os f).0.world f.file ≡ true
        → IsCounted (read_byte os f).0
    unfolding read_byte byte_read
    read_byte-IsCounted r k = elim (Bool-cases (leb f.available 0)) [
      | inl e ↦ rw (e, read_byte) h
      | inr e ↦ elim (Option-cases (os.fgetc f.world f.file).1) [
        | inl g ↦
            let ok : clean (os.fgetc f.world f.file).0 f.file ≡ true = ground (arith, k) in
            ground
              (arith, laws.fgetc_place f.world f.file r ok, laws.fgetc_extent f.world f.file r ok)
        | inr (ch, g) ↦
            let ok : clean (os.fgetc f.world f.file).0 f.file ≡ true = ground (arith, k) in
            ground
              (arith, laws.fgetc_place f.world f.file r ok, laws.fgetc_extent f.world f.file r ok)
      ]
    ]

    peek-IsCounted :
        reads f.world f.file ≡ true
        → clean (peek os f).0.world f.file ≡ true
        → IsCounted (peek os f).0
    unfolding peek
    peek-IsCounted r k =
        ground (arith, laws.ungetc_place f.world f.file r, laws.ungetc_extent f.world f.file r)

    write_byte-IsCounted :
        (ch : ℕ)
        → writes f.world f.file ≡ true
        → clean (write_byte os f ch).0.world f.file ≡ true
        → IsCounted (write_byte os f ch).0
    unfolding write_byte
    write_byte-IsCounted ch r k =
        ground (arith, laws.fputc_place f.world f.file ch r, laws.fputc_extent f.world f.file ch r)

    seek-IsCounted :
        (pos : ℕ) (mode : SeekMode)
        → clean (seek os f pos mode).0.world f.file ≡ true
        → IsCounted (seek os f pos mode).0
    unfolding seek left_behind size
    seek-IsCounted pos mode k =
        let (w, ok) = os.fseek f.world f.file pos mode in
        ground (
          arith,
          laws.fseek_stays f.world f.file pos mode,
          laws.fseek_extent f.world f.file pos mode,
          laws.fseek_written f.world f.file pos mode,
          laws.ftell_place w f.file,
        )

    run_call-IsCounted :
        (c : Call)
        → IsOrdered os reads writes clean f c
        → clean (run_call os f c).world f.file ≡ true
        → IsCounted (run_call os f c)
    unfolding run_call read write flush
    run_call-IsCounted call_read_byte r k = read_byte-IsCounted r k
    run_call-IsCounted (call_write_byte ch) r k = write_byte-IsCounted ch r k
    run_call-IsCounted (call_read n) r k = ground (
      arith,
      laws.fread_place f.world f.file n r k,
      laws.fread_extent f.world f.file n r k,
      laws.fread_left f.world f.file n r k,
    )
    run_call-IsCounted (call_write bytes) r k = ground (
      arith,
      laws.fwrite_place f.world f.file bytes r k,
      laws.fwrite_extent f.world f.file bytes r k,
    )
    run_call-IsCounted call_peek r k = peek-IsCounted r k
    run_call-IsCounted (call_seek pos mode) r k = seek-IsCounted pos mode k
    run_call-IsCounted call_flush r k =
        omega
          (arith, h, laws.fflush_place f.world f.file r k, laws.fflush_extent f.world f.file r k)

  run_calls-IsCounted :
      IsStdio os place extent reads writes clean
      → (f : StdioFile W) (cs : List Call) → IsCounted f
      → AreOrdered os reads writes clean f cs
      → IsCounted (run_calls os f cs)
  unfolding run_calls
  run_calls-IsCounted laws f [] h o = h
  run_calls-IsCounted laws f (c ∷ cs) h (o, k, rest) =
      run_calls-IsCounted laws (run_call os f c) cs (run_call-IsCounted laws f h c o k) rest

  -- When the C library does what it promises of a stream that no other shares its file with and
  -- that was not opened for appending, then after calls of the methods on a stream opened at its
  -- start, with nothing buffered, `available` is the number of bytes from the stream's place to
  -- the end of the file, bytes still buffered included. Between a read and a later write or flush,
  -- and between a write and a later read, the calls have a seek, and none meets with an error.
  pub available-run_stream :
      IsStdio os place extent reads writes clean
      → (w : W) (file : Stream) (cs : List Call) → place w file ≡ 0
      → os.file_size w file ≡ extent w file
      → AreOrdered os reads writes clean (open_stream os w file) cs
      → IsCounted (run_calls os (open_stream os w file) cs)
  unfolding open_stream
  available-run_stream laws w file cs start written ordered =
      run_calls-IsCounted laws (open_stream os w file) cs (ground arith) ordered
