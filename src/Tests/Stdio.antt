-- ===== src/Tests/Stdio.antt =====
-- include/microStore/Adapters/StdioFileSystem.h on a world with one file.
use micro_store.Base.{
  ℕ, ◌+◌, ◌-◌, refl, Bool, true, false, Option, none, some, List, [], ◌∷◌, arith, length, take,
  drop, length-take, length-drop,
}
use micro_store.PosixFile.{seek_mode_set}
use micro_store.StdioFile.{
  Stdio, Stream, byte_read, left_behind, open_stream, read_byte, write_byte, read, write, peek,
  seek, size,
}
use micro_store.StdioFile.Available.{
  AreOrdered, run_call, Call, IsCounted, IsStdio, available-run_stream, call_peek, call_read,
  call_read_byte, call_seek, call_write, call_write_byte, count_of, run_calls,
}
use micro_store.Tests.Posix.{OneFile, length-place_bytes, lseek_to, new_world, place_bytes}

-- A file, and whether its stream may be read and written.
record OneStream : Type 0 where
  pub on : OneFile
  pub reads : Bool
  pub writes : Bool

-- Behind a read the stream may only be read.
abbrev read_on : OneStream → ℕ → OneStream
read_on w n = record w { on = record w.on { place = w.on.place + n }; writes = false }

-- Behind a write the stream may only be written.
abbrev write_on : OneStream → List ℕ → OneStream
write_on w bytes = record w {
  on = record { content = place_bytes w.on bytes; place = w.on.place + length bytes };
  reads = false;
}

-- The bytes from the place on.
abbrev ahead : OneStream → List ℕ
ahead w = drop w.on.place w.on.content

abbrev first : List ℕ → Option ℕ
first [] = none
first (ch ∷ bytes) = some ch

abbrev one_file_stdio : Stdio OneStream
one_file_stdio = record {
  fgetc = λ w f. (read_on w (count_of (first (ahead w))), first (ahead w));
  ungetc = λ w f ch. record w { on = record w.on { place = w.on.place - count_of ch } };
  fputc = λ w f ch. (write_on w (ch ∷ []), true);
  fread = λ w f n. (read_on w (length (take n (ahead w))), take n (ahead w));
  fwrite = λ w f bytes. (write_on w bytes, length bytes);
  fseek = λ w f pos mode. (
    record { on = record w.on { place = lseek_to w.on pos mode }; reads = true; writes = true },
    true,
  );
  ftell = λ w f. some w.on.place;
  file_size = λ w f. length w.on.content;
  fflush = λ w f. record w { reads = true };
  fclose = λ w f. w;
}

abbrev place_in : OneStream → Stream → ℕ
place_in w f = w.on.place

abbrev extent_in : OneStream → Stream → ℕ
extent_in w f = length w.on.content

abbrev reads_in : OneStream → Stream → Bool
reads_in w f = w.reads

abbrev writes_in : OneStream → Stream → Bool
writes_in w f = w.writes

-- The world has no errors.
abbrev clean_in : OneStream → Stream → Bool
clean_in w f = true

one_file_stdio-IsStdio : IsStdio one_file_stdio place_in extent_in reads_in writes_in clean_in
one_file_stdio-IsStdio = record {
  fgetc_place = λ w f r k. refl;
  fgetc_extent = λ w f r k. refl;
  ungetc_place = λ w f r k. omega arith;
  ungetc_extent = λ w f r k. refl;
  fputc_place = λ w f ch r k. refl;
  fputc_extent = λ w f ch r k. length-place_bytes w.on (ch ∷ []);
  fread_place = λ w f n r k. refl;
  fread_extent = λ w f n r k. refl;
  fread_left =
      λ w f n r k. omega (arith, length-take n (ahead w), length-drop w.on.place w.on.content);
  fwrite_place = λ w f bytes r k. refl;
  fwrite_extent = λ w f bytes r k. length-place_bytes w.on bytes;
  fseek_stays = λ w f pos mode k fails. absurd (ground arith);
  fseek_extent = λ w f pos mode k. refl;
  fseek_written = λ w f pos mode k ok. refl;
  ftell_place = λ w f k. refl;
  fflush_place = λ w f r k. refl;
  fflush_extent = λ w f r k. refl;
}

abbrev new_stream : OneStream
new_stream = record { on = new_world; reads = true; writes = true }

-- Three bytes are written behind the first, one over the second, with a seek at each turn.
abbrev turns : List Call
turns =
    call_peek
    ∷ call_read 1
    ∷ call_seek 1 seek_mode_set
    ∷ call_write (9 ∷ 9 ∷ 9 ∷ [])
    ∷ call_seek 1 seek_mode_set
    ∷ call_read_byte
    ∷ call_seek 1 seek_mode_set
    ∷ call_write_byte 7
    ∷ []

turns-AreOrdered :
    AreOrdered one_file_stdio reads_in writes_in clean_in
      (open_stream one_file_stdio new_stream (some 3))
      turns
unfolding open_stream run_call read_byte byte_read write_byte read write peek seek left_behind size
turns-AreOrdered = (
  refl,
  refl,
  (refl, refl, (tt, refl, (refl, refl, (tt, refl, (refl, refl, (tt, refl, (refl, refl, tt))))))),
)

available-run_stream_example :
    IsCounted one_file_stdio place_in extent_in reads_in writes_in clean_in
      (run_calls one_file_stdio (open_stream one_file_stdio new_stream (some 3)) turns)
available-run_stream_example =
    available-run_stream one_file_stdio place_in extent_in reads_in writes_in clean_in
      one_file_stdio-IsStdio new_stream (some 3) turns refl refl turns-AreOrdered
