-- ===== src/Tests/Posix.antt =====
-- include/microStore/Adapters/PosixFileSystem.h on a world with one file.
use micro_store.Base.{
  leb, ◌==◌, if◌then◌else◌, ℕ, ◌+◌, ◌-◌, ◌≡◌, refl, some, List, [], ◌∷◌, ◌++◌, arith, length, take,
  drop, replicate, zero, suc, ap, length-append, length-take, length-drop,
}
use micro_store.PosixFile.{Posix, SeekMode, seek_mode_cur, seek_mode_end, seek_mode_set}

pub record OneFile : Type 0 where
  pub content : List ℕ
  pub place : ℕ

abbrev pub lseek_to : OneFile → ℕ → SeekMode → ℕ
lseek_to w pos seek_mode_set = pos
lseek_to w pos seek_mode_cur = w.place + pos
lseek_to w pos seek_mode_end = length w.content + pos

-- The bytes before the place, with zeros where the file has none.
abbrev pub before_place : OneFile → List ℕ
before_place w = take w.place w.content ++ replicate (w.place - length w.content) 0

-- The file with bytes at the place; no byte leaves it as it is.
abbrev pub place_bytes : OneFile → List ℕ → List ℕ
place_bytes w [] = w.content
place_bytes w (b ∷ bytes) =
    before_place w ++ ((b ∷ bytes) ++ drop (w.place + length (b ∷ bytes)) w.content)

abbrev one_file_posix : Posix OneFile
one_file_posix = record {
  read = λ w fd n.
      let bytes = take n (drop w.place w.content) in
      (record w { place = w.place + length bytes }, some bytes);
  write = λ w fd bytes. (
    record { content = place_bytes w bytes; place = w.place + length bytes },
    some (length bytes),
  );
  lseek = λ w fd pos mode. (record w { place = lseek_to w pos mode }, some (lseek_to w pos mode));
  step_back = λ w fd. record w { place = w.place - 1 };
  size = λ w fd. length w.content;
  close = λ w fd. w;
  fsync = λ w fd. w;
}

length-replicate : (n : ℕ) → length (replicate {A = ℕ} n 0) ≡ n
length-replicate zero = refl
length-replicate (suc n) = ap suc (length-replicate n)

-- The length of the file with bytes written at its place.
length-before_place :
    (w : OneFile) (bytes : List ℕ)
    → length (before_place w ++ (bytes ++ drop (w.place + length bytes) w.content)) ≡ (
        if leb (w.place + length bytes) (length w.content)
        then length w.content
        else w.place + length bytes)
length-before_place w bytes = ground (
  arith,
  length-append (before_place w) (bytes ++ drop (w.place + length bytes) w.content),
  length-append (take w.place w.content) (replicate (w.place - length w.content) 0),
  length-append bytes (drop (w.place + length bytes) w.content),
  length-take w.place w.content,
  length-replicate (w.place - length w.content),
  length-drop (w.place + length bytes) w.content,
)

pub length-place_bytes :
    (w : OneFile) (bytes : List ℕ)
    → length (place_bytes w bytes) ≡ (
        if length bytes == 0
        then length w.content
        else if leb (w.place + length bytes) (length w.content)
        then length w.content
        else w.place + length bytes)
length-place_bytes w [] = refl
length-place_bytes w (b ∷ bytes) = ground (arith, length-before_place w (b ∷ bytes))

abbrev pub new_world : OneFile
new_world = record { content = 1 ∷ 2 ∷ 3 ∷ []; place = 0 }
