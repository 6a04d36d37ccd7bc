-- ===== src/FileStore/Names.antt =====
-- FileStore.h: the names of the files, in a buffer of 64 characters with its final zero.
pub mod Distinct
use Prim.Native.Char.{code}
use Prim.Native.String.{String}
use micro_store.Base.{
  ℕ, zero, suc, ◌+◌, ◌-◌, ◌/◌, ◌%◌, List, [], ◌∷◌, ◌++◌, length, take, drop, get_or, ltb, ◌==◌,
  ◌&&◌, if◌then◌else◌,
}
use micro_store.FileStore.Files.{FilePath}

-- The bytes of a literal.
abbrev pub codes : String → List ℕ
codes String.[] = []
codes (String.◌∷◌ c s) = code c ∷ codes s

-- USTORE_MAX_FILENAME_LEN, less the final zero
abbrev pub max_name : ℕ
max_name = 63

-- `%u`: the decimal digits of a `uint32_t`, of which there are at most ten.
unfoldable pub decimal_loop : ℕ → ℕ → List ℕ → List ℕ
decimal_loop zero n acc = acc
decimal_loop (suc f) n acc =
    let rest = decimal_loop f (n / 10) ((48 + n % 10) ∷ acc) in
    if ltb n 10 then (48 + n) ∷ acc else rest

unfoldable pub decimal : ℕ → List ℕ
decimal n = decimal_loop 10 n []

-- A trailing '/' makes the prefix a folder.
unfoldable pub prefix_sep : List ℕ → List ℕ
prefix_sep prefix =
    if ltb 0 (length prefix) && get_or prefix (length prefix - 1) 0 == b'/' then [] else b'_' ∷ []

unfoldable pub segment_name : List ℕ → ℕ → FilePath
segment_name prefix id =
    take max_name (prefix ++ (prefix_sep prefix ++ (codes "seg" ++ (decimal id ++ codes ".dat"))))

unfoldable pub index_name : List ℕ → FilePath
index_name prefix = take max_name (prefix ++ (prefix_sep prefix ++ codes "index.dat"))

unfoldable pub journal_name : List ℕ → FilePath
journal_name prefix = take max_name (prefix ++ (prefix_sep prefix ++ codes "journal.dat"))

unfoldable pub tmp_name : List ℕ → FilePath
tmp_name prefix = take max_name (prefix ++ (prefix_sep prefix ++ codes "compact.tmp"))
