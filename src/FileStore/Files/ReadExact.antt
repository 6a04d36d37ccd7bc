-- ===== src/FileStore/Files/ReadExact.antt =====
-- FileStore.h: reads of a given number of bytes, and the bytes that writes in turn make.
use micro_store.Base.{
  ℕ, ◌<◌, ◌≤◌, ◌≡◌, take, drop, take-append_of_le, drop-append_of_le, none, some, List, ◌++◌, arith,
  length, length-append, take-append, drop-append,
}
use micro_store.FileStore.Files.{read_exact}

pub read_exact-append :
    (xs ys : List ℕ) (n : ℕ) → n ≡ length xs → read_exact n (xs ++ ys) ≡ some (xs, ys)
unfolding read_exact
read_exact-append xs ys n h =
    ground (arith, length-append xs ys, take-append xs ys n, drop-append xs ys n)

pub read_exact_short : (n : ℕ) (bytes : List ℕ) → length bytes < n → read_exact n bytes ≡ none
unfolding read_exact
read_exact_short n bytes h = ground arith

-- A read that stays in the first part of an append.
pub read_exact_within :
    (xs ys : List ℕ) (n : ℕ)
    → n ≤ length xs
    → read_exact n (xs ++ ys) ≡ some (take n xs, drop n xs ++ ys)
unfolding read_exact
read_exact_within xs ys n h =
    ground (arith, length-append xs ys, take-append_of_le xs ys n, drop-append_of_le xs ys n)
