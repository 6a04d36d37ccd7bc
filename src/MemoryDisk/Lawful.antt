-- ===== src/MemoryDisk/Lawful.antt =====
-- The file system in memory keeps every promise that the proofs about FileStore.h rest on.
use micro_store.Base.{
  ℕ, ◌≡◌, ◌≢◌, refl, true, Option, none, some, List, [], ◌++◌, arith, bytes_eq_iff, bytes_eq_refl,
  Option-cases, inl, inr,
}
use micro_store.Assoc.{lookup, erase, lookup-erase, lookup-assign}
use micro_store.FileStore.Files.{FilePath}
use micro_store.FileStore.Files.Lawful.{IsLawful, or_empty}
use micro_store.MemoryDisk.{Contents, memory, open_or_make, append_to, remove_from, rename_from}

module _ (d : Contents) (p q : FilePath) where
  write_self_lem :
      (bytes c : List ℕ)
      → lookup p d ≡ some c
      → lookup p (append_to d p bytes (lookup p d)).0 ≡ some (c ++ bytes)
  unfolding append_to
  write_self_lem bytes c h = ground (arith, lookup-assign p p (c ++ bytes) d, bytes_eq_refl p)

  write_other_lem :
      (bytes : List ℕ) (o : Option (List ℕ))
      → p ≢ q
      → lookup q (append_to d p bytes o).0 ≡ lookup q d
  unfolding append_to
  write_other_lem bytes none h = refl
  write_other_lem bytes (some c) h =
      ground (arith, lookup-assign p q (c ++ bytes) d, bytes_eq_iff p q)

  open_self_lem : lookup p (open_or_make d p (lookup p d)).0 ≡ some (or_empty (lookup p d))
  unfolding open_or_make
  open_self_lem = elim (Option-cases (lookup p d)) [
    | inl e ↦ ground (arith, lookup-assign p p [] d, bytes_eq_refl p)
    | inr (c, e) ↦ ground arith
  ]

  open_ok_lem : (o : Option (List ℕ)) → (open_or_make d p o).1 ≡ true
  unfolding open_or_make
  open_ok_lem none = refl
  open_ok_lem (some c) = refl

  open_other_lem : (o : Option (List ℕ)) → p ≢ q → lookup q (open_or_make d p o).0 ≡ lookup q d
  unfolding open_or_make
  open_other_lem none h = ground (arith, lookup-assign p q [] d, bytes_eq_iff p q)
  open_other_lem (some c) h = refl

  remove_self_lem : lookup p (remove_from d p (lookup p d)).0 ≡ none
  unfolding remove_from
  remove_self_lem = elim (Option-cases (lookup p d)) [
    | inl e ↦ ground arith
    | inr (c, e) ↦ ground (arith, lookup-erase p p d, bytes_eq_refl p)
  ]

  remove_other_lem : (o : Option (List ℕ)) → p ≢ q → lookup q (remove_from d p o).0 ≡ lookup q d
  unfolding remove_from
  remove_other_lem none h = refl
  remove_other_lem (some c) h = ground (arith, lookup-erase p q d, bytes_eq_iff p q)

  rename_from_lem : p ≢ q → lookup p (rename_from d p q (lookup p d)).0 ≡ none
  unfolding rename_from
  rename_from_lem h = elim (Option-cases (lookup p d)) [
    | inl e ↦ ground arith
    | inr (c, e) ↦ ground (
      arith,
      lookup-assign q p c (erase p d),
      lookup-erase p p d,
      bytes_eq_refl p,
      bytes_eq_iff q p,
    )
  ]

  rename_other_lem :
      (r : FilePath) (o : Option (List ℕ))
      → p ≢ r
      → q ≢ r
      → lookup r (rename_from d p q o).0 ≡ lookup r d
  unfolding rename_from
  rename_other_lem r none h k = refl
  rename_other_lem r (some c) h k = ground (
    arith,
    lookup-assign q r c (erase p d),
    lookup-erase p r d,
    bytes_eq_iff p r,
    bytes_eq_iff q r,
  )

pub memory-IsLawful : IsLawful memory
unfolding memory
memory-IsLawful = record {
  write_self = λ d p bytes c h. write_self_lem d p p bytes c h;
  write_count = λ d p bytes c h. unfold append_to in ground arith;
  write_other = λ d p q bytes h. write_other_lem d p q bytes (lookup p d) h;
  open_append_ok = λ d p. open_ok_lem d p p (lookup p d);
  open_append_self = λ d p. open_self_lem d p p;
  open_append_other = λ d p q h. open_other_lem d p q (lookup p d) h;
  open_write_ok = λ d p. refl;
  open_write_self = λ d p. ground (arith, lookup-assign p p [] d, bytes_eq_refl p);
  open_write_other = λ d p q h. ground (arith, lookup-assign p q [] d, bytes_eq_iff p q);
  remove_self = λ d p. remove_self_lem d p p;
  remove_other = λ d p q h. remove_other_lem d p q (lookup p d) h;
  rename_ok = λ d p q c h. unfold rename_from in ground arith;
  rename_to = λ d p q c h.
      unfold rename_from in ground (arith, lookup-assign q q c (erase p d), bytes_eq_refl q);
  rename_from = λ d p q h. rename_from_lem d p q h;
  rename_other = λ d p q r h k. rename_other_lem d p q r (lookup p d) h k;
  rename_missing = λ d p q h. unfold rename_from in ground arith;
  rename_missing_all = λ d p q r h. unfold rename_from in ground arith;
}
