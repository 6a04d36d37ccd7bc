-- ===== src/Assoc.antt =====
-- Maps from byte strings, as association lists: `std::map` of HeapStore.h keeps its list sorted
-- by key, `std::unordered_map` of FileStore.h keeps its list in the order of insertion.
use micro_store.Base.{
  ℕ, ◌+◌, ◌≤◌, ◌≡◌, refl, Option, none, some, List, [], ◌∷◌, arith, length, bytes_eq, bytes_eq_iff,
  bytes_eq_refl, if◌then◌else◌,
}

abbrev pub Key : Type 0
Key = List ℕ

module _ {ℓ} {V : Type ℓ} where
  -- `find`: the value under the key.
  unfoldable pub lookup : Key → List (Key × V) → Option V
  lookup k [] = none
  lookup k ((j, v) ∷ l) = if bytes_eq j k then some v else lookup k l

  -- `erase(key)`: the map without the key.
  unfoldable pub erase : Key → List (Key × V) → List (Key × V)
  erase k [] = []
  erase k ((j, v) ∷ l) = let rest = erase k l in if bytes_eq j k then rest else (j, v) ∷ rest

  -- `operator[]` and an assignment, for the map in the order of insertion.
  unfoldable pub assign : Key → V → List (Key × V) → List (Key × V)
  assign k v [] = (k, v) ∷ []
  assign k v ((j, w) ∷ l) =
      let rest = assign k v l in if bytes_eq j k then (k, v) ∷ l else (j, w) ∷ rest

  pub lookup-erase :
      (k j : Key) (l : List (Key × V))
      → lookup j (erase k l) ≡ (if bytes_eq k j then none else lookup j l)
  unfolding lookup erase
  lookup-erase k j [] = ground arith
  lookup-erase k j ((i, v) ∷ l) =
      ground (arith, lookup-erase k j l, bytes_eq_iff i k, bytes_eq_iff i j, bytes_eq_iff k j)

  pub lookup-assign :
      (k j : Key) (v : V) (l : List (Key × V))
      → lookup j (assign k v l) ≡ (if bytes_eq k j then some v else lookup j l)
  unfolding lookup assign
  lookup-assign k j v [] = refl
  lookup-assign k j v ((i, w) ∷ l) =
      ground (arith, lookup-assign k j v l, bytes_eq_iff i k, bytes_eq_iff i j, bytes_eq_iff k j)

  pub length-erase-le : (k : Key) (l : List (Key × V)) → length (erase k l) ≤ length l
  unfolding erase
  length-erase-le k [] = omega arith
  length-erase-le k ((j, v) ∷ l) = ground (arith, length-erase-le k l)

  -- Assigning adds an entry exactly when the key is new.
  pub length-assign :
      (k : Key) (v : V) (l : List (Key × V))
      → length (assign k v l) ≡ (elim (lookup k l) [ none ↦ length l + 1 | some _ ↦ length l ])
  unfolding lookup assign
  length-assign k v [] = omega arith
  length-assign k v ((j, w) ∷ l) = ground (arith, length-assign k v l)

pub lookup-erase_self {ℓ} :
    {V : Type ℓ} (k : Key) (l : List (Key × V)) → lookup k (erase k l) ≡ none
lookup-erase_self k l = rw (lookup-erase k k l, bytes_eq_refl k)

-- No key occurs twice.
abbrev pub IsDistinct {ℓ} : {V : Type ℓ} → List (Key × V) → Type ℓ
IsDistinct [] = Unit
IsDistinct ((k, v) ∷ l) = (lookup k l ≡ none) × IsDistinct l

module _ {ℓ} {V : Type ℓ} where
  pub assign-IsDistinct :
      (k : Key) (v : V) (l : List (Key × V)) → IsDistinct l → IsDistinct (assign k v l)
  unfolding lookup assign
  assign-IsDistinct k v [] d = (refl, tt)
  assign-IsDistinct k v ((j, w) ∷ l) d = ground (
    arith,
    assign-IsDistinct k v l d.1,
    lookup-assign k j v l,
    bytes_eq_iff j k,
    bytes_eq_iff k j,
  )

  pub erase-IsDistinct : (k : Key) (l : List (Key × V)) → IsDistinct l → IsDistinct (erase k l)
  unfolding lookup erase
  erase-IsDistinct k [] d = tt
  erase-IsDistinct k ((j, w) ∷ l) d =
      ground
        (arith, erase-IsDistinct k l d.1, lookup-erase k j l, bytes_eq_iff j k, bytes_eq_iff k j)

  erase_absent : (k : Key) (l : List (Key × V)) → lookup k l ≡ none → erase k l ≡ l
  unfolding lookup erase
  erase_absent k [] h = refl
  erase_absent k ((j, w) ∷ l) h = ground (arith, erase_absent k l)

  -- Of a map with each key once, an erased key that is there takes one entry away.
  pub length-erase :
      (k : Key) (l : List (Key × V)) (v : V)
      → IsDistinct l
      → lookup k l ≡ some v
      → length (erase k l) + 1 ≡ length l
  unfolding lookup erase
  length-erase k [] v d h = ground arith
  length-erase k ((j, w) ∷ l) v d h =
      ground (arith, length-erase k l v d.1, erase_absent k l, bytes_eq_iff j k)
