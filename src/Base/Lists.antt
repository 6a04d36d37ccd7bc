-- ===== src/Base/Lists.antt =====
-- Lists measured and cut by native numbers, under the library's names.
use Prim.Native.Nat.{ℕ, zero, suc, ◌+◌, ◌-◌, ◌≤◌, min}
use mathlib.Core.Path.{◌≡◌, refl, ap}
use mathlib.Core.List.{List, [], ◌∷◌, ◌++◌}
use native.Mathlib.Omega.{arith}

module _ {ℓ} {A : Type ℓ} where
  abbrev pub length : List A → ℕ
  length [] = 0
  length (b ∷ bs) = suc (length bs)

  abbrev pub get_or : List A → ℕ → A → A
  get_or [] i d = d
  get_or (x ∷ xs) zero d = x
  get_or (x ∷ xs) (suc i) d = get_or xs i d

  abbrev pub take : ℕ → List A → List A
  take zero xs = []
  take (suc n) [] = []
  take (suc n) (b ∷ bs) = b ∷ take n bs

  abbrev pub drop : ℕ → List A → List A
  drop zero xs = xs
  drop (suc n) [] = []
  drop (suc n) (x ∷ xs) = drop n xs

  abbrev pub replicate : ℕ → A → List A
  replicate zero a = []
  replicate (suc n) a = a ∷ replicate n a

module _ {ℓ} {A : Type ℓ} where
  pub length-append : (xs ys : List A) → length (xs ++ ys) ≡ length xs + length ys
  length-append [] ys = omega arith
  length-append (x ∷ xs) ys = omega (arith, length-append xs ys)

  pub length-take : (n : ℕ) (xs : List A) → length (take n xs) ≡ min n (length xs)
  length-take zero xs = omega arith
  length-take (suc n) [] = omega arith
  length-take (suc n) (x ∷ xs) = omega (arith, length-take n xs)

  pub length-drop : (n : ℕ) (xs : List A) → length (drop n xs) ≡ length xs - n
  length-drop zero xs = omega arith
  length-drop (suc n) [] = omega arith
  length-drop (suc n) (x ∷ xs) = omega (arith, length-drop n xs)

  -- A cut behind the end.
  pub take_of_length-le : (n : ℕ) (all : List A) → length all ≤ n → take n all ≡ all
  take_of_length-le zero [] short = refl
  take_of_length-le (suc n) [] short = refl
  take_of_length-le zero (b ∷ bs) short = absurd (omega arith)
  take_of_length-le (suc n) (b ∷ bs) short =
      ap (λ rest. b ∷ rest) (take_of_length-le n bs (omega arith))

  -- The cut at the seam of an append.
  pub take-append : (xs ys : List A) (n : ℕ) → n ≡ length xs → take n (xs ++ ys) ≡ xs
  take-append [] ys zero h = refl
  take-append [] ys (suc n) h = absurd (omega arith)
  take-append (x ∷ xs) ys zero h = absurd (omega arith)
  take-append (x ∷ xs) ys (suc n) h = ap (◌∷◌ x) (take-append xs ys n (omega arith))

  pub drop-append : (xs ys : List A) (n : ℕ) → n ≡ length xs → drop n (xs ++ ys) ≡ ys
  drop-append [] ys zero h = refl
  drop-append [] ys (suc n) h = absurd (omega arith)
  drop-append (x ∷ xs) ys zero h = absurd (omega arith)
  drop-append (x ∷ xs) ys (suc n) h = drop-append xs ys n (omega arith)

  pub take-append_of_le : (xs ys : List A) (n : ℕ) → n ≤ length xs → take n (xs ++ ys) ≡ take n xs
  take-append_of_le xs ys zero h = refl
  take-append_of_le [] ys (suc n) h = absurd (omega arith)
  take-append_of_le (x ∷ xs) ys (suc n) h = ap (◌∷◌ x) (take-append_of_le xs ys n (omega arith))

  pub drop-append_of_le :
      (xs ys : List A) (n : ℕ) → n ≤ length xs → drop n (xs ++ ys) ≡ drop n xs ++ ys
  drop-append_of_le xs ys zero h = refl
  drop-append_of_le [] ys (suc n) h = absurd (omega arith)
  drop-append_of_le (x ∷ xs) ys (suc n) h = drop-append_of_le xs ys n (omega arith)

  pub drop-add : (n m k : ℕ) (xs : List A) → k ≡ n + m → drop k xs ≡ drop m (drop n xs)
  drop-add zero m k xs h = let e : k ≡ m = omega arith in rw e
  drop-add (suc n) m zero xs h = absurd (omega arith)
  drop-add (suc n) zero (suc k) [] h = refl
  drop-add (suc n) (suc m) (suc k) [] h = refl
  drop-add (suc n) m (suc k) (x ∷ xs) h = drop-add n m k xs (omega arith)

  -- A cut behind the seam of an append.
  pub take-append_of_ge :
      (xs ys : List A) (n m : ℕ) → n ≡ length xs + m → take n (xs ++ ys) ≡ xs ++ take m ys
  take-append_of_ge [] ys n m h = let e : n ≡ m = omega arith in rw e
  take-append_of_ge (x ∷ xs) ys zero m h = absurd (omega arith)
  take-append_of_ge (x ∷ xs) ys (suc n) m h = ap (◌∷◌ x) (take-append_of_ge xs ys n m (omega arith))
