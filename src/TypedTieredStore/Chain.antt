-- ===== src/TypedTieredStore/Chain.antt =====
-- TypedTieredStore.h: the lists that links between slots spell, on functions from slots to links.
use micro_store.Base.{
  ℕ, zero, suc, ◌+◌, ◌≤◌, ◌<◌, ◌≡◌, ◌∙◌, Bool, true, false, ◌||◌, none, some, List, [], ◌∷◌, arith,
  length, ◌==◌, if◌then◌else◌, Bool-cases, inl, inr,
}
use micro_store.TypedTieredStore.Slots.{Link}

abbrev pub has : ℕ → List ℕ → Bool
has i [] = false
has i (x ∷ l) = x == i || has i l

abbrev pub without : ℕ → List ℕ → List ℕ
without i [] = []
without i (x ∷ l) = if x == i then l else x ∷ without i l

abbrev pub NoRepeat : List ℕ → Type 0
NoRepeat [] = Unit {0}
NoRepeat (x ∷ l) = (has x l ≡ false) × NoRepeat l

abbrev pub first : List ℕ → Link
first [] = none
first (x ∷ l) = some x

-- The last of the list behind the link.
abbrev pub end_of : Link → List ℕ → Link
end_of l [] = l
end_of l (x ∷ xs) = end_of (some x) xs

-- What stands before `i` in the list behind the link.
abbrev pub before : Link → List ℕ → ℕ → Link
before l [] i = none
before l (x ∷ xs) i = if x == i then l else before (some x) xs i

-- Each link leads to the next of the list, the last one nowhere.
abbrev pub Forward : (ℕ → Link) → List ℕ → Type 0
Forward next [] = Unit {0}
Forward next (x ∷ l) = (next x ≡ first l) × Forward next l

-- Each link leads to the one before, the first one where it is said.
abbrev pub Backward : (ℕ → Link) → Link → List ℕ → Type 0
Backward prev l [] = Unit {0}
Backward prev l (x ∷ xs) = (prev x ≡ l) × Backward prev (some x) xs

pub Forward-same :
    (f g : ℕ → Link) (l : List ℕ)
    → ((i : ℕ) → has i l ≡ true → g i ≡ f i)
    → Forward f l
    → Forward g l
Forward-same f g [] same h = tt
Forward-same f g (x ∷ l) same h =
    (same x (ground arith) ∙ h.0, Forward-same f g l (λ i e. same i (ground arith)) h.1)

pub Backward-same :
    (f g : ℕ → Link) (k : Link) (l : List ℕ)
    → ((i : ℕ) → has i l ≡ true → g i ≡ f i)
    → Backward f k l
    → Backward g k l
Backward-same f g k [] same h = tt
Backward-same f g k (x ∷ l) same h =
    (same x (ground arith) ∙ h.0, Backward-same f g (some x) l (λ i e. same i (ground arith)) h.1)

pub has-without :
    (i j : ℕ) (l : List ℕ) → NoRepeat l → has j (without i l) ≡ (if i == j then false else has j l)
has-without i j [] u = ground arith
has-without i j (x ∷ l) u = ground (arith, has-without i j l u.1)

pub without-NoRepeat : (i : ℕ) (l : List ℕ) → NoRepeat l → NoRepeat (without i l)
without-NoRepeat i [] u = tt
without-NoRepeat i (x ∷ l) u = ground (arith, has-without i x l u.1, without-NoRepeat i l u.1)

pub length-without : (i : ℕ) (l : List ℕ) → has i l ≡ true → length (without i l) + 1 ≡ length l
length-without i [] h = ground arith
length-without i (x ∷ l) h = ground (arith, length-without i l)

-- A list of different numbers below `n` has at most `n` of them.
pub length_of_below :
    (n : ℕ) (l : List ℕ) → NoRepeat l → ((i : ℕ) → has i l ≡ true → i < n) → length l ≤ n
length_of_below zero [] u h = omega arith
length_of_below zero (x ∷ l) u h = absurd (omega (arith, h x (ground arith)))
length_of_below (suc n) l u h =
    let r = length_of_below n in
    elim (Bool-cases (has n l)) [
      | inl e ↦
          let short =
            r (without n l) (without-NoRepeat n l u)
              (λ i m. ground (arith, h i, has-without n i l u)) in
          omega (arith, length-without n l e)
      | inr e ↦
          let short = r l u (λ i m. elim (Bool-cases (n == i)) [
            | inl e' ↦ ground arith
            | inr e' ↦ ground (arith, h i m)
          ]) in
          omega arith
    ]

-- The link out of a member of the list leads to a member.
pub next_has :
    (next : ℕ → Link) (l : List ℕ) (i y : ℕ)
    → Forward next l
    → has i l ≡ true
    → next i ≡ some y
    → has y l ≡ true
next_has next [] i y f h e = ground arith
next_has next (x ∷ []) i y f h e = ground arith
next_has next (x ∷ z ∷ l) i y f h e = ground (arith, next_has next (z ∷ l) i y f.1)

pub before-has :
    (x : ℕ) (l : List ℕ) (i z : ℕ)
    → has i l ≡ true
    → before (some x) l i ≡ some z
    → has z (x ∷ l) ≡ true
before-has x [] i z h e = ground arith
before-has x (y ∷ l) i z h e = ground (arith, before-has y l i z)

pub Backward-before :
    (prev : ℕ → Link) (k : Link) (l : List ℕ) (i : ℕ)
    → Backward prev k l
    → has i l ≡ true
    → prev i ≡ before k l i
Backward-before prev k [] i b h = ground arith
Backward-before prev k (x ∷ l) i b h = ground (arith, Backward-before prev (some x) l i b.1)
