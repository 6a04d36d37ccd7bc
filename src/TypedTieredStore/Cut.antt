-- ===== src/TypedTieredStore/Cut.antt =====
-- TypedTieredStore.h: what the links of a list become when a slot is taken out of it, or put in
-- front of it.
use micro_store.Base.{
  ℕ, ◌≡◌, refl, ap, sym, ◌∙◌, true, false, none, some, List, [], ◌∷◌, arith, ◌==◌, ==_iff,
  if◌then◌else◌, Bool-cases, Option-cases, inl, inr,
}
use micro_store.TypedTieredStore.Slots.{Link}
use micro_store.TypedTieredStore.Links.{link_eq}
use micro_store.TypedTieredStore.Chain.{
  has, without, NoRepeat, first, end_of, before, Forward, Backward, Forward-same, Backward-same,
  next_has, before-has,
}

-- The forward links when `i`, which stands behind `k`, is passed over.
abbrev pub cut_next : (ℕ → Link) → Link → ℕ → ℕ → Link
cut_next next k i j = if i == j then none else if link_eq k (some j) then next i else next j

abbrev pub cut_prev : (ℕ → Link) → (ℕ → Link) → ℕ → ℕ → Link
cut_prev prev next i j =
    if i == j then none else if link_eq (next i) (some j) then prev i else prev j

-- No member of the list is at the link.
abbrev pub Outside : Link → List ℕ → Type 0
Outside none l = Unit {0}
Outside (some x) l = has x l ≡ false

not_at : (k : Link) (l : List ℕ) (z : ℕ) → Outside k l → has z l ≡ true → link_eq k (some z) ≡ false
not_at none l z o h = refl
not_at (some x) l z o h = ground arith

not_before :
    (x w : ℕ) (l : List ℕ) (i : ℕ)
    → has i l ≡ true
    → has x (w ∷ l) ≡ false
    → link_eq (before (some w) l i) (some x) ≡ false
not_before x w l i h out = elim (Option-cases (before (some w) l i)) [
  | inl e ↦ rw e
  | inr (z, e) ↦ rw e (ground (arith, before-has w l i z))
]

cut_next_head :
    (next : ℕ → Link) (x : ℕ) (l : List ℕ) (i : ℕ)
    → next x ≡ first l
    → Forward next l
    → (x == i) ≡ false
    → has x l ≡ false
    → has i l ≡ true
    → cut_next next (before (some x) l i) i x ≡ first (without i l)
cut_next_head next x [] i e f ne out h = ground arith
cut_next_head next x (w ∷ l) i e f ne out h = elim (Bool-cases (w == i)) [
  | inl at ↦ ground arith
  | inr other ↦ ground (arith, not_before x w l i)
]

pub Forward-cut :
    (next : ℕ → Link) (k : Link) (l : List ℕ) (i : ℕ)
    → Forward next l
    → NoRepeat l
    → has i l ≡ true
    → Outside k l
    → Forward (cut_next next (before k l i) i) (without i l)
Forward-cut next k [] i f u h o = tt
Forward-cut next k (x ∷ l) i f u h o = elim (Bool-cases (x == i)) [
  | inl e ↦
      rw e
        (Forward-same next (cut_next next k i) l (λ z m. ground (arith, not_at k (x ∷ l) z o)) f.1)
  | inr e ↦ rw e (
    cut_next_head next x l i f.0 f.1 e u.0 (ground arith),
    Forward-cut next (some x) l i f.1 u.1 (ground arith) u.0,
  )
]

cut_prev_next :
    (next prev : ℕ → Link) (i y : ℕ) (l : List ℕ)
    → next i ≡ some y
    → has i (y ∷ l) ≡ false
    → cut_prev prev next i y ≡ prev i
cut_prev_next next prev i y l e out = ground arith

cut_prev_rest :
    (next prev : ℕ → Link) (i y z : ℕ) (l : List ℕ)
    → next i ≡ some y
    → has i (y ∷ l) ≡ false
    → has y l ≡ false
    → has z l ≡ true
    → cut_prev prev next i z ≡ prev z
cut_prev_rest next prev i y z l e out once m = ground arith

cut_prev_head :
    (next prev : ℕ → Link) (i x : ℕ) (l : List ℕ)
    → Forward next l
    → (x == i) ≡ false
    → has x l ≡ false
    → has i l ≡ true
    → cut_prev prev next i x ≡ prev x
cut_prev_head next prev i x l f ne out h = elim (Option-cases (next i)) [
  | inl e ↦ ground arith
  | inr (z, e) ↦ ground (arith, next_has next l i x f)
]

pub Backward-cut :
    (next prev : ℕ → Link) (k : Link) (l : List ℕ) (i : ℕ)
    → Forward next l
    → Backward prev k l
    → NoRepeat l
    → has i l ≡ true
    → Backward (cut_prev prev next i) k (without i l)
Backward-cut next prev k [] i f b u h = tt
Backward-cut next prev k (x ∷ []) i f b u h = ground arith
Backward-cut next prev k (x ∷ y ∷ l) i f b u h = elim (Bool-cases (x == i)) [
  | inl e ↦
      let at : x ≡ i = (==_iff x i).0 e in
      let to : next i ≡ some y = ap next (sym at) ∙ f.0 in
      let out : has i (y ∷ l) ≡ false = ap (λ z. has z (y ∷ l)) (sym at) ∙ u.0 in
      rw e (
        cut_prev_next next prev i y l to out ∙ (ap prev (sym at) ∙ b.0),
        Backward-same prev (cut_prev prev next i) (some y) l
            (λ z m. cut_prev_rest next prev i y z l to out u.1.0 m) b.1.1,
      )
  | inr e ↦ rw e (
    cut_prev_head next prev i x (y ∷ l) f.1 e u.0 (ground arith) ∙ b.0,
    Backward-cut next prev (some x) (y ∷ l) i f.1 b.1 u.1 (ground arith),
  )
]

before-some :
    (x : ℕ) (l : List ℕ) (i : ℕ) → has i l ≡ true → (z : ℕ) × (before (some x) l i ≡ some z)
before-some x [] i h = absurd (ground arith)
before-some x (y ∷ l) i h = elim (Bool-cases (y == i)) [
  | inl e ↦ (x, rw e)
  | inr e ↦ rw e (before-some y l i (ground arith))
]

abbrev pub or_else : Link → Link → Link → Link
or_else none a b = a
or_else (some z) a b = b

-- The two ends of the list that is left.
pub first-without :
    (next : ℕ → Link) (l : List ℕ) (i : ℕ)
    → Forward next l
    → has i l ≡ true
    → first (without i l) ≡ or_else (before none l i) (next i) (first l)
first-without next [] i f h = ground arith
first-without next (x ∷ l) i f h = elim (Bool-cases (x == i)) [
  | inl e ↦ rw e (sym f.0 ∙ ap next ((==_iff x i).0 e))
  | inr e ↦
      let (z, e') = before-some x l i (ground arith) in
      rw e (ap (λ k. or_else k (next i) (some x)) (sym e'))
]

pub end_of-without :
    (next prev : ℕ → Link) (k : Link) (l : List ℕ) (i : ℕ)
    → Forward next l
    → Backward prev k l
    → has i l ≡ true
    → end_of k (without i l) ≡ or_else (next i) (prev i) (end_of k l)
end_of-without next prev k [] i f b h = ground arith
end_of-without next prev k (x ∷ []) i f b h = ground arith
end_of-without next prev k (x ∷ y ∷ l) i f b h =
    ground (arith, end_of-without next prev (some x) (y ∷ l) i f.1 b.1)

-- A slot in front of the list.
abbrev pub lead_next : (ℕ → Link) → Link → ℕ → ℕ → Link
lead_next next head i j = if i == j then head else next j

abbrev pub lead_prev : (ℕ → Link) → Link → ℕ → ℕ → Link
lead_prev prev head i j = if link_eq head (some j) then some i else if i == j then none else prev j

pub Forward-lead :
    (next : ℕ → Link) (l : List ℕ) (i : ℕ)
    → Forward next l
    → has i l ≡ false
    → Forward (lead_next next (first l) i) (i ∷ l)
Forward-lead next l i f out =
    (ground arith, Forward-same next (lead_next next (first l) i) l (λ z m. ground arith) f)

pub Backward-lead :
    (prev : ℕ → Link) (l : List ℕ) (i : ℕ)
    → Backward prev none l
    → NoRepeat l
    → has i l ≡ false
    → Backward (lead_prev prev (first l) i) none (i ∷ l)
Backward-lead prev [] i b u out = ground arith
Backward-lead prev (x ∷ l) i b u out = (
  ground arith,
  (
    ground arith,
    Backward-same prev (lead_prev prev (some x) i) (some x) l (λ z m. ground arith) b.1,
  ),
)
