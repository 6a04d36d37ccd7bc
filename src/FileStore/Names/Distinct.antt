-- ===== src/FileStore/Names/Distinct.antt =====
-- FileStore.h: when the names of a store's files differ.
use micro_store.Base.{
  ℕ, zero, suc, ◌+◌, ◌-◌, ◌*◌, ◌≤◌, ◌<◌, ◌≡◌, ◌≢◌, refl, ap, sym, ◌∙◌, Bool, true, ◌&&◌, List, [],
  ◌∷◌, ◌++◌, arith, length, take, drop, take-append_of_le, take_of_length-le, length-append,
  drop-append, leb, ◌==◌, if◌then◌else◌, Bool-cases, inl, inr,
}
use mathlib.Core.List.{append_assoc}
use micro_store.FileStore.Names.{
  codes, max_name, decimal, decimal_loop, prefix_sep, segment_name, index_name, journal_name,
  tmp_name,
}

first_or : List ℕ → ℕ
first_or [] = 0
first_or (x ∷ xs) = x

-- Two names that differ at a place within the buffer differ.
differ_at :
    (xs ys zs : List ℕ) (a b n : ℕ)
    → a ≢ b
    → length xs < n
    → take n (xs ++ a ∷ ys) ≢ take n (xs ++ b ∷ zs)
unfolding first_or
differ_at [] ys zs a b zero ne h = λ e. absurd (omega arith)
differ_at [] ys zs a b (suc n) ne h = λ e. ne (ap first_or e)
differ_at (x ∷ xs) ys zs a b zero ne h = λ e. absurd (omega arith)
differ_at (x ∷ xs) ys zs a b (suc n) ne h =
    λ e. differ_at xs ys zs a b n ne (omega arith) (ap (drop 1) e)

-- The prefix with its separator.
stem : List ℕ → List ℕ
stem prefix = prefix ++ prefix_sep prefix

length-stem : (prefix : List ℕ) → length (stem prefix) ≤ length prefix + 1
unfolding stem prefix_sep
length-stem prefix = ground (arith, length-append prefix (prefix_sep prefix))

-- A name is the stem and its own part, cut to the buffer.
name_stem :
    (prefix part : List ℕ)
    → take max_name (prefix ++ (prefix_sep prefix ++ part)) ≡ take max_name (stem prefix ++ part)
unfolding stem
name_stem prefix part = simp append_assoc

-- With a prefix of at most 61 characters the index file, the journal, compact.tmp and every
-- segment file have different names.
pub names_apart :
    (prefix : List ℕ) (id : ℕ)
    → length prefix ≤ 61
    → (segment_name prefix id ≢ index_name prefix)
      × (segment_name prefix id ≢ journal_name prefix)
      × (segment_name prefix id ≢ tmp_name prefix)
      × (index_name prefix ≢ journal_name prefix)
      × (index_name prefix ≢ tmp_name prefix)
      × (journal_name prefix ≢ tmp_name prefix)
unfolding segment_name index_name journal_name tmp_name
names_apart prefix id h =
    let room : length (stem prefix) < max_name = omega (arith, length-stem prefix) in
    rw
      (
        name_stem prefix (codes "seg" ++ (decimal id ++ codes ".dat")),
        name_stem prefix (codes "index.dat"),
        name_stem prefix (codes "journal.dat"),
        name_stem prefix (codes "compact.tmp"),
      )
      (
        differ_at (stem prefix) _ _ _ _ max_name (omega arith) room,
        differ_at (stem prefix) _ _ _ _ max_name (omega arith) room,
        differ_at (stem prefix) _ _ _ _ max_name (omega arith) room,
        differ_at (stem prefix) _ _ _ _ max_name (omega arith) room,
        differ_at (stem prefix) _ _ _ _ max_name (omega arith) room,
        differ_at (stem prefix) _ _ _ _ max_name (omega arith) room,
      )

-- The number that the digits at the front of a text stand for.
number : ℕ → List ℕ → ℕ
number n [] = n
number n (c ∷ cs) =
    let rest = number (n * 10 + (c - 48)) cs in if leb 48 c && leb c 57 then rest else n

reads_back : ℕ → Bool
unfolding number
reads_back i = number 0 (decimal i ++ codes ".dat") == i && leb (length (decimal i)) 3

-- Every segment id is a byte, so that the digits are checked for each.
ids_read_back : ℕ → Bool
ids_read_back zero = true
ids_read_back (suc count) = ids_read_back count && reads_back count

id_reads_back : (count id : ℕ) → id < count → ids_read_back count ≡ true → reads_back id ≡ true
unfolding ids_read_back
id_reads_back zero id h checked = absurd (omega arith)
id_reads_back (suc count) id h checked = elim (Bool-cases (id == count)) [
  | inl last ↦ ground arith
  | inr before ↦ id_reads_back count id (ground arith) (ground arith)
]

every_id_reads_back : ids_read_back 256 ≡ true
unfolding ids_read_back reads_back decimal decimal_loop
every_id_reads_back = refl

decimal_lem :
    (i : ℕ) → i < 256 → (number 0 (decimal i ++ codes ".dat") ≡ i) × (length (decimal i) ≤ 3)
unfolding reads_back
decimal_lem i h = let e = id_reads_back 256 i h every_id_reads_back in ground arith

own_part : ℕ → List ℕ
own_part i = codes "seg" ++ (decimal i ++ codes ".dat")

whole_name :
    (prefix : List ℕ) (i : ℕ)
    → length prefix ≤ 52
    → i < 256
    → segment_name prefix i ≡ stem prefix ++ own_part i
unfolding segment_name own_part
whole_name prefix i hp hi =
    name_stem prefix (own_part i)
    ∙ take_of_length-le max_name (stem prefix ++ own_part i) (
        omega (
          arith,
          length-append (stem prefix) (own_part i),
          length-stem prefix,
          length-append (decimal i) (codes ".dat"),
          (decimal_lem i hi).1,
        ))

-- The name tells the segment's number.
segment_name_injective :
    (prefix : List ℕ) (i j : ℕ)
    → length prefix ≤ 52
    → i < 256
    → j < 256
    → segment_name prefix i ≡ segment_name prefix j
    → i ≡ j
unfolding own_part
segment_name_injective prefix i j hp hi hj e =
    let parts : stem prefix ++ own_part i ≡ stem prefix ++ own_part j =
      sym (whole_name prefix i hp hi) ∙ (e ∙ whole_name prefix j hp hj) in
    let n = length (stem prefix) in
    let own : own_part i ≡ own_part j =
      sym (drop-append (stem prefix) (own_part i) n refl)
      ∙ (ap (drop n) parts ∙ drop-append (stem prefix) (own_part j) n refl) in
    let digits : decimal i ++ codes ".dat" ≡ decimal j ++ codes ".dat" = ap (drop 3) own in
    sym (decimal_lem i hi).0 ∙ (ap (number 0) digits ∙ (decimal_lem j hj).0)

-- With a prefix of at most 52 characters, two segments with different numbers below 256 have
-- different names.
pub segment_names_differ :
    (prefix : List ℕ) (i j : ℕ)
    → length prefix ≤ 52
    → i < 256
    → j < 256
    → i ≢ j
    → segment_name prefix i ≢ segment_name prefix j
segment_names_differ prefix i j hp hi hj ne e = ne (segment_name_injective prefix i j hp hi hj e)

-- A prefix that fills the buffer leaves no room for the rest: every file of the store has the
-- same name.
pub names_collide :
    (prefix : List ℕ) (id : ℕ)
    → max_name ≤ length prefix
    → (segment_name prefix id ≡ index_name prefix)
      × (journal_name prefix ≡ index_name prefix)
      × (tmp_name prefix ≡ index_name prefix)
unfolding segment_name index_name journal_name tmp_name
names_collide prefix id h =
    let cut = λ (part : List ℕ). take-append_of_le prefix part max_name h in
    (cut _ ∙ sym (cut _), cut _ ∙ sym (cut _), cut _ ∙ sym (cut _))
