-- ===== src/FileStore/Operations/Quiet.antt =====
-- FileStore.h: an operation that sets off no compaction, and its count of dead records.
use micro_store.Base.{
  ℕ, zero, suc, ◌+◌, ◌*◌, ◌/◌, ◌%◌, ◌^◌, ◌≤◌, ◌<◌, ◌≡◌, refl, false, Option, none, some, arith,
  length, ltb, Option-cases, inl, inr,
}
use native.Mathlib.Nat.{div-lt_iff_lt-mul}
use micro_store.Assoc.{Key, lookup, assign, length-assign}
use micro_store.FileStore.Index.{IndexValue}
use micro_store.FileStore.Files.{FileSystem}
use micro_store.FileStore.State.{FileStore, Clock}
use micro_store.FileStore.Operations.{
  compact_if_threshold, compact_threshold, count_found, enforce_limit,
}

div_lt : (x y n : ℕ) → x < n * y → x / y < n
div_lt x zero n h = absurd (omega arith)
div_lt x (suc y) n h = (div-lt_iff_lt-mul {k = suc y} (omega arith)).1 (grind arith)

-- The dead records once `put` or `remove` has counted the old record of its key.
abbrev pub dead_after : {D : Type 0} → FileStore D → Key → ℕ
dead_after s key = elim (lookup key s.index) [
  | none ↦ s.dead_since_compact
  | some _ ↦ s.dead_since_compact + 1
]

pub dead_after-le :
    {D : Type 0} (s : FileStore D) (key : Key) → dead_after s key ≤ s.dead_since_compact + 1
dead_after-le s key = elim (Option-cases (lookup key s.index)) [
  | inl absent ↦ ground (arith, absent)
  | inr (w, present) ↦ ground (arith, present)
]

-- A `put` of the key keeps the share of dead records below the threshold of a compaction.
pub record IsQuiet {D : Type 0} (s : FileStore D) (key : Key) : Type 0 where
  pub share :
      dead_after s key * 100 < compact_threshold * (length s.index + s.dead_since_compact + 1)
  pub small : (length s.index + s.dead_since_compact + 1) * 100 < 2 ^ 32

module _ {D : Type 0} (fs : FileSystem D) where
  pub compact_if_threshold_quiet :
      (s : FileStore D) (clock : Clock)
      → s.dead_since_compact * 100 < compact_threshold * (length s.index + s.dead_since_compact)
      → (length s.index + s.dead_since_compact) * 100 < 2 ^ 32
      → compact_if_threshold fs s clock ≡ s
  unfolding compact_if_threshold
  compact_if_threshold_quiet s clock h small =
      let total = length s.index + s.dead_since_compact in
      let t : total % 2 ^ 32 ≡ total = omega arith in
      let d : s.dead_since_compact * 100 % 2 ^ 32 ≡ s.dead_since_compact * 100 = omega arith in
      let q : s.dead_since_compact * 100 / total < compact_threshold =
        div_lt (s.dead_since_compact * 100) total compact_threshold (grind arith) in
      ground (arith, t, d, q)

  pub count_found_fields :
      (s : FileStore D) (o : Option IndexValue)
      → (count_found fs s o
          ≡ record s { dead_since_compact = (count_found fs s o).dead_since_compact })
        × ((count_found fs s o).dead_since_compact ≡ (elim o [
          | none ↦ s.dead_since_compact
          | some _ ↦ (s.dead_since_compact + 1) % 2 ^ 32
        ]))
  unfolding count_found
  count_found_fields s none = (refl, refl)
  count_found_fields s (some e) = (refl, refl)

  pub enforce_limit_none : (s : FileStore D) → s.policy_max_recs ≡ 0 → enforce_limit fs s ≡ s
  unfolding enforce_limit
  enforce_limit_none s h =
      let e : ltb 0 s.policy_max_recs ≡ false = ground arith in rw (e, enforce_limit)

  pub dead_after-count :
      (f d : FileStore D) (key : Key)
      → (length f.index + f.dead_since_compact + 1) * 100 < 2 ^ 32
      → d.dead_since_compact ≡ (elim (lookup key f.index) [
        | none ↦ f.dead_since_compact
        | some _ ↦ (f.dead_since_compact + 1) % 2 ^ 32
      ])
      → d.dead_since_compact ≡ dead_after f key
  dead_after-count f d key small dead =
      let wrap : (f.dead_since_compact + 1) % 2 ^ 32 ≡ f.dead_since_compact + 1 = omega arith in
      elim (Option-cases (lookup key f.index)) [
        | inl absent ↦ ground (arith, dead, absent)
        | inr (w, present) ↦ ground (arith, dead, wrap, present)
      ]

  -- An old key makes a dead record and no new entry, a new key the other way round.
  pub counts :
      (f d : FileStore D) (key : Key) (v : IndexValue)
      → d.index ≡ f.index
      → d.dead_since_compact ≡ dead_after f key
      → length (assign key v d.index) + d.dead_since_compact
        ≡ length f.index + f.dead_since_compact + 1
  counts f d key v idx dead =
      let size = rw idx at (length-assign key v d.index) in
      elim (Option-cases (lookup key f.index)) [
        | inl absent ↦ rw idx (ground (arith, size, dead, absent))
        | inr (w, present) ↦ rw idx (ground (arith, size, dead, present))
      ]
