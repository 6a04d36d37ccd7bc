-- ===== src/TypedTieredStore/Allocate.antt =====
-- TypedTieredStore.h: `flush_l1_slot_`, `expire_l1_slot_`, `prune_expired_l1_` and
-- `allocate_l1_slot_` keep the invariant of the slots, and only take keys away.
use micro_store.Base.{
  ℕ, zero, suc, ◌+◌, ◌<◌, ◌≡◌, refl, ap, sym, ◌∙◌, true, false, ◌&&◌, none, some, List, [], ◌∷◌,
  arith, ◌==◌, if◌then◌else◌, Bool-cases, inl, inr,
}
use micro_store.TypedTieredStore.Slots.{
  Params, Link, Slot, TypedTieredStore, blank, is_expired, free_from, free_l1_slot,
}
use micro_store.TypedTieredStore.Methods.{
  remove_l1_slot, remove_l2, expire_l1_slot, prune_loop, write_back, flush_l1_slot, evict,
  evict_tail, allocate_from, allocate_l1_slot,
}
use micro_store.TypedTieredStore.Chain.{has, without, end_of}
use micro_store.TypedTieredStore.Keep.{Rep, SameSlots, Rep-same}
use micro_store.TypedTieredStore.Empty.{remove_l1_slot-Rep}
use micro_store.TypedTieredStore.Payload.{remove_l1_slot-payload}

pub end_of-has : (k : ℕ) (l : List ℕ) (i : ℕ) → end_of (some k) l ≡ some i → has i (k ∷ l) ≡ true
end_of-has k [] i e = ground arith
end_of-has k (x ∷ l) i e = ground (arith, end_of-has x l i)

module _ {K V : Type 0} where
  -- The valid slots of the second state are among those of the first, with their keys.
  pub record Fewer (f g : ℕ → Slot K V) : Type 0 where
    pub valid : (j : ℕ) → (g j).valid ≡ true → (f j).valid ≡ true
    pub key : (j : ℕ) → (g j).valid ≡ true → (g j).key ≡ (f j).key

  pub Fewer-trans : (f g h : ℕ → Slot K V) → Fewer f g → Fewer g h → Fewer f h
  Fewer-trans f g h a b = record {
    valid = λ j v. a.valid j (b.valid j v);
    key = λ j v. b.key j v ∙ a.key j (b.valid j v);
  }

  Fewer-refl : (f : ℕ → Slot K V) → Fewer f f
  Fewer-refl f = record { valid = λ j v. v; key = λ j v. refl }

  pub free_from_lem :
      (n : ℕ) (slots : ℕ → Slot K V) (k i : ℕ)
      → free_from n slots k ≡ some i
      → ((slots i).valid ≡ false) × (i < k + n)
  unfolding free_from
  free_from_lem zero slots k i e = ground arith
  free_from_lem (suc n) slots k i e = elim (Bool-cases (slots k).valid) [
    | inl v ↦ let (a, b) = free_from_lem n slots (k + 1) i (rw v at e) in (a, omega arith)
    | inr v ↦ ground arith
  ]

module _ {S K V : Type 0} (p : Params S K V) where
  pub Rep-l2 :
      (t : TypedTieredStore S K V) (lru : List ℕ) (l2 : S)
      → Rep p t lru
      → Rep p (record t { l2 = l2 }) lru
  Rep-l2 t lru l2 (chains, r) = (
    chains,
    record {
      by_use = r.by_use;
      by_hash = r.by_hash;
      keyed = r.keyed;
      in_use = r.in_use;
      in_chain = r.in_chain;
    },
  )

  module _ (now : ℕ) (t : TypedTieredStore S K V) (i : ℕ) where
    pub flush_l1_slot-SameSlots : SameSlots p t.slots (flush_l1_slot p now t i).0.slots
    unfolding flush_l1_slot write_back
    flush_l1_slot-SameSlots = record {
      keys = record {
        key = λ j. ground arith;
        valid = λ j. ground arith;
        hash_next = λ j. ground arith;
        expires_at = λ j v. ground arith;
      };
      next = λ j. ground arith;
      prev = λ j. ground arith;
    }

    flush_l1_slot-links :
        ((flush_l1_slot p now t i).0.l1_buckets ≡ t.l1_buckets)
        × ((flush_l1_slot p now t i).0.lru_head ≡ t.lru_head)
        × ((flush_l1_slot p now t i).0.lru_tail ≡ t.lru_tail)
    unfolding flush_l1_slot write_back
    flush_l1_slot-links = (ground arith, ground arith, ground arith)

    pub flush_l1_slot-Rep : (lru : List ℕ) → Rep p t lru → Rep p (flush_l1_slot p now t i).0 lru
    flush_l1_slot-Rep lru r =
        let (b, h, e) = flush_l1_slot-links in
        Rep-same p t (flush_l1_slot p now t i).0 lru r flush_l1_slot-SameSlots b h e

    pub flush_l1_slot-Fewer : Fewer t.slots (flush_l1_slot p now t i).0.slots
    flush_l1_slot-Fewer =
        let same = flush_l1_slot-SameSlots.keys in
        record { valid = λ j v. sym (same.valid j) ∙ v; key = λ j v. same.key j }

  module _ (t : TypedTieredStore S K V) (i : ℕ) (valid : (t.slots i).valid ≡ true) where
    pub remove_l1_slot-valid :
        (j : ℕ)
        → ((remove_l1_slot p t i).slots j).valid ≡ (if i == j then false else (t.slots j).valid)
    unfolding blank
    remove_l1_slot-valid j =
        ap (λ (s : Slot K V). s.valid) (remove_l1_slot-payload p t i valid j) ∙ ground arith

    pub remove_l1_slot-Fewer : Fewer t.slots (remove_l1_slot p t i).slots
    unfolding blank
    remove_l1_slot-Fewer = record {
      valid = λ j v. ground (arith, remove_l1_slot-valid j);
      key = λ j v.
          ap (λ (s : Slot K V). s.key) (remove_l1_slot-payload p t i valid j)
          ∙ ground (arith, remove_l1_slot-valid j);
    }

    pub expire_l1_slot-slots : (expire_l1_slot p t i).slots ≡ (remove_l1_slot p t i).slots
    unfolding expire_l1_slot remove_l2
    expire_l1_slot-slots = ground arith

    pub expire_l1_slot-Rep :
        (lru : List ℕ) → Rep p t lru → Rep p (expire_l1_slot p t i) (without i lru)
    unfolding expire_l1_slot remove_l2
    expire_l1_slot-Rep lru r =
        let removed = remove_l1_slot-Rep p t lru i r valid in
        elim (Bool-cases (t.slots i).in_l2) [
          | inl e ↦ rw e (Rep-l2 (remove_l1_slot p t i) (without i lru) _ removed)
          | inr e ↦ rw e removed
        ]

  -- What a method leaves: the invariant, and no key that was not there.
  pub record Leaves (t u : TypedTieredStore S K V) : Type 0 where
    pub lru : List ℕ
    pub rep : Rep p u lru
    pub fewer : Fewer t.slots u.slots

  pub prune_loop-Leaves :
      (n now : ℕ) (t : TypedTieredStore S K V) (i : ℕ) (lru : List ℕ)
      → Rep p t lru
      → Leaves t (prune_loop p n now t i)
  unfolding prune_loop
  prune_loop-Leaves zero now t i lru r = record { lru = lru; rep = r; fewer = Fewer-refl t.slots }
  prune_loop-Leaves (suc n) now t i lru r =
      elim (Bool-cases ((t.slots i).valid && is_expired now (t.slots i))) [
        | inl e ↦
            let v : (t.slots i).valid ≡ true = ground arith in
            let u = expire_l1_slot p t i in
            let rest =
              prune_loop-Leaves n now u (i + 1) (without i lru) (expire_l1_slot-Rep t i v lru r) in
            let step : Fewer t.slots u.slots =
              rw (expire_l1_slot-slots t i v) (remove_l1_slot-Fewer t i v) in
            rw e (record {
              lru = rest.lru;
              rep = rest.rep;
              fewer = Fewer-trans t.slots u.slots _ step rest.fewer;
            })
        | inr e ↦ rw e (prune_loop-Leaves n now t (i + 1) lru r)
      ]

  -- `allocate_l1_slot_` gives a slot of the cache that is not valid.
  pub record Allocated (t : TypedTieredStore S K V) (r : TypedTieredStore S K V × Link)
      : Type 0 where
    pub leaves : Leaves t r.0
    pub empty : (j : ℕ) → r.1 ≡ some j → ((r.0.slots j).valid ≡ false) × (j < p.cache_size)

  module _ (now : ℕ) (t : TypedTieredStore S K V) (lru : List ℕ) (r : Rep p t lru) where
    -- The slot at the end of the list of use is a valid one.
    pub tail_valid : (i : ℕ) → t.lru_tail ≡ some i → (t.slots i).valid ≡ true
    tail_valid i e = let (chains, s) = r in sym (s.in_use i) ∙ last lru (sym s.by_use.tail_is ∙ e)
      where
        last : (l : List ℕ) → end_of none l ≡ some i → has i l ≡ true
        last [] e = ground arith
        last (x ∷ l) e = end_of-has x l i e

    tail_within : (i : ℕ) → (t.slots i).valid ≡ true → i < p.cache_size
    tail_within i v = let (chains, s) = r in s.keyed.within i v

    evict-Allocated : (i : ℕ) → (t.slots i).valid ≡ true → Allocated t (evict p now t i)
    unfolding evict
    evict-Allocated i valid =
        let f = (flush_l1_slot p now t i).0 in
        let valid' : (f.slots i).valid ≡ true =
          (flush_l1_slot-SameSlots now t i).keys.valid i ∙ valid in
        let rep' = flush_l1_slot-Rep now t i lru r in
        elim (Bool-cases (is_expired now (t.slots i))) [
          | inl e ↦ rw e (record {
            leaves = record {
              lru = without i lru;
              rep = expire_l1_slot-Rep t i valid lru r;
              fewer = rw (expire_l1_slot-slots t i valid) (remove_l1_slot-Fewer t i valid);
            };
            empty = λ j at. (
              rw (expire_l1_slot-slots t i valid) (remove_l1_slot-valid t i valid j ∙ ground arith),
              tail_within j (ground arith),
            );
          })
          | inr e ↦ rw e (elim (Bool-cases (flush_l1_slot p now t i).1) [
            | inl ok ↦ rw ok (record {
              leaves = record {
                lru = without i lru;
                rep = remove_l1_slot-Rep p f lru i rep' valid';
                fewer =
                    Fewer-trans t.slots f.slots _ (flush_l1_slot-Fewer now t i)
                      (remove_l1_slot-Fewer f i valid');
              };
              empty = λ j at.
                  (remove_l1_slot-valid f i valid' j ∙ ground arith, tail_within j (ground arith));
            })
            | inr failed ↦ rw failed (record {
              leaves = record { lru = lru; rep = rep'; fewer = flush_l1_slot-Fewer now t i };
              empty = λ j at. ground arith;
            })
          ])
        ]

    same_Leaves : Leaves t t
    same_Leaves = record { lru = lru; rep = r; fewer = Fewer-refl t.slots }

    evict_tail-Allocated : (l : Link) → t.lru_tail ≡ l → Allocated t (evict_tail p now t l)
    unfolding evict_tail
    evict_tail-Allocated none e = record { leaves = same_Leaves; empty = λ j at. ground arith }
    evict_tail-Allocated (some i) e = evict-Allocated i (tail_valid i e)

    allocate_from-Allocated :
        (l : Link) → free_l1_slot p t ≡ l → Allocated t (allocate_from p now t l)
    unfolding allocate_from free_l1_slot
    allocate_from-Allocated none e = evict_tail-Allocated t.lru_tail refl
    allocate_from-Allocated (some i) e =
        let found = free_from_lem p.cache_size t.slots 0 i e in
        record { leaves = same_Leaves; empty = λ j at. (ground arith, ground arith) }

    pub allocate_l1_slot-Allocated : Allocated t (allocate_l1_slot p now t)
    unfolding allocate_l1_slot
    allocate_l1_slot-Allocated = allocate_from-Allocated (free_l1_slot p t) refl
