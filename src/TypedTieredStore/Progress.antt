-- ===== src/TypedTieredStore/Progress.antt =====
-- TypedTieredStore.h: `put` finds room, and `remove` leaves no slot of the key.
use micro_store.Base.{
  ℕ, zero, suc, ◌+◌, ◌≤◌, ◌<◌, ◌≡◌, ◌↔◌, refl, ap, sym, ◌∙◌, true, none, some, List, [], ◌∷◌, arith,
  ◌==◌, Bool-cases, Option-cases, inl, inr,
}
use micro_store.TypedTieredStore.Slots.{
  Params, Link, Slot, TypedTieredStore, free_from, free_l1_slot, find_l1,
}
use micro_store.TypedTieredStore.Methods.{
  remove_l1_slot, prune_expired_l1, write_back, flush_l1_slot, evict, evict_tail, allocate_from,
  allocate_l1_slot, put_allocated, put_found, put, remove_found, remove,
}
use micro_store.TypedTieredStore.Chain.{has, end_of}
use micro_store.TypedTieredStore.Find.{find_l1-some}
use micro_store.TypedTieredStore.Keep.{Rep}
use micro_store.TypedTieredStore.Empty.{remove_l1_slot-Rep}
use micro_store.TypedTieredStore.Allocate.{remove_l1_slot-valid, remove_l1_slot-Fewer}
use micro_store.TypedTieredStore.Evicting.{accepted}
use micro_store.TypedTieredStore.Invariant.{IsWellFormed, prune_expired_l1-Leaves}

module _ {K V : Type 0} where
  free_from-none :
      (n : ℕ) (slots : ℕ → Slot K V) (k j : ℕ)
      → free_from n slots k ≡ none
      → k ≤ j
      → j < k + n
      → (slots j).valid ≡ true
  unfolding free_from
  free_from-none zero slots k j e a b = absurd (omega arith)
  free_from-none (suc n) slots k j e a b = elim (Bool-cases (slots k).valid) [
    | inl v ↦ elim (Bool-cases (k == j)) [
      | inl at ↦ ground arith
      | inr other ↦ free_from-none n slots (k + 1) j (rw v at e) (ground arith) (omega arith)
    ]
    | inr v ↦ ground arith
  ]

last_some : (k : Link) (l : List ℕ) (i : ℕ) → has i l ≡ true → (j : ℕ) × (end_of k l ≡ some j)
last_some k [] i h = ground arith
last_some k (x ∷ []) i h = (x, refl)
last_some k (x ∷ y ∷ l) i h = last_some (some x) (y ∷ l) y (ground arith)

module _ {S K V : Type 0} (p : Params S K V) where
  evict-accepted :
      (now : ℕ) (t : TypedTieredStore S K V) (i : ℕ)
      → accepted p now t i ≡ true
      → (evict p now t i).1 ≡ some i
  unfolding evict flush_l1_slot write_back accepted
  evict-accepted now t i e = ground arith

  allocate_from-accepted :
      (now : ℕ) (t : TypedTieredStore S K V) (lru : List ℕ) (l : Link)
      → Rep p t lru
      → 0 < p.cache_size
      → ((i : ℕ) → t.lru_tail ≡ some i → accepted p now t i ≡ true)
      → free_l1_slot p t ≡ l
      → (i : ℕ) × ((allocate_from p now t l).1 ≡ some i)
  unfolding allocate_from evict_tail free_l1_slot
  allocate_from-accepted now t lru (some i) r h a e = (i, refl)
  allocate_from-accepted now t lru none (chains, r) h a e =
      let v = free_from-none p.cache_size t.slots 0 0 e (omega arith) (omega arith) in
      let (i, last) = last_some none lru 0 (r.in_use 0 ∙ v) in
      let at : t.lru_tail ≡ some i = r.by_use.tail_is ∙ last in
      (i, ap (λ l. (evict_tail p now t l).1) at ∙ evict-accepted now t i (a i at))

  put_found-accepted :
      (now : ℕ) (t : TypedTieredStore S K V) (key : K) (value : V) (ttl priority : ℕ) (l : Link)
      → IsWellFormed p t
      → 0 < p.cache_size
      → ((i : ℕ) → t.lru_tail ≡ some i → accepted p now t i ≡ true)
      → (put_found p now t key value ttl priority l).1 ≡ true
  unfolding put_found put_allocated allocate_l1_slot
  put_found-accepted now t key value ttl priority (some i) w h a = refl
  put_found-accepted now t key value ttl priority none (lru, r) h a =
      let (i, e) = allocate_from-accepted now t lru (free_l1_slot p t) r h a refl in
      let u = (allocate_l1_slot p now t).0 in
      ap (λ l. (put_allocated p now key value ttl priority (u, l)).1) e

  -- When the slots are well formed, the cache has a slot and the store below is valid, `put`
  -- returns true, if after the expired slots are gone the store accepts the record of the slot
  -- at the end of the list of use.
  pub put-accepted :
      (now : ℕ) (t : TypedTieredStore S K V) (key : K) (value : V) (ttl priority : ℕ)
      → IsWellFormed p t
      → 0 < p.cache_size
      → p.store.is_valid t.l2 ≡ true
      → ((i : ℕ)
          → (prune_expired_l1 p now t).lru_tail ≡ some i
          → accepted p now (prune_expired_l1 p now t) i ≡ true)
      → (put p now t key value ttl priority).1 ≡ true
  unfolding put
  put-accepted now t key value ttl priority (lru, r) h valid a =
      let pruned = prune_expired_l1-Leaves p now t lru r in
      rw valid (
        put_found-accepted now (prune_expired_l1 p now t) key value ttl priority _
          (pruned.lru, pruned.rep) h a)

  module _ (law : (a b : K) → (p.key_eq a b ≡ true) ↔ (a ≡ b)) where
    remove_found-find_l1 :
        (t : TypedTieredStore S K V) (key : K) (l : Link)
        → IsWellFormed p t
        → find_l1 p t key ≡ l
        → find_l1 p (remove_found p t key l).0 key ≡ none
    unfolding remove_found find_l1
    remove_found-find_l1 t key none w e = e
    remove_found-find_l1 t key (some i) (lru, (chains, r)) e =
        let (v, its_key) = find_l1-some p law chains key i r e in
        let u = remove_l1_slot p t i in
        let (chains', r') = remove_l1_slot-Rep p t lru i (chains, r) v in
        elim (Option-cases (find_l1 p u key)) [
          | inl e' ↦ e'
          | inr (j, e') ↦
              let (v', key') = find_l1-some p law chains' key j r' e' in
              let fewer = remove_l1_slot-Fewer p t i v in
              let same : i ≡ j =
                r.keyed.distinct i j v (fewer.valid j v') (its_key ∙ (sym key' ∙ fewer.key j v')) in
              ground (arith, remove_l1_slot-valid p t i v j)
        ]

    -- When the test of keys is equality, the slots are well formed and the store below is valid,
    -- no slot has the key after `remove`.
    pub find_l1-remove :
        (t : TypedTieredStore S K V) (key : K)
        → IsWellFormed p t
        → p.store.is_valid t.l2 ≡ true
        → find_l1 p (remove p t key).0 key ≡ none
    unfolding remove find_l1
    find_l1-remove t key w valid =
        let gone = remove_found-find_l1 t key (find_l1 p t key) w refl in
        rw valid (elim (Bool-cases (remove_found p t key (find_l1 p t key)).1) [
          | inl e ↦ rw e gone
          | inr e ↦ rw e gone
        ])
