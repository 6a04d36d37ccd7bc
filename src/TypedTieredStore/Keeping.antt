-- ===== src/TypedTieredStore/Keeping.antt =====
-- TypedTieredStore.h: `get`, `exists`, `remove`, `sync` and `clear` keep the invariant of the slots.
use micro_store.Base.{
  ℕ, zero, suc, ◌<◌, ◌≡◌, ◌≢◌, ◌↔◌, refl, Bool, true, false, ◌&&◌, Option, none, some, List, ◌∷◌,
  arith, if◌then◌else◌, Bool-cases, Option-cases, inl, inr,
}
use micro_store.TypedTieredStore.Slots.{
  Params, Link, TypedTieredStore, reset_l1, is_expired, find_l1,
}
use micro_store.TypedTieredStore.Methods.{
  create, remove_l1_slot, expire_l1_slot, prune_expired_l1, flush_l1_slot, allocate_l1_slot, get_l1,
  load_allocated, load_decoded, load_found, get_l2, get_found, get, remove_found, remove,
  exists_found, exists, sync_dirty, sync_loop, sync, clear,
}
use micro_store.TypedTieredStore.Chain.{without}
use micro_store.TypedTieredStore.Find.{find_l1-some}
use micro_store.TypedTieredStore.Keep.{touch_l1-Rep}
use micro_store.TypedTieredStore.Empty.{remove_l1_slot-Rep}
use micro_store.TypedTieredStore.Fill.{fill-Rep}
use micro_store.TypedTieredStore.Allocate.{
  flush_l1_slot-Rep, expire_l1_slot-Rep, allocate_l1_slot-Allocated,
}
use micro_store.TypedTieredStore.Invariant.{
  IsWellFormed, IsWellFormed-l2, create-IsWellFormed, prune_expired_l1-Leaves, fresh_after,
}

module _ {S K V : Type 0} (p : Params S K V) where
  expire-IsWellFormed :
      (t : TypedTieredStore S K V) (i : ℕ)
      → (t.slots i).valid ≡ true
      → IsWellFormed p t
      → IsWellFormed p (expire_l1_slot p t i)
  expire-IsWellFormed t i v (lru, r) = (without i lru, expire_l1_slot-Rep p t i v lru r)

  remove_slot-IsWellFormed :
      (t : TypedTieredStore S K V) (i : ℕ)
      → (t.slots i).valid ≡ true
      → IsWellFormed p t
      → IsWellFormed p (remove_l1_slot p t i)
  remove_slot-IsWellFormed t i v (lru, r) = (without i lru, remove_l1_slot-Rep p t lru i r v)

  flush-IsWellFormed :
      (now : ℕ) (t : TypedTieredStore S K V) (i : ℕ)
      → IsWellFormed p t
      → IsWellFormed p (flush_l1_slot p now t i).0
  flush-IsWellFormed now t i (lru, r) = (lru, flush_l1_slot-Rep p now t i lru r)

  get_l1-IsWellFormed :
      (now : ℕ) (t : TypedTieredStore S K V) (i : ℕ)
      → (t.slots i).valid ≡ true
      → IsWellFormed p t
      → IsWellFormed p (get_l1 p now t i).0
  unfolding get_l1
  get_l1-IsWellFormed now t i v (lru, r) = elim (Bool-cases (is_expired now (t.slots i))) [
    | inl e ↦ rw e (expire-IsWellFormed t i v (lru, r))
    | inr e ↦ rw e (i ∷ without i lru, touch_l1-Rep p t lru i r v)
  ]

  sync_dirty-IsWellFormed :
      (now : ℕ) (t : TypedTieredStore S K V) (i : ℕ)
      → (t.slots i).valid ≡ true
      → IsWellFormed p t
      → IsWellFormed p (sync_dirty p now t i).0
  unfolding sync_dirty
  sync_dirty-IsWellFormed now t i v w =
      let there = p.store.exists t.l2 (p.keys.encode (t.slots i).key) in
      let w' = IsWellFormed-l2 p t there.0 w in
      elim (Bool-cases (t.slots i).in_l2) [
        | inl e ↦ rw e (elim (Bool-cases there.1) [
          | inl e' ↦ rw e' (flush-IsWellFormed now _ i w')
          | inr e' ↦ rw e' (remove_slot-IsWellFormed _ i v w')
        ])
        | inr e ↦ rw e (flush-IsWellFormed now t i w)
      ]

  sync_round-IsWellFormed :
      (now : ℕ) (t : TypedTieredStore S K V) (i : ℕ)
      → IsWellFormed p t
      → IsWellFormed p
          (if (t.slots i).valid && (t.slots i).dirty then sync_dirty p now t i else (t, true)).0
  sync_round-IsWellFormed now t i w = elim (Bool-cases ((t.slots i).valid && (t.slots i).dirty)) [
    | inl e ↦ rw e (sync_dirty-IsWellFormed now t i (ground arith) w)
    | inr e ↦ rw e w
  ]

  sync_loop-IsWellFormed :
      (n now : ℕ) (t : TypedTieredStore S K V) (ok : Bool)
      → IsWellFormed p t
      → IsWellFormed p (sync_loop p n now t ok).0
  unfolding sync_loop
  sync_loop-IsWellFormed zero now t ok w = w
  sync_loop-IsWellFormed (suc i) now t ok w =
      sync_loop-IsWellFormed i now _ _ (sync_round-IsWellFormed now t i w)

  -- `sync` keeps the invariant.
  pub sync-IsWellFormed :
      (now : ℕ) (t : TypedTieredStore S K V) → IsWellFormed p t → IsWellFormed p (sync p now t).0
  unfolding sync
  sync-IsWellFormed now t (lru, r) =
      let pruned = prune_expired_l1-Leaves p now t lru r in
      elim (Bool-cases (p.store.is_valid t.l2)) [
        | inl e ↦ rw e (
            sync_loop-IsWellFormed p.cache_size now (prune_expired_l1 p now t) true
              (pruned.lru, pruned.rep))
        | inr e ↦ rw e (lru, r)
      ]

  -- `clear` keeps the invariant.
  pub clear-IsWellFormed :
      (t : TypedTieredStore S K V) → IsWellFormed p t → IsWellFormed p (clear p t)
  unfolding clear reset_l1 create
  clear-IsWellFormed t w = elim (Bool-cases (p.store.is_valid t.l2)) [
    | inl e ↦ rw e (create-IsWellFormed p (p.store.clear t.l2))
    | inr e ↦ rw e w
  ]

  module _ (law : (a b : K) → (p.key_eq a b ≡ true) ↔ (a ≡ b)) where
    load_allocated-IsWellFormed :
        (key : K) (value : V) (u : TypedTieredStore S K V) (l : Link)
        → IsWellFormed p u
        → ((j : ℕ) → l ≡ some j → ((u.slots j).valid ≡ false) × (j < p.cache_size))
        → ((j : ℕ) → (u.slots j).valid ≡ true → (u.slots j).key ≢ key)
        → IsWellFormed p (load_allocated p key value (u, l))
    unfolding load_allocated
    load_allocated-IsWellFormed key value u none w empty fresh = w
    load_allocated-IsWellFormed key value u (some i) (lru, r) empty fresh =
        let (e, small) = empty i refl in (i ∷ lru, fill-Rep p u i _ lru r e small refl fresh)

    load_found-IsWellFormed :
        (now : ℕ) (t : TypedTieredStore S K V) (key : K) (found : Option (List ℕ))
        → IsWellFormed p t
        → find_l1 p t key ≡ none
        → IsWellFormed p (load_found p now t key found).0
    unfolding load_found load_decoded
    load_found-IsWellFormed now t key none w e = w
    load_found-IsWellFormed now t key (some raw) (lru, r) e =
        elim (Option-cases (p.values.decode raw)) [
          | inl e' ↦ rw e' (lru, r)
          | inr (value, e') ↦
              let a = allocate_l1_slot-Allocated p now t lru r in
              rw e' (
                load_allocated-IsWellFormed key value (allocate_l1_slot p now t).0
                  (allocate_l1_slot p now t).1 (a.leaves.lru, a.leaves.rep) a.empty
                  (fresh_after p law t (allocate_l1_slot p now t).0 lru key r e a.leaves.fewer))
        ]

    get_found-IsWellFormed :
        (now : ℕ) (t : TypedTieredStore S K V) (key : K) (l : Link)
        → IsWellFormed p t
        → find_l1 p t key ≡ l
        → IsWellFormed p (get_found p now t key l).0
    unfolding get_found get_l2 find_l1
    get_found-IsWellFormed now t key (some i) (lru, (chains, r)) e =
        get_l1-IsWellFormed now t i (find_l1-some p law chains key i r e).0 (lru, (chains, r))
    get_found-IsWellFormed now t key none w e =
        let found = p.store.get t.l2 (p.keys.encode key) in
        load_found-IsWellFormed now (record t { l2 = found.0 }) key found.1
          (IsWellFormed-l2 p t found.0 w) e

    -- `get` keeps the invariant.
    pub get-IsWellFormed :
        (now : ℕ) (t : TypedTieredStore S K V) (key : K)
        → IsWellFormed p t
        → IsWellFormed p (get p now t key).0
    unfolding get
    get-IsWellFormed now t key w =
        let done = get_found-IsWellFormed now t key _ w refl in
        elim (Bool-cases (p.store.is_valid t.l2)) [ inl e ↦ rw e done | inr e ↦ rw e w ]

    exists_found-IsWellFormed :
        (now : ℕ) (t : TypedTieredStore S K V) (key : K) (l : Link)
        → IsWellFormed p t
        → find_l1 p t key ≡ l
        → IsWellFormed p (exists_found p now t key l).0
    unfolding exists_found
    exists_found-IsWellFormed now t key none w e = IsWellFormed-l2 p t _ w
    exists_found-IsWellFormed now t key (some i) (lru, (chains, r)) e =
        let v = (find_l1-some p law chains key i r e).0 in
        elim (Bool-cases (is_expired now (t.slots i))) [
          | inl e' ↦ rw e' (expire-IsWellFormed t i v (lru, (chains, r)))
          | inr e' ↦ rw e' (lru, (chains, r))
        ]

    -- `exists` keeps the invariant.
    pub exists-IsWellFormed :
        (now : ℕ) (t : TypedTieredStore S K V) (key : K)
        → IsWellFormed p t
        → IsWellFormed p (exists p now t key).0
    unfolding exists
    exists-IsWellFormed now t key w =
        let done = exists_found-IsWellFormed now t key _ w refl in
        elim (Bool-cases (p.store.is_valid t.l2)) [ inl e ↦ rw e done | inr e ↦ rw e w ]

    remove_found-IsWellFormed :
        (t : TypedTieredStore S K V) (key : K) (l : Link)
        → IsWellFormed p t
        → find_l1 p t key ≡ l
        → IsWellFormed p (remove_found p t key l).0
    unfolding remove_found
    remove_found-IsWellFormed t key none w e = IsWellFormed-l2 p t _ w
    remove_found-IsWellFormed t key (some i) (lru, (chains, r)) e =
        remove_slot-IsWellFormed t i (find_l1-some p law chains key i r e).0 (lru, (chains, r))

    -- `remove` keeps the invariant.
    pub remove-IsWellFormed :
        (t : TypedTieredStore S K V) (key : K)
        → IsWellFormed p t
        → IsWellFormed p (remove p t key).0
    unfolding remove
    remove-IsWellFormed t key w =
        let done = remove_found-IsWellFormed t key _ w refl in
        elim (Bool-cases (p.store.is_valid t.l2)) [
          | inl e ↦ rw e (elim (Bool-cases (remove_found p t key (find_l1 p t key)).1) [
            | inl in_l2 ↦ rw in_l2 (IsWellFormed-l2 p _ _ done)
            | inr out ↦ rw out done
          ])
          | inr e ↦ rw e w
        ]
