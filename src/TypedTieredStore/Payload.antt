-- ===== src/TypedTieredStore/Payload.antt =====
-- TypedTieredStore.h: what the functions on links leave of a slot, all but the links.
use micro_store.Base.{
  ℕ, zero, suc, ◌≡◌, refl, ◌∙◌, true, none, some, arith, ◌==◌, if◌then◌else◌, Bool-cases, inl, inr,
}
use micro_store.TypedTieredStore.Slots.{
  Params, Link, Slot, TypedTieredStore, update, set_slot, l1_bucket, blank,
}
use micro_store.TypedTieredStore.Links.{
  link_eq, link_lru_front, unlink_lru, touch_l1, bypass, unlink_walk, link_l1_hash, unlink_l1_hash,
}
use micro_store.TypedTieredStore.Methods.{remove_l1_slot, fill}

-- A slot without its links.
abbrev pub payload : {K V : Type 0} → Slot K V → Slot K V
payload s = record s { prev = none; next = none; hash_next = none }

module _ {S K V : Type 0} (t : TypedTieredStore S K V) (i j : ℕ) where
  link_lru_front-payload : payload ((link_lru_front t i).slots j) ≡ payload (t.slots j)
  unfolding link_lru_front
  link_lru_front-payload = ground arith

  unlink_lru-payload : payload ((unlink_lru t i).slots j) ≡ payload (t.slots j)
  unfolding unlink_lru
  unlink_lru-payload = ground arith

module _ {S K V : Type 0} (t : TypedTieredStore S K V) (i : ℕ) where
  unlink_walk-payload :
      (bucket fuel : ℕ) (prev l : Link) (j : ℕ)
      → (payload ((unlink_walk fuel t i bucket prev l).slots j) ≡ payload (t.slots j))
        × ((unlink_walk fuel t i bucket prev l).l2 ≡ t.l2)
  unfolding unlink_walk bypass
  unlink_walk-payload bucket fuel prev none j = (refl, refl)
  unlink_walk-payload bucket zero prev (some x) j = (refl, refl)
  unlink_walk-payload bucket (suc n) prev (some x) j = elim (Bool-cases (x == i)) [
    | inl e ↦ rw e (ground arith)
    | inr e ↦ rw e (unlink_walk-payload bucket n (some x) (t.slots x).hash_next j)
  ]

  pub touch_l1-payload : (j : ℕ) → payload ((touch_l1 t i).slots j) ≡ payload (t.slots j)
  unfolding touch_l1
  touch_l1-payload j = elim (Bool-cases (link_eq (some i) t.lru_head)) [
    | inl e ↦ rw e
    | inr e ↦ rw e (link_lru_front-payload (unlink_lru t i) i j ∙ unlink_lru-payload t i j)
  ]

  touch_l2 : ((link_lru_front t i).l2 ≡ t.l2) × ((unlink_lru t i).l2 ≡ t.l2)
  unfolding link_lru_front unlink_lru
  touch_l2 = (ground arith, ground arith)

module _ {S K V : Type 0} (p : Params S K V) (t : TypedTieredStore S K V) (i : ℕ) where
  pub touch_l1-l2 : (touch_l1 t i).l2 ≡ t.l2
  unfolding touch_l1
  touch_l1-l2 = elim (Bool-cases (link_eq (some i) t.lru_head)) [
    | inl e ↦ rw e
    | inr e ↦ rw e ((touch_l2 (unlink_lru t i) i).0 ∙ (touch_l2 t i).1)
  ]

  -- `remove_l1_slot_` empties a slot, and leaves the others and the store alone.
  pub remove_l1_slot-payload :
      (t.slots i).valid ≡ true
      → (j : ℕ)
      → payload ((remove_l1_slot p t i).slots j)
        ≡ (if i == j then payload (blank p) else payload (t.slots j))
  unfolding remove_l1_slot unlink_l1_hash
  remove_l1_slot-payload valid j = rw valid (elim (Bool-cases (i == j)) [
    | inl e ↦ rw e
    | inr e ↦ rw e (
        unlink_lru-payload (unlink_l1_hash p t i) i j
        ∙ (unlink_walk-payload t i (l1_bucket p (t.slots i).key) p.cache_size none
            (t.l1_buckets (l1_bucket p (t.slots i).key)) j).0)
  ])

  pub remove_l1_slot-l2 : (remove_l1_slot p t i).l2 ≡ t.l2
  unfolding remove_l1_slot unlink_l1_hash
  remove_l1_slot-l2 = elim (Bool-cases (t.slots i).valid) [
    | inl e ↦ rw e (
        (touch_l2 (unlink_l1_hash p t i) i).1
        ∙ (unlink_walk-payload t i (l1_bucket p (t.slots i).key) p.cache_size none
            (t.l1_buckets (l1_bucket p (t.slots i).key)) 0).1)
    | inr e ↦ rw e
  ]

  pub fill-payload :
      (s : Slot K V) (j : ℕ) → payload ((fill p t i s).slots j) ≡ payload (update t.slots i s j)
  unfolding fill link_l1_hash
  fill-payload s j = link_lru_front-payload (link_l1_hash p (set_slot t i s) i) i j ∙ ground arith

  pub fill-l2 : (s : Slot K V) → (fill p t i s).l2 ≡ t.l2
  unfolding fill link_l1_hash
  fill-l2 s = (touch_l2 (link_l1_hash p (set_slot t i s) i) i).0
