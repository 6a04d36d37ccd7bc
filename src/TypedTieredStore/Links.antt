-- ===== src/TypedTieredStore/Links.antt =====
-- TypedTieredStore.h: the functions that change the links between slots.
use micro_store.Base.{ℕ, zero, suc, Bool, true, false, none, some, ◌==◌, if◌then◌else◌}
use micro_store.TypedTieredStore.Slots.{Params, Link, TypedTieredStore, update, set_slot, l1_bucket}

abbrev pub link_eq : Link → Link → Bool
link_eq none none = true
link_eq none (some j) = false
link_eq (some i) none = false
link_eq (some i) (some j) = i == j

module _ {S K V : Type 0} where
  -- `slots_[i].prev = l`, and so on, where `i` is no INVALID.
  abbrev pub set_prev : TypedTieredStore S K V → ℕ → Link → TypedTieredStore S K V
  set_prev t i l = set_slot t i (record (t.slots i) { prev = l })

  abbrev pub set_next : TypedTieredStore S K V → ℕ → Link → TypedTieredStore S K V
  set_next t i l = set_slot t i (record (t.slots i) { next = l })

  abbrev pub set_hash_next : TypedTieredStore S K V → ℕ → Link → TypedTieredStore S K V
  set_hash_next t i l = set_slot t i (record (t.slots i) { hash_next = l })

  -- The two tests of `link_lru_front_`.
  set_old_head : TypedTieredStore S K V → ℕ → Link → TypedTieredStore S K V
  set_old_head t slot none = t
  set_old_head t slot (some h) = set_prev t h (some slot)

  set_first_tail : TypedTieredStore S K V → ℕ → Link → TypedTieredStore S K V
  set_first_tail t slot none = record t { lru_tail = some slot }
  set_first_tail t slot (some l) = t

  -- `link_lru_front_`
  unfoldable pub link_lru_front : TypedTieredStore S K V → ℕ → TypedTieredStore S K V
  unfolding set_old_head set_first_tail
  link_lru_front t slot =
      let cleared = set_next (set_prev t slot none) slot t.lru_head in
      let t' : TypedTieredStore S K V = record (set_old_head cleared slot cleared.lru_head) {
        lru_head = some slot;
      } in
      set_first_tail t' slot t'.lru_tail

  -- The two tests of `unlink_lru_`.
  join_prev : TypedTieredStore S K V → Link → Link → TypedTieredStore S K V
  join_prev t none next = record t { lru_head = next }
  join_prev t (some p) next = set_next t p next

  join_next : TypedTieredStore S K V → Link → Link → TypedTieredStore S K V
  join_next t prev none = record t { lru_tail = prev }
  join_next t prev (some n) = set_prev t n prev

  -- `unlink_lru_`
  unfoldable pub unlink_lru : TypedTieredStore S K V → ℕ → TypedTieredStore S K V
  unfolding join_prev join_next
  unlink_lru t slot =
      let prev = (t.slots slot).prev in
      let next = (t.slots slot).next in
      set_next (set_prev (join_next (join_prev t prev next) prev next) slot none) slot none

  -- `touch_l1_`
  unfoldable pub touch_l1 : TypedTieredStore S K V → ℕ → TypedTieredStore S K V
  touch_l1 t slot =
      if link_eq (some slot) t.lru_head then t else link_lru_front (unlink_lru t slot) slot

  -- The removal of the slot `i` behind `prev`.
  unfoldable pub bypass : TypedTieredStore S K V → ℕ → Link → ℕ → TypedTieredStore S K V
  bypass t bucket none i = record t {
    l1_buckets = update t.l1_buckets bucket (t.slots i).hash_next;
  }
  bypass t bucket (some prev) i = set_hash_next t prev (t.slots i).hash_next

  -- The loop of `unlink_l1_hash_`.
  unfoldable pub unlink_walk :
      ℕ → TypedTieredStore S K V → ℕ → ℕ → Link → Link → TypedTieredStore S K V
  unfolding bypass
  unlink_walk fuel t slot bucket prev none = t
  unlink_walk zero t slot bucket prev (some i) = t
  unlink_walk (suc f) t slot bucket prev (some i) =
      let rest = unlink_walk f t slot bucket (some i) (t.slots i).hash_next in
      if i == slot then set_hash_next (bypass t bucket prev i) i none else rest

module _ {S K V : Type 0} (p : Params S K V) where
  -- `link_l1_hash_`
  unfoldable pub link_l1_hash : TypedTieredStore S K V → ℕ → TypedTieredStore S K V
  link_l1_hash t slot =
      let bucket = l1_bucket p (t.slots slot).key in
      let t' = set_hash_next t slot (t.l1_buckets bucket) in
      record t' { l1_buckets = update t'.l1_buckets bucket (some slot) }

  -- `unlink_l1_hash_`
  unfoldable pub unlink_l1_hash : TypedTieredStore S K V → ℕ → TypedTieredStore S K V
  unlink_l1_hash t slot =
      let bucket = l1_bucket p (t.slots slot).key in
      unlink_walk p.cache_size t slot bucket none (t.l1_buckets bucket)
