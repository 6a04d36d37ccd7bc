-- ===== src/TypedTieredStore/Iteration.antt =====
-- TypedTieredStore.h: the iterator, over the records of the store and then over the slots with
-- records that the store does not have.
use micro_store.Base.{
  ℕ, zero, suc, ◌+◌, not, ◌&&◌, Option, none, some, List, [], ◌∷◌, ◌++◌, if◌then◌else◌,
}
use micro_store.TypedTieredStore.Slots.{Params, Link, TypedTieredStore, find_l1}
use micro_store.TypedTieredStore.Methods.{prune_expired_l1}

-- `Entry`
pub record Entry (K V : Type 0) : Type 0 where
  pub key : K
  pub value : V

module _ {S K V : Type 0} (p : Params S K V) (t : TypedTieredStore S K V) where
  load_value : K → Option V → Option (Entry K V)
  load_value key none = none
  load_value key (some value) = some (record { key = key; value = value })

  load_slot : K → List ℕ → Link → Option (Entry K V)
  load_slot key raw (some i) = some (record { key = (t.slots i).key; value = (t.slots i).value })
  load_slot key raw none = load_value key (p.values.decode raw)

  load_key : List ℕ → Option K → Option (Entry K V)
  load_key raw none = none
  load_key raw (some key) = load_slot key raw (find_l1 p t key)

  -- One record of the store in `load_next_`: its slot has the newer value, and `none` is a
  -- `continue`.
  unfoldable pub load_l2 : List ℕ × List ℕ → Option (Entry K V)
  unfolding load_key load_slot load_value
  load_l2 (raw_key, raw) = load_key raw (p.keys.decode raw_key)

  unfoldable pub phase_l2 : List (List ℕ × List ℕ) → List (Entry K V)
  phase_l2 [] = []
  phase_l2 (r ∷ rs) = let rest = phase_l2 rs in elim (load_l2 r) [ none ↦ rest | some e ↦ e ∷ rest ]

  -- `n` slots from `i` on.
  unfoldable pub phase_l1 : ℕ → ℕ → List (Entry K V)
  phase_l1 zero i = []
  phase_l1 (suc n) i =
      let rest = phase_l1 n (i + 1) in
      let s = t.slots i in
      if s.valid && not s.in_l2 then record { key = s.key; value = s.value } ∷ rest else rest

module _ {S K V : Type 0} (p : Params S K V) where
  -- `begin` to `end`
  unfoldable pub iterate : ℕ → TypedTieredStore S K V → TypedTieredStore S K V × List (Entry K V)
  iterate now t =
      let pruned = prune_expired_l1 p now t in
      let (l2, records) = p.store.entries pruned.l2 in
      let t' : TypedTieredStore S K V = record pruned { l2 = l2 } in
      if p.store.is_valid t.l2
      then (t', phase_l2 p t' records ++ phase_l1 p t' p.cache_size 0)
      else (t, [])
