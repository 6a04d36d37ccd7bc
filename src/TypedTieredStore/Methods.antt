-- ===== src/TypedTieredStore/Methods.antt =====
-- TypedTieredStore.h: the methods. One reading of the clock, `now`, serves a whole call.
use micro_store.Base.{
  ℕ, zero, suc, ◌+◌, Bool, true, false, not, ◌&&◌, ◌||◌, Option, none, some, List, if◌then◌else◌,
}
use micro_store.TypedTieredStore.Slots.{
  Params, Link, Slot, TypedTieredStore, set_slot, blank, reset_l1, find_l1, free_l1_slot,
  expires_at, is_expired, remaining_ttl,
}
use micro_store.TypedTieredStore.Links.{
  link_lru_front, unlink_lru, touch_l1, link_l1_hash, unlink_l1_hash,
}

module _ {S K V : Type 0} (p : Params S K V) where
  -- The constructor, over a store.
  unfoldable pub create : S → TypedTieredStore S K V
  create s = record {
    l2 = s;
    slots = λ i. blank p;
    l1_buckets = λ b. none;
    lru_head = none;
    lru_tail = none;
  }

  -- `remove_l1_slot_`
  unfoldable pub remove_l1_slot : TypedTieredStore S K V → ℕ → TypedTieredStore S K V
  remove_l1_slot t slot =
      if (t.slots slot).valid
      then set_slot (unlink_lru (unlink_l1_hash p t slot) slot) slot (blank p)
      else t

  -- `store.remove` of a key.
  unfoldable pub remove_l2 : TypedTieredStore S K V → K → TypedTieredStore S K V
  remove_l2 t key = record t { l2 = (p.store.remove t.l2 (p.keys.encode key)).0 }

  -- `expire_l1_slot_`
  unfoldable pub expire_l1_slot : TypedTieredStore S K V → ℕ → TypedTieredStore S K V
  expire_l1_slot t slot =
      let s = t.slots slot in
      if s.in_l2 then remove_l2 (remove_l1_slot t slot) s.key else remove_l1_slot t slot

  -- The loop of `prune_expired_l1_`, `n` rounds from slot `i` on.
  unfoldable pub prune_loop : ℕ → ℕ → TypedTieredStore S K V → ℕ → TypedTieredStore S K V
  prune_loop zero now t i = t
  prune_loop (suc n) now t i =
      let s = t.slots i in
      prune_loop n now (if s.valid && is_expired now s then expire_l1_slot t i else t) (i + 1)

  -- `prune_expired_l1_`
  unfoldable pub prune_expired_l1 : ℕ → TypedTieredStore S K V → TypedTieredStore S K V
  prune_expired_l1 now t = prune_loop p.cache_size now t 0

  -- `flush_l1_slot_` of a slot that is valid and dirty.
  unfoldable pub write_back : ℕ → TypedTieredStore S K V → ℕ → TypedTieredStore S K V × Bool
  write_back now t slot =
      let s = t.slots slot in
      let (l2, ok) =
        p.store.put t.l2 (p.keys.encode s.key) (p.values.encode s.value) (remaining_ttl now s) now
          s.priority in
      let t' : TypedTieredStore S K V = record t { l2 = l2 } in
      if ok
      then (set_slot t' slot (record s { dirty = false; in_l2 = true }), true)
      else (t', false)

  -- `flush_l1_slot_`
  unfoldable pub flush_l1_slot : ℕ → TypedTieredStore S K V → ℕ → TypedTieredStore S K V × Bool
  flush_l1_slot now t slot =
      let s = t.slots slot in
      if not s.valid || not s.dirty then (t, true) else write_back now t slot

  -- The slot at the end of the list of use gives way.
  unfoldable pub evict : ℕ → TypedTieredStore S K V → ℕ → TypedTieredStore S K V × Link
  evict now t slot =
      let (flushed, ok) = flush_l1_slot now t slot in
      if is_expired now (t.slots slot)
      then (expire_l1_slot t slot, some slot)
      else if ok
      then (remove_l1_slot flushed slot, some slot)
      else (flushed, none)

  unfoldable pub evict_tail : ℕ → TypedTieredStore S K V → Link → TypedTieredStore S K V × Link
  evict_tail now t none = (t, none)
  evict_tail now t (some slot) = evict now t slot

  unfoldable pub allocate_from : ℕ → TypedTieredStore S K V → Link → TypedTieredStore S K V × Link
  allocate_from now t (some i) = (t, some i)
  allocate_from now t none = evict_tail now t t.lru_tail

  -- `allocate_l1_slot_`
  unfoldable pub allocate_l1_slot : ℕ → TypedTieredStore S K V → TypedTieredStore S K V × Link
  unfolding allocate_from evict_tail
  allocate_l1_slot now t = allocate_from now t (free_l1_slot p t)

  -- A slot that is filled, with its two links.
  unfoldable pub fill : TypedTieredStore S K V → ℕ → Slot K V → TypedTieredStore S K V
  fill t slot s = link_lru_front (link_l1_hash p (set_slot t slot s) slot) slot

  -- `put` of a key that has a slot.
  unfoldable pub overwrite : ℕ → TypedTieredStore S K V → ℕ → V → ℕ → ℕ → TypedTieredStore S K V
  overwrite now t slot value ttl priority =
      touch_l1
        (set_slot t slot (record (t.slots slot) {
          value = value;
          expires_at = expires_at now ttl;
          priority = priority;
          dirty = true;
        }))
        slot

  unfoldable pub put_allocated :
      ℕ → K → V → ℕ → ℕ → TypedTieredStore S K V × Link → TypedTieredStore S K V × Bool
  put_allocated now key value ttl priority (t, none) = (t, false)
  put_allocated now key value ttl priority (t, some slot) =
      let (l2, there) = p.store.exists t.l2 (p.keys.encode key) in
      (
        fill (record t { l2 = l2 }) slot
            (record (t.slots slot) {
              key = key;
              value = value;
              expires_at = expires_at now ttl;
              priority = priority;
              dirty = true;
              valid = true;
              in_l2 = there;
            }),
        true,
      )

  unfoldable pub put_found :
      ℕ → TypedTieredStore S K V → K → V → ℕ → ℕ → Link → TypedTieredStore S K V × Bool
  put_found now t key value ttl priority (some slot) =
      (overwrite now t slot value ttl priority, true)
  put_found now t key value ttl priority none =
      put_allocated now key value ttl priority (allocate_l1_slot now t)

  unfoldable pub put : ℕ → TypedTieredStore S K V → K → V → ℕ → ℕ → TypedTieredStore S K V × Bool
  unfolding put_found put_allocated
  put now t key value ttl priority =
      let pruned = prune_expired_l1 now t in
      let done = put_found now pruned key value ttl priority (find_l1 p pruned key) in
      if p.store.is_valid t.l2 then done else (t, false)

  -- `get` of a key that has a slot.
  unfoldable pub get_l1 : ℕ → TypedTieredStore S K V → ℕ → TypedTieredStore S K V × Option V
  get_l1 now t slot =
      if is_expired now (t.slots slot)
      then (expire_l1_slot t slot, none)
      else (touch_l1 t slot, some (t.slots slot).value)

  unfoldable pub load_allocated : K → V → TypedTieredStore S K V × Link → TypedTieredStore S K V
  load_allocated key value (t, none) = t
  load_allocated key value (t, some slot) = fill t slot (record (t.slots slot) {
    key = key;
    value = value;
    dirty = false;
    valid = true;
    in_l2 = true;
  })

  unfoldable pub load_decoded :
      ℕ → TypedTieredStore S K V → K → Option V → TypedTieredStore S K V × Option V
  load_decoded now t key none = (t, none)
  load_decoded now t key (some value) =
      (load_allocated key value (allocate_l1_slot now t), some value)

  unfoldable pub load_found :
      ℕ → TypedTieredStore S K V → K → Option (List ℕ) → TypedTieredStore S K V × Option V
  load_found now t key none = (t, none)
  load_found now t key (some raw) = load_decoded now t key (p.values.decode raw)

  -- `get` of a key that has no slot: a value from the store gets one, if there is one to get.
  unfoldable pub get_l2 : ℕ → TypedTieredStore S K V → K → TypedTieredStore S K V × Option V
  unfolding load_found load_decoded load_allocated
  get_l2 now t key =
      let (l2, found) = p.store.get t.l2 (p.keys.encode key) in
      load_found now (record t { l2 = l2 }) key found

  unfoldable pub get_found :
      ℕ → TypedTieredStore S K V → K → Link → TypedTieredStore S K V × Option V
  get_found now t key (some slot) = get_l1 now t slot
  get_found now t key none = get_l2 now t key

  unfoldable pub get : ℕ → TypedTieredStore S K V → K → TypedTieredStore S K V × Option V
  unfolding get_found
  get now t key =
      let found = get_found now t key (find_l1 p t key) in
      if p.store.is_valid t.l2 then found else (t, none)

  -- Whether the store has the key, and the slot gone.
  unfoldable pub remove_found : TypedTieredStore S K V → K → Link → TypedTieredStore S K V × Bool
  remove_found t key (some slot) = (remove_l1_slot t slot, (t.slots slot).in_l2)
  remove_found t key none =
      let (l2, there) = p.store.exists t.l2 (p.keys.encode key) in (record t { l2 = l2 }, there)

  unfoldable pub remove : TypedTieredStore S K V → K → TypedTieredStore S K V × Bool
  unfolding remove_found
  remove t key =
      let (t', in_l2) = remove_found t key (find_l1 p t key) in
      let (l2, ok) = p.store.remove t'.l2 (p.keys.encode key) in
      let removed : TypedTieredStore S K V × Bool = (record t' { l2 = l2 }, ok) in
      if p.store.is_valid t.l2 then (if in_l2 then removed else (t', true)) else (t, false)

  unfoldable pub exists_found :
      ℕ → TypedTieredStore S K V → K → Link → TypedTieredStore S K V × Bool
  exists_found now t key (some slot) =
      if is_expired now (t.slots slot) then (expire_l1_slot t slot, false) else (t, true)
  exists_found now t key none =
      let (l2, there) = p.store.exists t.l2 (p.keys.encode key) in (record t { l2 = l2 }, there)

  unfoldable pub exists : ℕ → TypedTieredStore S K V → K → TypedTieredStore S K V × Bool
  unfolding exists_found
  exists now t key =
      let found = exists_found now t key (find_l1 p t key) in
      if p.store.is_valid t.l2 then found else (t, false)

  -- The number of the slots below `n` that pass a test.
  unfoldable pub count : (Slot K V → Bool) → ℕ → TypedTieredStore S K V → ℕ
  count test zero t = 0
  count test (suc n) t = count test n t + (if test (t.slots n) then 1 else 0)

  unfoldable pub size : TypedTieredStore S K V → ℕ
  size t =
      if p.store.is_valid t.l2
      then p.store.size t.l2 + count (λ s. s.valid && not s.in_l2) p.cache_size t
      else 0

  unfoldable pub cache_size : TypedTieredStore S K V → ℕ
  cache_size t = count (λ s. s.valid) p.cache_size t

  unfoldable pub dirty_count : TypedTieredStore S K V → ℕ
  dirty_count t = count (λ s. s.valid && s.dirty) p.cache_size t

  -- A round of `sync` on a slot that is valid and dirty: a record that the store has lost is
  -- dropped, any other is written.
  unfoldable pub sync_dirty : ℕ → TypedTieredStore S K V → ℕ → TypedTieredStore S K V × Bool
  sync_dirty now t i =
      let s = t.slots i in
      let (l2, there) = p.store.exists t.l2 (p.keys.encode s.key) in
      let t' : TypedTieredStore S K V = record t { l2 = l2 } in
      if s.in_l2
      then (if there then flush_l1_slot now t' i else (remove_l1_slot t' i, true))
      else flush_l1_slot now t i

  -- The loop of `sync`, from slot `n - 1` down.
  unfoldable pub sync_loop : ℕ → ℕ → TypedTieredStore S K V → Bool → TypedTieredStore S K V × Bool
  sync_loop zero now t ok = (t, ok)
  sync_loop (suc i) now t ok =
      let s = t.slots i in
      let (t', done) = if s.valid && s.dirty then sync_dirty now t i else (t, true) in
      sync_loop i now t' (ok && done)

  unfoldable pub sync : ℕ → TypedTieredStore S K V → TypedTieredStore S K V × Bool
  sync now t =
      if p.store.is_valid t.l2
      then sync_loop p.cache_size now (prune_expired_l1 now t) true
      else (t, false)

  unfoldable pub clear : TypedTieredStore S K V → TypedTieredStore S K V
  clear t =
      let r = reset_l1 p t in
      if p.store.is_valid t.l2 then record r { l2 = p.store.clear r.l2 } else t
