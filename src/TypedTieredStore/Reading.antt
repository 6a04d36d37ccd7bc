-- ===== src/TypedTieredStore/Reading.antt =====
-- TypedTieredStore.h: `find_l1_` against the slots, and `get` after `put`.
use micro_store.Base.{
  ℕ, ◌+◌, ◌≤◌, ◌<◌, ◌^◌, ◌≡◌, ◌↔◌, refl, ap, sym, ◌∙◌, true, false, none, some, List, ◌∷◌, arith,
  Bool-cases, inl, inr, ◌⊎◌,
}
use micro_store.TypedTieredStore.Slots.{
  Params, Link, Slot, TypedTieredStore, set_slot, l1_bucket, is_expired, walk, find_l1, expires_at,
}
use micro_store.TypedTieredStore.Links.{touch_l1}
use micro_store.TypedTieredStore.Methods.{
  prune_expired_l1, allocate_l1_slot, overwrite, put_allocated, put_found, put, get_l1, get_found,
  get,
}
use micro_store.TypedTieredStore.Chain.{without}
use micro_store.TypedTieredStore.Find.{find_l1-search_in, find_l1_is, find_l1-some, find_l1_valid}
use micro_store.TypedTieredStore.Keep.{Rep, touch_l1-Rep}
use micro_store.TypedTieredStore.Payload.{payload, touch_l1-payload, fill-payload}
use micro_store.TypedTieredStore.Invariant.{IsWellFormed, prune_expired_l1-Leaves, put-IsWellFormed}

module _ {S K V : Type 0} (p : Params S K V) where
  -- The walk of `find_l1_` comes to its end, at a slot of the key or at the end of the chain,
  -- within as many rounds as the cache has slots, when the slots are well formed, and finds what
  -- `find_l1_` gives.
  pub find_l1-fuel :
      (t : TypedTieredStore S K V) (key : K) (fuel : ℕ)
      → IsWellFormed p t
      → p.cache_size ≤ fuel
      → walk p.key_eq fuel t.slots key (t.l1_buckets (l1_bucket p key)) ≡ some (find_l1 p t key)
  find_l1-fuel t key fuel (lru, (chains, r)) h =
      find_l1-search_in p chains key fuel r h ∙ ap some (sym (find_l1_is p chains key r))

  -- A slot of the key, as `put` fills it.
  pub record Holds (u : TypedTieredStore S K V) (key : K) (value : V) (expiry : ℕ) : Type 0 where
    pub slot : ℕ
    pub valid : (u.slots slot).valid ≡ true
    pub its_key : (u.slots slot).key ≡ key
    pub its_value : (u.slots slot).value ≡ value
    pub its_expiry : (u.slots slot).expires_at ≡ expiry

  pub Holds-of :
      (u : TypedTieredStore S K V) (i : ℕ) (s : Slot K V)
      → payload (u.slots i) ≡ payload s
      → s.valid ≡ true
      → Holds u s.key s.value s.expires_at
  Holds-of u i s e v = record {
    slot = i;
    valid = ap (λ (s : Slot K V). s.valid) e ∙ v;
    its_key = ap (λ (s : Slot K V). s.key) e;
    its_value = ap (λ (s : Slot K V). s.value) e;
    its_expiry = ap (λ (s : Slot K V). s.expires_at) e;
  }

  module _ (now : ℕ) (key : K) (value : V) (ttl priority : ℕ) where
    put_allocated-Holds :
        (u : TypedTieredStore S K V) (l : Link)
        → (put_allocated p now key value ttl priority (u, l)).1 ≡ true
        → Holds (put_allocated p now key value ttl priority (u, l)).0 key value (expires_at now ttl)
    unfolding put_allocated
    put_allocated-Holds u none e = ground arith
    put_allocated-Holds u (some i) e =
        let found = p.store.exists u.l2 (p.keys.encode key) in
        Holds-of _ i
          (record (u.slots i) {
            key = key;
            value = value;
            expires_at = expires_at now ttl;
            priority = priority;
            dirty = true;
            valid = true;
            in_l2 = found.1;
          })
          (fill-payload p (record u { l2 = found.0 }) i _ i ∙ ground arith) refl

    overwrite-Holds :
        (t : TypedTieredStore S K V) (i : ℕ)
        → (t.slots i).valid ≡ true
        → (t.slots i).key ≡ key
        → Holds (overwrite p now t i value ttl priority) key value (expires_at now ttl)
    unfolding overwrite
    overwrite-Holds t i v e =
        let s : Slot K V = record (t.slots i) {
          value = value;
          expires_at = expires_at now ttl;
          priority = priority;
          dirty = true;
        } in
        let h =
          Holds-of (touch_l1 (set_slot t i s) i) i s
            (touch_l1-payload (set_slot t i s) i i ∙ ground arith) v in
        record {
          slot = h.slot;
          valid = h.valid;
          its_key = h.its_key ∙ e;
          its_value = h.its_value;
          its_expiry = h.its_expiry;
        }

    module _ (law : (a b : K) → (p.key_eq a b ≡ true) ↔ (a ≡ b)) where
      put_found-Holds :
          (t : TypedTieredStore S K V) (l : Link)
          → IsWellFormed p t
          → find_l1 p t key ≡ l
          → (put_found p now t key value ttl priority l).1 ≡ true
          → Holds (put_found p now t key value ttl priority l).0 key value (expires_at now ttl)
      unfolding put_found
      put_found-Holds t (some i) (lru, (chains, r)) e ok =
          let (v, k) = find_l1-some p law chains key i r e in overwrite-Holds t i v k
      put_found-Holds t none w e ok =
          put_allocated-Holds (allocate_l1_slot p now t).0 (allocate_l1_slot p now t).1 ok

      put-Holds :
          (t : TypedTieredStore S K V)
          → IsWellFormed p t
          → (put p now t key value ttl priority).1 ≡ true
          → Holds (put p now t key value ttl priority).0 key value (expires_at now ttl)
      unfolding put
      put-Holds t (lru, r) ok =
          let pruned = prune_expired_l1-Leaves p now t lru r in
          let at =
            put_found-Holds (prune_expired_l1 p now t) (find_l1 p (prune_expired_l1 p now t) key)
              (pruned.lru, pruned.rep) refl in
          elim (Bool-cases (p.store.is_valid t.l2)) [
            | inl e ↦ rw e (at (rw e at ok))
            | inr e ↦ ground arith
          ]

  -- The expiry that `put` writes is not reached before its time.
  not_expired :
      (now later ttl : ℕ) (s : Slot K V)
      → s.expires_at ≡ expires_at now ttl
      → (ttl ≡ 0) ⊎ ((later < now + ttl) × (now + ttl < 2 ^ 32))
      → is_expired later s ≡ false
  unfolding is_expired expires_at
  not_expired now later ttl s e h = grind arith

  pub get_Holds :
      (law : (a b : K) → (p.key_eq a b ≡ true) ↔ (a ≡ b)) (later : ℕ) (u : TypedTieredStore S K V)
      (key : K) (value : V) (expiry : ℕ)
      → IsWellFormed p u
      → p.store.is_valid u.l2 ≡ true
      → (h : Holds u key value expiry) → is_expired later (u.slots h.slot) ≡ false
      → (get p later u key).1 ≡ some value
  unfolding get get_found get_l1
  get_Holds law later u key value expiry (lru, (chains, r)) valid h fresh =
      let found : find_l1 p u key ≡ some h.slot =
        ap (find_l1 p u) (sym h.its_key) ∙ find_l1_valid p law chains h.slot r h.valid in
      rw (valid, found, fresh) (ap some h.its_value)

  -- When the test of keys is equality and the slots are well formed, `get` after a `put` that
  -- returned true gives the value, if the store below is valid after the `put`, and the time
  -- to live is 0 or the clock is still below the sum of the time of the `put` and the time to
  -- live, which is below 2^32.
  pub tiered_get-put :
      (law : (a b : K) → (p.key_eq a b ≡ true) ↔ (a ≡ b)) (now later : ℕ)
      (t : TypedTieredStore S K V) (key : K) (value : V) (ttl priority : ℕ)
      → IsWellFormed p t
      → (put p now t key value ttl priority).1 ≡ true
      → p.store.is_valid (put p now t key value ttl priority).0.l2 ≡ true
      → (ttl ≡ 0) ⊎ ((later < now + ttl) × (now + ttl < 2 ^ 32))
      → (get p later (put p now t key value ttl priority).0 key).1 ≡ some value
  tiered_get-put law now later t key value ttl priority w ok valid time =
      let h = put-Holds now key value ttl priority law t w ok in
      get_Holds law later _ key value _ (put-IsWellFormed p law now t key value ttl priority w)
        valid h (not_expired now later ttl _ h.its_expiry time)

  -- When the test of keys is equality, the store below is valid and the slots are well formed,
  -- `get` of the key of a valid slot that is not expired gives the slot's value, and the slot
  -- comes to the front of the list of use, the others in their order.
  pub get-Rep :
      (law : (a b : K) → (p.key_eq a b ≡ true) ↔ (a ≡ b)) (now : ℕ) (t : TypedTieredStore S K V)
      (lru : List ℕ) (i : ℕ)
      → Rep p t lru
      → p.store.is_valid t.l2 ≡ true
      → (t.slots i).valid ≡ true
      → is_expired now (t.slots i) ≡ false
      → ((get p now t (t.slots i).key).1 ≡ some (t.slots i).value)
        × Rep p (get p now t (t.slots i).key).0 (i ∷ without i lru)
  unfolding get get_found get_l1
  get-Rep law now t lru i (chains, r) valid v fresh =
      let found = find_l1_valid p law chains i r v in
      rw (valid, found, fresh) (refl, touch_l1-Rep p t lru i (chains, r) v)
