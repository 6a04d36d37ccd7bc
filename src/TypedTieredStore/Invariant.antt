-- ===== src/TypedTieredStore/Invariant.antt =====
-- TypedTieredStore.h: every method keeps the invariant of the slots.
use micro_store.Base.{
  ℕ, ◌<◌, ◌≡◌, ◌≢◌, ◌↔◌, refl, sym, ◌∙◌, true, false, none, some, List, [], ◌∷◌, arith, Bool-cases,
  inl, inr,
}
use micro_store.TypedTieredStore.Slots.{
  Params, Link, Slot, TypedTieredStore, set_slot, blank, find_l1, expires_at,
}
use micro_store.TypedTieredStore.Methods.{
  create, prune_expired_l1, allocate_l1_slot, overwrite, put_allocated, put_found, put,
}
use micro_store.TypedTieredStore.Chain.{without}
use micro_store.TypedTieredStore.Find.{find_l1-some, find_l1-none}
use micro_store.TypedTieredStore.Keep.{Rep, SameSlots, Rep-same, touch_l1-Rep}
use micro_store.TypedTieredStore.Fill.{fill-Rep}
use micro_store.TypedTieredStore.Allocate.{
  Rep-l2, prune_loop-Leaves, Fewer, Leaves, allocate_l1_slot-Allocated,
}

module _ {S K V : Type 0} (p : Params S K V) where
  -- There is a list of use, and there are chains, that the links spell.
  abbrev pub IsWellFormed : TypedTieredStore S K V → Type 0
  IsWellFormed t = (lru : List ℕ) × Rep p t lru

  pub IsWellFormed-l2 :
      (t : TypedTieredStore S K V) (l2 : S) → IsWellFormed t → IsWellFormed (record t { l2 = l2 })
  IsWellFormed-l2 t l2 (lru, r) = (lru, Rep-l2 p t lru l2 r)

  -- A new store has an empty list of use and empty chains.
  pub create-IsWellFormed : (s : S) → IsWellFormed (create p s)
  unfolding create blank
  create-IsWellFormed s = (
    [],
    (
      λ b. [],
      record {
        by_use = record { next = tt; prev = tt; head_is = refl; tail_is = refl; once = tt };
        by_hash = record { start = λ b. refl; links = λ b. tt; once = λ b. tt };
        keyed = record {
          within = λ i v. ground arith;
          distinct = λ i j v w e. ground arith;
          unset = λ i v. refl;
        };
        in_use = λ i. refl;
        in_chain = λ b i. refl;
      },
    ),
  )

  pub prune_expired_l1-Leaves :
      (now : ℕ) (t : TypedTieredStore S K V) (lru : List ℕ)
      → Rep p t lru
      → Leaves p t (prune_expired_l1 p now t)
  unfolding prune_expired_l1
  prune_expired_l1-Leaves now t lru r = prune_loop-Leaves p p.cache_size now t 0 lru r

  pub overwrite-Rep :
      (now : ℕ) (t : TypedTieredStore S K V) (lru : List ℕ) (i : ℕ) (value : V) (ttl priority : ℕ)
      → Rep p t lru
      → (t.slots i).valid ≡ true
      → Rep p (overwrite p now t i value ttl priority) (i ∷ without i lru)
  unfolding overwrite
  overwrite-Rep now t lru i value ttl priority r valid =
      let s : Slot K V = record (t.slots i) {
        value = value;
        expires_at = expires_at now ttl;
        priority = priority;
        dirty = true;
      } in
      let same : SameSlots p t.slots (set_slot t i s).slots = record {
        keys = record {
          key = λ j. ground arith;
          valid = λ j. ground arith;
          hash_next = λ j. ground arith;
          expires_at = λ j v. ground arith;
        };
        next = λ j. ground arith;
        prev = λ j. ground arith;
      } in
      touch_l1-Rep p (set_slot t i s) lru i
        (Rep-same p t (set_slot t i s) lru r same refl refl refl) (ground arith)

  module _ (law : (a b : K) → (p.key_eq a b ≡ true) ↔ (a ≡ b)) where
    put_allocated-IsWellFormed :
        (now : ℕ) (key : K) (value : V) (ttl priority : ℕ) (u : TypedTieredStore S K V) (l : Link)
        → IsWellFormed u
        → ((j : ℕ) → l ≡ some j → ((u.slots j).valid ≡ false) × (j < p.cache_size))
        → ((j : ℕ) → (u.slots j).valid ≡ true → (u.slots j).key ≢ key)
        → IsWellFormed (put_allocated p now key value ttl priority (u, l)).0
    unfolding put_allocated
    put_allocated-IsWellFormed now key value ttl priority u none w empty fresh = w
    put_allocated-IsWellFormed now key value ttl priority u (some i) (lru, r) empty fresh =
        let (e, small) = empty i refl in
        let found = p.store.exists u.l2 (p.keys.encode key) in
        (
          i ∷ lru,
          fill-Rep p (record u { l2 = found.0 }) i _ lru (Rep-l2 p u lru found.0 r) e small refl
              fresh,
        )

    pub fresh_after :
        (t u : TypedTieredStore S K V) (lru : List ℕ) (key : K)
        → Rep p t lru
        → find_l1 p t key ≡ none
        → Fewer t.slots u.slots
        → (j : ℕ) → (u.slots j).valid ≡ true
        → (u.slots j).key ≢ key
    fresh_after t u lru key (chains, r) missing fewer j v e =
        find_l1-none p law chains key j r missing (fewer.valid j v) (sym (fewer.key j v) ∙ e)

    put_found-IsWellFormed :
        (now : ℕ) (t : TypedTieredStore S K V) (key : K) (value : V) (ttl priority : ℕ) (l : Link)
        → IsWellFormed t
        → find_l1 p t key ≡ l
        → IsWellFormed (put_found p now t key value ttl priority l).0
    unfolding put_found
    put_found-IsWellFormed now t key value ttl priority (some i) (lru, (chains, r)) e = (
      i ∷ without i lru,
      overwrite-Rep now t lru i value ttl priority (chains, r)
          (find_l1-some p law chains key i r e).0,
    )
    put_found-IsWellFormed now t key value ttl priority none (lru, r) e =
        let a = allocate_l1_slot-Allocated p now t lru r in
        put_allocated-IsWellFormed now key value ttl priority (allocate_l1_slot p now t).0
          (allocate_l1_slot p now t).1 (a.leaves.lru, a.leaves.rep) a.empty
          (fresh_after t (allocate_l1_slot p now t).0 lru key r e a.leaves.fewer)

    -- `put` keeps the invariant.
    pub put-IsWellFormed :
        (now : ℕ) (t : TypedTieredStore S K V) (key : K) (value : V) (ttl priority : ℕ)
        → IsWellFormed t
        → IsWellFormed (put p now t key value ttl priority).0
    unfolding put
    put-IsWellFormed now t key value ttl priority (lru, r) =
        let pruned = prune_expired_l1-Leaves now t lru r in
        let done =
          put_found-IsWellFormed now (prune_expired_l1 p now t) key value ttl priority _
            (pruned.lru, pruned.rep) refl in
        elim (Bool-cases (p.store.is_valid t.l2)) [ inl e ↦ rw e done | inr e ↦ rw e (lru, r) ]
