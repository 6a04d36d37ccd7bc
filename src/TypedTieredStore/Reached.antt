-- ===== src/TypedTieredStore/Reached.antt =====
-- TypedTieredStore.h: the states that calls of the methods lead to.
use micro_store.Base.{ℕ, ◌≡◌, ◌↔◌, true}
use micro_store.TypedTieredStore.Slots.{Params, TypedTieredStore}
use micro_store.TypedTieredStore.Methods.{
  create, put, get, remove, exists, sync, clear, prune_expired_l1,
}
use micro_store.TypedTieredStore.Invariant.{
  IsWellFormed, IsWellFormed-l2, create-IsWellFormed, prune_expired_l1-Leaves, put-IsWellFormed,
}
use micro_store.TypedTieredStore.Keeping.{
  get-IsWellFormed, remove-IsWellFormed, exists-IsWellFormed, sync-IsWellFormed, clear-IsWellFormed,
}

-- The states after the constructor and any calls, at any readings of the clock. Between two calls
-- the store below may change in any way, and an iterator may be made.
pub data Reached {S K V : Type 0} (p : Params S K V) : TypedTieredStore S K V → Type 0 where
  start : (s : S) → Reached p (create p s)
  by_put :
      (now : ℕ) (t : TypedTieredStore S K V) (key : K) (value : V) (ttl priority : ℕ)
      → Reached p t
      → Reached p (put p now t key value ttl priority).0
  by_get :
      (now : ℕ) (t : TypedTieredStore S K V) (key : K) → Reached p t → Reached p (get p now t key).0
  by_remove : (t : TypedTieredStore S K V) (key : K) → Reached p t → Reached p (remove p t key).0
  by_exists :
      (now : ℕ) (t : TypedTieredStore S K V) (key : K)
      → Reached p t
      → Reached p (exists p now t key).0
  by_sync : (now : ℕ) (t : TypedTieredStore S K V) → Reached p t → Reached p (sync p now t).0
  by_clear : (t : TypedTieredStore S K V) → Reached p t → Reached p (clear p t)
  by_begin :
      (now : ℕ) (t : TypedTieredStore S K V) → Reached p t → Reached p (prune_expired_l1 p now t)
  by_store : (t : TypedTieredStore S K V) (s : S) → Reached p t → Reached p (record t { l2 = s })

-- When the test of keys is equality, in each state that calls of the methods lead to, whatever
-- becomes of the store below, there is a list of use and there is a chain for each bucket that
-- the links spell. The list has the valid slots, each once, and the chain of a bucket those
-- whose key belongs there; the valid slots are slots of the cache and have different keys, and
-- no other slot has an expiry.
pub Reached-IsWellFormed :
    {S K V : Type 0} (p : Params S K V) (law : (a b : K) → (p.key_eq a b ≡ true) ↔ (a ≡ b))
    (t : TypedTieredStore S K V)
    → Reached p t
    → IsWellFormed p t
Reached-IsWellFormed p law _ (start s) = create-IsWellFormed p s
Reached-IsWellFormed p law _ (by_put now t key value ttl priority r) =
    put-IsWellFormed p law now t key value ttl priority (Reached-IsWellFormed p law t r)
Reached-IsWellFormed p law _ (by_get now t key r) =
    get-IsWellFormed p law now t key (Reached-IsWellFormed p law t r)
Reached-IsWellFormed p law _ (by_remove t key r) =
    remove-IsWellFormed p law t key (Reached-IsWellFormed p law t r)
Reached-IsWellFormed p law _ (by_exists now t key r) =
    exists-IsWellFormed p law now t key (Reached-IsWellFormed p law t r)
Reached-IsWellFormed p law _ (by_sync now t r) =
    sync-IsWellFormed p now t (Reached-IsWellFormed p law t r)
Reached-IsWellFormed p law _ (by_clear t r) =
    clear-IsWellFormed p t (Reached-IsWellFormed p law t r)
Reached-IsWellFormed p law _ (by_begin now t r) =
    let (lru, rep) = Reached-IsWellFormed p law t r in
    let pruned = prune_expired_l1-Leaves p now t lru rep in (pruned.lru, pruned.rep)
Reached-IsWellFormed p law _ (by_store t s r) =
    IsWellFormed-l2 p t s (Reached-IsWellFormed p law t r)
