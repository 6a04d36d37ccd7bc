-- ===== src/TypedTieredStore/Slots.antt =====
-- TypedTieredStore.h: the slots, and what is read from them.
use micro_store.Base.{
  ℕ, zero, suc, ◌+◌, ◌-◌, ◌%◌, ◌^◌, Bool, false, not, ◌&&◌, Option, none, some, ltb, leb, ◌==◌,
  if◌then◌else◌,
}
use micro_store.TypedStore.{Store, Codec}

-- The parameters of the class template, with `KeyHash` and `std::equal_to<Key>` as functions,
-- USTORE_L1_CACHE_SIZE and USTORE_L1_HASH_BUCKETS as numbers, and `Key{}` and `Value{}`.
pub record Params (S K V : Type 0) : Type 0 where
  pub store : Store S
  pub keys : Codec K
  pub values : Codec V
  pub hash : K → ℕ
  pub key_eq : K → K → Bool
  pub cache_size : ℕ
  pub hash_buckets : ℕ
  pub blank_key : K
  pub blank_value : V

-- An index of a slot, or `none` for INVALID, which no slot has.
abbrev pub Link : Type 0
Link = Option ℕ

pub record Slot (K V : Type 0) : Type 0 where
  pub key : K
  pub value : V
  pub expires_at : ℕ
  pub priority : ℕ
  pub prev : Link
  pub next : Link
  pub hash_next : Link
  pub valid : Bool
  pub dirty : Bool
  pub in_l2 : Bool

-- The two arrays are functions of the index.
pub record TypedTieredStore (S K V : Type 0) : Type 0 where
  pub l2 : S
  pub slots : ℕ → Slot K V
  pub l1_buckets : ℕ → Link
  pub lru_head : Link
  pub lru_tail : Link

-- An assignment to an element of an array.
abbrev pub update : {A : Type 0} → (ℕ → A) → ℕ → A → ℕ → A
update f i a j = if i == j then a else f j

abbrev pub set_slot :
    {S K V : Type 0} → TypedTieredStore S K V → ℕ → Slot K V → TypedTieredStore S K V
set_slot t i s = record t { slots = update t.slots i s }

-- `expires_at_`: the sum wraps.
unfoldable pub expires_at : ℕ → ℕ → ℕ
expires_at now ttl = if ttl == 0 then 0 else (now + ttl) % 2 ^ 32

module _ {K V : Type 0} where
  unfoldable pub is_expired : ℕ → Slot K V → Bool
  is_expired now s = not (s.expires_at == 0) && leb s.expires_at now

  unfoldable pub remaining_ttl : ℕ → Slot K V → ℕ
  remaining_ttl now s =
      if s.expires_at == 0 then 0 else if ltb now s.expires_at then s.expires_at - now else 1

  -- The walk along a chain: the slot where it ends, if any; no result when it is out of rounds.
  unfoldable pub walk : (K → K → Bool) → ℕ → (ℕ → Slot K V) → K → Link → Option Link
  walk key_eq fuel slots key none = some none
  walk key_eq zero slots key (some i) = none
  walk key_eq (suc f) slots key (some i) =
      let rest = walk key_eq f slots key (slots i).hash_next in
      if (slots i).valid && key_eq (slots i).key key then some (some i) else rest

  -- The first of `n` slots from `i` on that is not valid.
  unfoldable pub free_from : ℕ → (ℕ → Slot K V) → ℕ → Link
  free_from zero slots i = none
  free_from (suc n) slots i =
      let rest = free_from n slots (i + 1) in if (slots i).valid then rest else some i

abbrev pub reached : Option Link → Link
reached none = none
reached (some l) = l

module _ {S K V : Type 0} (p : Params S K V) where
  -- `Slot{}`
  unfoldable pub blank : Slot K V
  blank = record {
    key = p.blank_key;
    value = p.blank_value;
    expires_at = 0;
    priority = 0;
    prev = none;
    next = none;
    hash_next = none;
    valid = false;
    dirty = false;
    in_l2 = false;
  }

  -- `reset_l1_`
  unfoldable pub reset_l1 : TypedTieredStore S K V → TypedTieredStore S K V
  reset_l1 t = record t {
    slots = λ i. blank;
    l1_buckets = λ b. none;
    lru_head = none;
    lru_tail = none;
  }

  -- `l1_bucket_`
  unfoldable pub l1_bucket : K → ℕ
  l1_bucket key = p.hash key % p.hash_buckets % 2 ^ 16

  -- `find_l1_`: a chain has at most as many slots as the cache.
  unfoldable pub find_l1 : TypedTieredStore S K V → K → Link
  find_l1 t key = reached (walk p.key_eq p.cache_size t.slots key (t.l1_buckets (l1_bucket key)))

  -- `free_l1_slot_`
  unfoldable pub free_l1_slot : TypedTieredStore S K V → Link
  free_l1_slot t = free_from p.cache_size t.slots 0
