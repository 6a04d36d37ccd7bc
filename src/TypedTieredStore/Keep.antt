-- ===== src/TypedTieredStore/Keep.antt =====
-- TypedTieredStore.h: a slot that is filled, changed or emptied keeps the invariant of the slots.
use micro_store.Base.{ℕ, ◌≡◌, refl, sym, ◌∙◌, true, false, none, List, ◌∷◌, arith}
use micro_store.TypedTieredStore.Slots.{Params, Link, Slot, TypedTieredStore, update}
use micro_store.TypedTieredStore.Links.{touch_l1}
use micro_store.TypedTieredStore.Chain.{has, without, Forward-same, Backward-same, has-without}
use micro_store.TypedTieredStore.Shape.{
  IsLru, IsHashed, IsHashed-same, IsKeyed-same, SameKeys, IsRep,
}
use micro_store.TypedTieredStore.Use.{touch_l1-IsLru, touch_l1-SameKeys, touch_l1-buckets}

module _ {K V : Type 0} (f : ℕ → Slot K V) (i : ℕ) (s : Slot K V) where
  -- An assignment to a slot outside a list.
  pub update-IsLru :
      {head tail : Link} (lru : List ℕ)
      → IsLru f head tail lru
      → has i lru ≡ false
      → IsLru (update f i s) head tail lru
  update-IsLru lru h out = record {
    next =
        Forward-same (λ j. (f j).next) (λ j. (update f i s j).next) lru (λ j m. ground arith)
          h.next;
    prev =
        Backward-same (λ j. (f j).prev) (λ j. (update f i s j).prev) none lru (λ j m. ground arith)
          h.prev;
    head_is = h.head_is;
    tail_is = h.tail_is;
    once = h.once;
  }

  pub update-IsHashed :
      {buckets : ℕ → Link} (chains : ℕ → List ℕ)
      → IsHashed f buckets chains
      → ((b : ℕ) → has i (chains b) ≡ false)
      → IsHashed (update f i s) buckets chains
  update-IsHashed chains h out = record {
    start = h.start;
    links = λ b.
        Forward-same (λ j. (f j).hash_next) (λ j. (update f i s j).hash_next) (chains b)
          (λ j m. ground (arith, out b)) (h.links b);
    once = h.once;
  }

module _ {S K V : Type 0} (p : Params S K V) where
  -- The invariant, for some chains.
  abbrev pub Rep : TypedTieredStore S K V → List ℕ → Type 0
  Rep t lru = (chains : ℕ → List ℕ) × IsRep p t lru chains

  -- Two slots with the same part in the invariant.
  pub record SameSlots (f g : ℕ → Slot K V) : Type 0 where
    pub keys : SameKeys f g
    pub next : (i : ℕ) → (g i).next ≡ (f i).next
    pub prev : (i : ℕ) → (g i).prev ≡ (f i).prev

  IsRep-of_keys :
      (t u : TypedTieredStore S K V) (lru lru' : List ℕ) (chains : ℕ → List ℕ)
      → IsRep p t lru chains
      → SameKeys t.slots u.slots
      → u.l1_buckets ≡ t.l1_buckets
      → IsLru u.slots u.lru_head u.lru_tail lru'
      → ((i : ℕ) → has i lru' ≡ has i lru)
      → IsRep p u lru' chains
  IsRep-of_keys t u lru lru' chains r same buckets by_use members = record {
    by_use = by_use;
    by_hash = rw buckets (IsHashed-same t.slots u.slots t.l1_buckets chains same r.by_hash);
    keyed = IsKeyed-same p t.slots u.slots same r.keyed;
    in_use = λ i. members i ∙ (r.in_use i ∙ sym (same.valid i));
    in_chain = λ b i. r.in_chain b i ∙ rw (same.valid i, same.key i);
  }

  -- Changes of a slot that leave its key and its links alone.
  pub Rep-same :
      (t u : TypedTieredStore S K V) (lru : List ℕ)
      → Rep t lru
      → SameSlots t.slots u.slots
      → u.l1_buckets ≡ t.l1_buckets
      → u.lru_head ≡ t.lru_head
      → u.lru_tail ≡ t.lru_tail
      → Rep u lru
  Rep-same t u lru (chains, r) same buckets head tail = (
    chains,
    IsRep-of_keys t u lru lru chains r same.keys buckets
        (record {
          next =
              Forward-same (λ j. (t.slots j).next) (λ j. (u.slots j).next) lru (λ j m. same.next j)
                r.by_use.next;
          prev =
              Backward-same (λ j. (t.slots j).prev) (λ j. (u.slots j).prev) none lru
                (λ j m. same.prev j) r.by_use.prev;
          head_is = head ∙ r.by_use.head_is;
          tail_is = tail ∙ r.by_use.tail_is;
          once = r.by_use.once;
        })
        (λ i. refl),
  )

  -- `touch_l1_` of a valid slot brings it to the front.
  pub touch_l1-Rep :
      (t : TypedTieredStore S K V) (lru : List ℕ) (i : ℕ)
      → Rep t lru
      → (t.slots i).valid ≡ true
      → Rep (touch_l1 t i) (i ∷ without i lru)
  touch_l1-Rep t lru i (chains, r) valid =
      let m : has i lru ≡ true = r.in_use i ∙ valid in
      (
        chains,
        IsRep-of_keys t (touch_l1 t i) lru (i ∷ without i lru) chains r (touch_l1-SameKeys t i)
            (touch_l1-buckets t i) (touch_l1-IsLru t i lru r.by_use m)
            (λ j. ground (arith, has-without i j lru r.by_use.once)),
      )
