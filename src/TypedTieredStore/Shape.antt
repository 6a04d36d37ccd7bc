-- ===== src/TypedTieredStore/Shape.antt =====
-- TypedTieredStore.h: the invariant of the slots. A list of slots in the order of use and one for
-- each hash bucket say what the links spell.
use micro_store.Base.{ℕ, ◌<◌, ◌≡◌, sym, ◌∙◌, Bool, true, false, ◌&&◌, none, List, ◌==◌}
use micro_store.TypedTieredStore.Slots.{Params, Link, Slot, TypedTieredStore, l1_bucket}
use micro_store.TypedTieredStore.Chain.{
  has, NoRepeat, first, end_of, Forward, Backward, Forward-same,
}

module _ {K V : Type 0} where
  -- The links `prev` and `next`, with the two ends, spell the list.
  pub record IsLru (slots : ℕ → Slot K V) (head tail : Link) (lru : List ℕ) : Type 0 where
    pub next : Forward (λ i. (slots i).next) lru
    pub prev : Backward (λ i. (slots i).prev) none lru
    pub head_is : head ≡ first lru
    pub tail_is : tail ≡ end_of none lru
    pub once : NoRepeat lru

  -- The buckets and the links `hash_next` spell a chain for each bucket.
  pub record IsHashed (slots : ℕ → Slot K V) (buckets : ℕ → Link) (chains : ℕ → List ℕ)
      : Type 0 where
    pub start : (b : ℕ) → buckets b ≡ first (chains b)
    pub links : (b : ℕ) → Forward (λ i. (slots i).hash_next) (chains b)
    pub once : (b : ℕ) → NoRepeat (chains b)

  -- Two states of the slots with the same keys and chains.
  pub record SameKeys (f g : ℕ → Slot K V) : Type 0 where
    pub key : (i : ℕ) → (g i).key ≡ (f i).key
    pub valid : (i : ℕ) → (g i).valid ≡ (f i).valid
    pub hash_next : (i : ℕ) → (g i).hash_next ≡ (f i).hash_next
    pub expires_at : (i : ℕ) → (f i).valid ≡ false → (g i).expires_at ≡ (f i).expires_at

  pub IsHashed-same :
      (f g : ℕ → Slot K V) (buckets : ℕ → Link) (chains : ℕ → List ℕ)
      → SameKeys f g
      → IsHashed f buckets chains
      → IsHashed g buckets chains
  IsHashed-same f g buckets chains same h = record {
    start = h.start;
    links = λ b.
        Forward-same (λ i. (f i).hash_next) (λ i. (g i).hash_next) (chains b)
          (λ i m. same.hash_next i) (h.links b);
    once = h.once;
  }

module _ {S K V : Type 0} (p : Params S K V) where
  -- The valid slots are those of the cache, no two of them have one key, and any other slot has
  -- no expiry set.
  pub record IsKeyed (slots : ℕ → Slot K V) : Type 0 where
    pub within : (i : ℕ) → (slots i).valid ≡ true → i < p.cache_size
    pub distinct :
        (i j : ℕ)
        → (slots i).valid ≡ true
        → (slots j).valid ≡ true
        → (slots i).key ≡ (slots j).key
        → i ≡ j
    pub unset : (i : ℕ) → (slots i).valid ≡ false → (slots i).expires_at ≡ 0

  pub IsKeyed-same : (f g : ℕ → Slot K V) → SameKeys f g → IsKeyed f → IsKeyed g
  IsKeyed-same f g same h = record {
    within = λ i v. h.within i (sym (same.valid i) ∙ v);
    distinct = λ i j v w e.
        h.distinct i j (sym (same.valid i) ∙ v) (sym (same.valid j) ∙ w)
          (sym (same.key i) ∙ (e ∙ same.key j));
    unset = λ i v. let v' = sym (same.valid i) ∙ v in same.expires_at i v' ∙ h.unset i v';
  }

  -- The slot is valid and its key belongs to the bucket.
  abbrev pub belongs : (ℕ → Slot K V) → ℕ → ℕ → Bool
  belongs slots b i = (slots i).valid && l1_bucket p (slots i).key == b

  -- The list of use has the valid slots, and the chain of a bucket those that belong there.
  pub record IsRep (t : TypedTieredStore S K V) (lru : List ℕ) (chains : ℕ → List ℕ) : Type 0 where
    pub by_use : IsLru t.slots t.lru_head t.lru_tail lru
    pub by_hash : IsHashed t.slots t.l1_buckets chains
    pub keyed : IsKeyed t.slots
    pub in_use : (i : ℕ) → has i lru ≡ (t.slots i).valid
    pub in_chain : (b i : ℕ) → has i (chains b) ≡ belongs t.slots b i
