-- ===== src/TypedTieredStore/Hash.antt =====
-- TypedTieredStore.h: `link_l1_hash_` and `unlink_l1_hash_` against the chains.
use micro_store.Base.{
  ℕ, zero, suc, ◌≤◌, ◌≡◌, refl, ap, sym, ◌∙◌, true, false, none, some, List, [], ◌∷◌, arith, length,
  ◌==◌, ==_iff, if◌then◌else◌, Bool-cases, Option-cases, inl, inr,
}
use micro_store.TypedTieredStore.Slots.{Params, Link, Slot, TypedTieredStore, update, l1_bucket}
use micro_store.TypedTieredStore.Links.{
  set_hash_next, bypass, unlink_walk, link_l1_hash, unlink_l1_hash,
}
use micro_store.TypedTieredStore.Chain.{
  has, without, first, before, Forward, Forward-same, Backward-same, without-NoRepeat, before-has,
}
use micro_store.TypedTieredStore.Cut.{cut_next, or_else, Forward-cut, first-without}
use micro_store.TypedTieredStore.Shape.{IsLru, IsHashed}

-- Two states of the slots with the same list of use, as the functions on the chains leave them.
pub record SameUse {K V : Type 0} (f g : ℕ → Slot K V) : Type 0 where
  pub key : (i : ℕ) → (g i).key ≡ (f i).key
  pub valid : (i : ℕ) → (g i).valid ≡ (f i).valid
  pub expires_at : (i : ℕ) → (g i).expires_at ≡ (f i).expires_at
  pub next : (i : ℕ) → (g i).next ≡ (f i).next
  pub prev : (i : ℕ) → (g i).prev ≡ (f i).prev

pub IsLru-same :
    {K V : Type 0} (f g : ℕ → Slot K V) {head tail : Link} {lru : List ℕ}
    → SameUse f g
    → IsLru f head tail lru
    → IsLru g head tail lru
IsLru-same f g {lru = lru} same h = record {
  next = Forward-same (λ i. (f i).next) (λ i. (g i).next) lru (λ i m. same.next i) h.next;
  prev = Backward-same (λ i. (f i).prev) (λ i. (g i).prev) none lru (λ i m. same.prev i) h.prev;
  head_is = h.head_is;
  tail_is = h.tail_is;
  once = h.once;
}

module _ {S K V : Type 0} (p : Params S K V) (t : TypedTieredStore S K V) (i : ℕ) where
  pub link_l1_hash-SameUse : SameUse t.slots (link_l1_hash p t i).slots
  unfolding link_l1_hash
  link_l1_hash-SameUse = record {
    key = λ j. ground arith;
    valid = λ j. ground arith;
    expires_at = λ j. ground arith;
    next = λ j. ground arith;
    prev = λ j. ground arith;
  }

  pub link_l1_hash-ends :
      ((link_l1_hash p t i).lru_head ≡ t.lru_head) × ((link_l1_hash p t i).lru_tail ≡ t.lru_tail)
  unfolding link_l1_hash
  link_l1_hash-ends = (refl, refl)

  link_l1_hash-hash_next :
      (j : ℕ)
      → ((link_l1_hash p t i).slots j).hash_next
        ≡ (if i == j then t.l1_buckets (l1_bucket p (t.slots i).key) else (t.slots j).hash_next)
  unfolding link_l1_hash
  link_l1_hash-hash_next j = ground arith

  link_l1_hash-buckets :
      (b : ℕ)
      → (link_l1_hash p t i).l1_buckets b
        ≡ update t.l1_buckets (l1_bucket p (t.slots i).key) (some i) b
  unfolding link_l1_hash
  link_l1_hash-buckets b = refl

  -- A slot that is in no chain comes to the front of the chain of its key's bucket.
  pub link_l1_hash-IsHashed :
      (chains : ℕ → List ℕ)
      → IsHashed t.slots t.l1_buckets chains
      → ((b : ℕ) → has i (chains b) ≡ false)
      → IsHashed
          (link_l1_hash p t i).slots
          (link_l1_hash p t i).l1_buckets
          (update chains (l1_bucket p (t.slots i).key) (i ∷ chains (l1_bucket p (t.slots i).key)))
  link_l1_hash-IsHashed chains h out =
      let b = l1_bucket p (t.slots i).key in
      let old = λ (c : ℕ).
        Forward-same (λ j. (t.slots j).hash_next) (λ j. ((link_l1_hash p t i).slots j).hash_next)
          (chains c) (λ j m. link_l1_hash-hash_next j ∙ ground (arith, out c)) (h.links c) in
      record {
        start = λ c. link_l1_hash-buckets c ∙ ground (arith, h.start c);
        links = λ c. elim (Bool-cases (b == c)) [
          | inl e ↦ rw e (link_l1_hash-hash_next i ∙ (ground arith ∙ h.start b), old b)
          | inr e ↦ rw e (old c)
        ];
        once = λ c. elim (Bool-cases (b == c)) [
          | inl e ↦ rw e (out b, h.once b)
          | inr e ↦ rw e (h.once c)
        ];
      }

module _ {S K V : Type 0} (t : TypedTieredStore S K V) (i bucket : ℕ) where
  -- The loop comes to the slot, and takes it out behind the one that it finds before it.
  unlink_walk_lem :
      (fuel : ℕ) (prev : Link) (l : List ℕ)
      → Forward (λ j. (t.slots j).hash_next) l
      → has i l ≡ true
      → length l ≤ fuel
      → unlink_walk fuel t i bucket prev (first l)
        ≡ set_hash_next (bypass t bucket (before prev l i) i) i none
  unfolding unlink_walk
  unlink_walk_lem fuel prev [] f m h = ground arith
  unlink_walk_lem zero prev (x ∷ l) f m h = absurd (omega arith)
  unlink_walk_lem (suc n) prev (x ∷ l) f m h = elim (Bool-cases (x == i)) [
    | inl e ↦ rw e (ap (λ k. set_hash_next (bypass t bucket prev k) k none) ((==_iff x i).0 e))
    | inr e ↦ rw e (
        ap (unlink_walk n t i bucket (some x)) f.0
        ∙ unlink_walk_lem n (some x) l f.1 (ground arith) (omega arith))
  ]

module _ {S K V : Type 0} (t : TypedTieredStore S K V) (i bucket : ℕ) (k : Link) where
  -- The state with the slot taken out behind `k`.
  taken : TypedTieredStore S K V
  taken = set_hash_next (bypass t bucket k i) i none

  taken-hash_next :
      (j : ℕ) → (taken.slots j).hash_next ≡ cut_next (λ j. (t.slots j).hash_next) k i j
  unfolding taken bypass
  taken-hash_next j = ground arith

  taken-buckets :
      (b : ℕ)
      → taken.l1_buckets b
        ≡ (if bucket == b then or_else k (t.slots i).hash_next (t.l1_buckets b) else t.l1_buckets b)
  unfolding taken bypass
  taken-buckets b = ground arith

  taken-SameUse : SameUse t.slots taken.slots
  unfolding taken bypass
  taken-SameUse = record {
    key = λ j. ground arith;
    valid = λ j. ground arith;
    expires_at = λ j. ground arith;
    next = λ j. ground arith;
    prev = λ j. ground arith;
  }

  taken-ends : (taken.lru_head ≡ t.lru_head) × (taken.lru_tail ≡ t.lru_tail)
  unfolding taken bypass
  taken-ends = ground arith

before_in : (l : List ℕ) (i z : ℕ) → has i l ≡ true → before none l i ≡ some z → has z l ≡ true
before_in [] i z h e = ground arith
before_in (x ∷ l) i z h e = ground (arith, before-has x l i z)

-- A slot outside the list is none of the two that change.
cut_next_out :
    (next : ℕ → Link) (l : List ℕ) (i j : ℕ)
    → has i l ≡ true
    → has j l ≡ false
    → cut_next next (before none l i) i j ≡ next j
cut_next_out next l i j h out = elim (Option-cases (before none l i)) [
  | inl e ↦ rw e (ground arith)
  | inr (z, e) ↦ rw e (ground (arith, before_in l i z h e))
]

module _ {S K V : Type 0} (p : Params S K V) (t : TypedTieredStore S K V) (i : ℕ) where
  unlink_l1_hash-taken :
      (chains : ℕ → List ℕ)
      → IsHashed t.slots t.l1_buckets chains
      → has i (chains (l1_bucket p (t.slots i).key)) ≡ true
      → length (chains (l1_bucket p (t.slots i).key)) ≤ p.cache_size
      → unlink_l1_hash p t i
        ≡ taken t i
            (l1_bucket p (t.slots i).key)
            (before none (chains (l1_bucket p (t.slots i).key)) i)
  unfolding unlink_l1_hash taken
  unlink_l1_hash-taken chains h m short =
      let b = l1_bucket p (t.slots i).key in
      ap (unlink_walk p.cache_size t i b none) (h.start b)
      ∙ unlink_walk_lem t i b p.cache_size none (chains b) (h.links b) m short

  -- A slot of a chain is taken out of it, and the other chains stay.
  taken-IsHashed :
      (chains : ℕ → List ℕ) (b : ℕ)
      → IsHashed t.slots t.l1_buckets chains
      → has i (chains b) ≡ true
      → ((c j : ℕ) → (b == c) ≡ false → has j (chains c) ≡ true → has j (chains b) ≡ false)
      → IsHashed
          (taken t i b (before none (chains b) i)).slots
          (taken t i b (before none (chains b) i)).l1_buckets
          (update chains b (without i (chains b)))
  taken-IsHashed chains b h m apart =
      let next = λ (j : ℕ). (t.slots j).hash_next in
      let k = before none (chains b) i in
      record {
        start = λ c. taken-buckets t i b k c ∙ elim (Bool-cases (b == c)) [
          | inl e ↦
              let at = (==_iff b c).0 e in
              rw (e, ← at, h.start b) (sym (first-without next (chains b) i (h.links b) m))
          | inr e ↦ rw e (h.start c)
        ];
        links = λ c. elim (Bool-cases (b == c)) [
          | inl e ↦ rw e (
              Forward-same (cut_next next k i) _ (without i (chains b))
                (λ j _. taken-hash_next t i b k j)
                (Forward-cut next none (chains b) i (h.links b) (h.once b) m tt))
          | inr e ↦ rw e (
              Forward-same next _ (chains c)
                (λ j m'.
                  taken-hash_next t i b k j ∙ cut_next_out next (chains b) i j m (apart c j e m'))
                (h.links c))
        ];
        once = λ c. elim (Bool-cases (b == c)) [
          | inl e ↦ rw e (without-NoRepeat i (chains b) (h.once b))
          | inr e ↦ rw e (h.once c)
        ];
      }

  pub unlink_l1_hash-IsHashed :
      (chains : ℕ → List ℕ)
      → IsHashed t.slots t.l1_buckets chains
      → has i (chains (l1_bucket p (t.slots i).key)) ≡ true
      → length (chains (l1_bucket p (t.slots i).key)) ≤ p.cache_size
      → ((c j : ℕ)
          → (l1_bucket p (t.slots i).key == c) ≡ false
          → has j (chains c) ≡ true
          → has j (chains (l1_bucket p (t.slots i).key)) ≡ false)
      → IsHashed (unlink_l1_hash p t i).slots (unlink_l1_hash p t i).l1_buckets (
          update chains
            (l1_bucket p (t.slots i).key)
            (without i (chains (l1_bucket p (t.slots i).key))))
        × SameUse t.slots (unlink_l1_hash p t i).slots
        × ((unlink_l1_hash p t i).lru_head ≡ t.lru_head)
        × ((unlink_l1_hash p t i).lru_tail ≡ t.lru_tail)
  unlink_l1_hash-IsHashed chains h m short apart =
      let b = l1_bucket p (t.slots i).key in
      let k = before none (chains b) i in
      rw (unlink_l1_hash-taken chains h m short) (
        taken-IsHashed chains b h m apart,
        taken-SameUse t i b k,
        (taken-ends t i b k).0,
        (taken-ends t i b k).1,
      )
