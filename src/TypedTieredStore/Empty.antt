-- ===== src/TypedTieredStore/Empty.antt =====
-- TypedTieredStore.h: a slot that is emptied leaves the list of use and its chain.
use micro_store.Base.{
  ℕ, ◌≡◌, ap, sym, ◌∙◌, true, false, List, arith, ◌==◌, ==_iff, if◌then◌else◌, Bool-cases, inl, inr,
}
use micro_store.TypedTieredStore.Slots.{Params, Slot, TypedTieredStore, update, l1_bucket, blank}
use micro_store.TypedTieredStore.Links.{unlink_lru, unlink_l1_hash}
use micro_store.TypedTieredStore.Methods.{remove_l1_slot}
use micro_store.TypedTieredStore.Chain.{has, without, has-without}
use micro_store.TypedTieredStore.Shape.{IsLru, IsHashed, IsHashed-same, IsKeyed, IsRep, belongs}
use micro_store.TypedTieredStore.Use.{unlink_lru-IsLru, unlink_lru-SameKeys, unlink_lru-buckets}
use micro_store.TypedTieredStore.Find.{chain_short}
use micro_store.TypedTieredStore.Hash.{IsLru-same, unlink_l1_hash-IsHashed}
use micro_store.TypedTieredStore.Keep.{Rep, update-IsLru, update-IsHashed}

-- The slots after a slot is unlinked: keys and validity are what they were.
pub record Unlinked {K V : Type 0} (f g : ℕ → Slot K V) : Type 0 where
  pub key : (j : ℕ) → (g j).key ≡ (f j).key
  pub valid : (j : ℕ) → (g j).valid ≡ (f j).valid
  pub expires_at : (j : ℕ) → (f j).valid ≡ false → (g j).expires_at ≡ (f j).expires_at

module _ {S K V : Type 0} (p : Params S K V) where
  unlinked :
      (t : TypedTieredStore S K V) (lru : List ℕ) (chains : ℕ → List ℕ) (i : ℕ)
      → IsRep p t lru chains
      → (t.slots i).valid ≡ true
      → let u = unlink_lru (unlink_l1_hash p t i) i in
        let b = l1_bucket p (t.slots i).key in
        IsLru u.slots u.lru_head u.lru_tail (without i lru)
        × IsHashed u.slots u.l1_buckets (update chains b (without i (chains b)))
        × Unlinked t.slots u.slots
  unlinked t lru chains i r valid =
      let b = l1_bucket p (t.slots i).key in
      let m : has i (chains b) ≡ true = r.in_chain b i ∙ rw valid (ground arith) in
      let (hashed, same, head, tail) =
        unlink_l1_hash-IsHashed p t i chains r.by_hash m (chain_short p chains b r)
          (λ c j ne mj. ground (arith, r.in_chain c j, r.in_chain b j)) in
      let t' = unlink_l1_hash p t i in
      let lru' : IsLru t'.slots t'.lru_head t'.lru_tail lru =
        rw (head, tail) (IsLru-same t.slots t'.slots same r.by_use) in
      let keys = unlink_lru-SameKeys t' i in
      (
        unlink_lru-IsLru t' i lru lru' (r.in_use i ∙ valid),
        rw (unlink_lru-buckets t' i)
            (IsHashed-same t'.slots (unlink_lru t' i).slots t'.l1_buckets _ keys hashed),
        record {
          key = λ j. keys.key j ∙ same.key j;
          valid = λ j. keys.valid j ∙ same.valid j;
          expires_at = λ j v. keys.expires_at j (same.valid j ∙ v) ∙ same.expires_at j;
        },
      )

  module _ (f g : ℕ → Slot K V) (i : ℕ) (same : Unlinked f g) where
    emptied-IsKeyed : IsKeyed p f → IsKeyed p (update g i (blank p))
    unfolding blank
    emptied-IsKeyed h = record {
      within = λ j v. ground (arith, h.within j, same.valid j);
      distinct = λ j k v w e. elim (Bool-cases (i == j)) [
        | inl at ↦ ground arith
        | inr other ↦ elim (Bool-cases (i == k)) [
          | inl at ↦ ground arith
          | inr other' ↦
              h.distinct j k (ground (arith, same.valid j)) (ground (arith, same.valid k))
                (sym (same.key j) ∙ (rw (other, other') at e ∙ same.key k))
        ]
      ];
      unset = λ j v. ground (arith, h.unset j, same.valid j, same.expires_at j);
    }

    emptied-valid :
        (j : ℕ) → (update g i (blank p) j).valid ≡ (if i == j then false else (f j).valid)
    unfolding blank
    emptied-valid j = ground (arith, same.valid j)

    emptied-belongs :
        (b j : ℕ)
        → belongs p (update g i (blank p)) b j ≡ (if i == j then false else belongs p f b j)
    unfolding blank
    emptied-belongs b j = elim (Bool-cases (i == j)) [
      | inl e ↦ rw e
      | inr e ↦ rw (e, same.valid j, same.key j)
    ]

  has-taken :
      (t : TypedTieredStore S K V) (lru : List ℕ) (chains : ℕ → List ℕ) (i : ℕ)
      → IsRep p t lru chains
      → (c j : ℕ)
      → has j (
          update chains
            (l1_bucket p (t.slots i).key)
            (without i (chains (l1_bucket p (t.slots i).key)))
            c)
        ≡ (if i == j then false else has j (chains c))
  has-taken t lru chains i r c j =
      let b = l1_bucket p (t.slots i).key in
      elim (Bool-cases (b == c)) [
        | inl e ↦ rw e (
            has-without i j (chains b) (r.by_hash.once b)
            ∙ ap (λ k. if i == j then false else has j (chains k)) ((==_iff b c).0 e))
        | inr e ↦ rw e (ground (arith, r.in_chain c j))
      ]

  -- `remove_l1_slot_` of a valid slot takes it out of the list of use, and the others keep their
  -- order.
  pub remove_l1_slot-Rep :
      (t : TypedTieredStore S K V) (lru : List ℕ) (i : ℕ)
      → Rep p t lru
      → (t.slots i).valid ≡ true
      → Rep p (remove_l1_slot p t i) (without i lru)
  unfolding remove_l1_slot blank
  remove_l1_slot-Rep t lru i (chains, r) valid =
      let (by_use, by_hash, same) = unlinked t lru chains i r valid in
      let b = l1_bucket p (t.slots i).key in
      let u = unlink_lru (unlink_l1_hash p t i) i in
      rw valid (
        update chains b (without i (chains b)),
        record {
          by_use =
              update-IsLru u.slots i (blank p) (without i lru) by_use
                (has-without i i lru r.by_use.once ∙ ground arith);
          by_hash =
              update-IsHashed u.slots i (blank p) (update chains b (without i (chains b))) by_hash
                (λ c. has-taken t lru chains i r c i ∙ ground arith);
          keyed = emptied-IsKeyed t.slots u.slots i same r.keyed;
          in_use = λ j.
              has-without i j lru r.by_use.once
              ∙ (ap (λ b. if i == j then false else b) (r.in_use j)
                  ∙ sym (emptied-valid t.slots u.slots i same j));
          in_chain = λ c j.
              has-taken t lru chains i r c j
              ∙ (ap (λ b. if i == j then false else b) (r.in_chain c j)
                  ∙ sym (emptied-belongs t.slots u.slots i same c j));
        },
      )
