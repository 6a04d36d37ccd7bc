-- ===== src/TypedTieredStore/Fill.antt =====
-- TypedTieredStore.h: a slot that is filled comes to the front of the list of use.
use micro_store.Base.{
  ℕ, ◌<◌, ◌≡◌, ◌≢◌, ap, sym, ◌∙◌, true, false, ◌||◌, List, ◌∷◌, arith, ◌==◌, ==_iff, if◌then◌else◌,
  Bool-cases, inl, inr,
}
use micro_store.TypedTieredStore.Slots.{Params, Slot, TypedTieredStore, update, set_slot, l1_bucket}
use micro_store.TypedTieredStore.Links.{link_lru_front, link_l1_hash}
use micro_store.TypedTieredStore.Methods.{fill}
use micro_store.TypedTieredStore.Chain.{has}
use micro_store.TypedTieredStore.Shape.{IsLru, IsHashed-same, IsKeyed, belongs}
use micro_store.TypedTieredStore.Use.{
  link_lru_front-IsLru, link_lru_front-SameKeys, link_lru_front-buckets,
}
use micro_store.TypedTieredStore.Empty.{Unlinked}
use micro_store.TypedTieredStore.Hash.{
  IsLru-same, link_l1_hash-IsHashed, link_l1_hash-SameUse, link_l1_hash-ends,
}
use micro_store.TypedTieredStore.Keep.{Rep, update-IsLru, update-IsHashed}

module _ {S K V : Type 0} (p : Params S K V) where
  module _ (t : TypedTieredStore S K V) (i : ℕ) (s : Slot K V) where
    filled-slot : (set_slot t i s).slots i ≡ s
    filled-slot = ground arith

    -- The keys of the slots after `fill`.
    filled-keys : Unlinked (set_slot t i s).slots (fill p t i s).slots
    unfolding fill
    filled-keys =
        let t1 = set_slot t i s in
        let t2 = link_l1_hash p t1 i in
        let hash = link_l1_hash-SameUse p t1 i in
        let by_use = link_lru_front-SameKeys t2 i in
        record {
          key = λ j. by_use.key j ∙ hash.key j;
          valid = λ j. by_use.valid j ∙ hash.valid j;
          expires_at = λ j v. by_use.expires_at j (hash.valid j ∙ v) ∙ hash.expires_at j;
        }

    filled-IsKeyed :
        IsKeyed p t.slots
        → i < p.cache_size
        → s.valid ≡ true
        → ((j : ℕ) → (t.slots j).valid ≡ true → (t.slots j).key ≢ s.key)
        → (g : ℕ → Slot K V) → Unlinked (set_slot t i s).slots g
        → IsKeyed p g
    filled-IsKeyed h small valid fresh g same = record {
      within = λ j v. ground (arith, h.within j, same.valid j);
      distinct = λ j k v w e.
          let e' = sym (same.key j) ∙ (e ∙ same.key k) in
          let v' = sym (same.valid j) ∙ v in
          let w' = sym (same.valid k) ∙ w in
          elim (Bool-cases (i == j)) [
            | inl at ↦ elim (Bool-cases (i == k)) [
              | inl at' ↦ ground arith
              | inr other' ↦ absurd (fresh k (rw other' at w') (sym (rw (at, other') at e')))
            ]
            | inr other ↦ elim (Bool-cases (i == k)) [
              | inl at' ↦ absurd (fresh j (rw other at v') (rw (other, at') at e'))
              | inr other' ↦
                  h.distinct j k (rw other at v') (rw other' at w') (rw (other, other') at e')
            ]
          ];
      unset = λ j v.
          let v' = sym (same.valid j) ∙ v in
          elim (Bool-cases (i == j)) [
            | inl at ↦ ground arith
            | inr other ↦ same.expires_at j v' ∙ rw other (h.unset j (rw other at v'))
          ];
    }

    filled-valid :
        s.valid ≡ true → (j : ℕ) → ((fill p t i s).slots j).valid ≡ (i == j || (t.slots j).valid)
    filled-valid valid j = filled-keys.valid j ∙ ground arith

    has-filled :
        (chains : ℕ → List ℕ) (b c j : ℕ)
        → has j (update chains b (i ∷ chains b) c)
          ≡ (if i == j then (if b == c then true else has j (chains c)) else has j (chains c))
    has-filled chains b c j = elim (Bool-cases (b == c)) [
      | inl e ↦ rw e (ap (λ k. i == j || has j (chains k)) ((==_iff b c).0 e) ∙ ground arith)
      | inr e ↦ rw e (ground arith)
    ]

    filled-belongs :
        s.valid ≡ true
        → (t.slots i).valid ≡ false
        → (c j : ℕ)
        → belongs p (fill p t i s).slots c j ≡ (
            if i == j
            then (if l1_bucket p ((set_slot t i s).slots i).key == c
                then true
                else belongs p t.slots c j)
            else belongs p t.slots c j)
    filled-belongs valid empty c j =
        rw (filled-keys.valid j, filled-keys.key j)
          (elim (Bool-cases (i == j)) [
            | inl at ↦
                let e : i ≡ j = (==_iff i j).0 at in
                let gone : (t.slots j).valid ≡ false =
                  ap (λ k. (t.slots k).valid) (sym e) ∙ empty in
                rw (at, filled-slot, valid, gone) (ground arith)
            | inr other ↦ rw other
          ])

    -- `fill` of a slot that is not valid, with a key that no slot has, puts it at the front of the
    -- list of use.
    pub fill-Rep :
        (lru : List ℕ)
        → Rep p t lru
        → (t.slots i).valid ≡ false
        → i < p.cache_size
        → s.valid ≡ true
        → ((j : ℕ) → (t.slots j).valid ≡ true → (t.slots j).key ≢ s.key)
        → Rep p (fill p t i s) (i ∷ lru)
    unfolding fill
    fill-Rep lru (chains, r) empty small valid fresh =
        let t1 = set_slot t i s in
        let t2 = link_l1_hash p t1 i in
        let b = l1_bucket p (t1.slots i).key in
        let out = λ (c : ℕ). r.in_chain c i ∙ rw empty in
        let out_use : has i lru ≡ false = r.in_use i ∙ empty in
        let hashed =
          link_l1_hash-IsHashed p t1 i chains (update-IsHashed t.slots i s chains r.by_hash out)
            out in
        let use2 : IsLru t2.slots t2.lru_head t2.lru_tail lru =
          rw ((link_l1_hash-ends p t1 i).0, (link_l1_hash-ends p t1 i).1)
            (IsLru-same t1.slots t2.slots (link_l1_hash-SameUse p t1 i)
              (update-IsLru t.slots i s lru r.by_use out_use)) in
        (
          update chains b (i ∷ chains b),
          record {
            by_use = link_lru_front-IsLru t2 i lru use2 out_use;
            by_hash = rw (link_lru_front-buckets t2 i) (
                IsHashed-same t2.slots (link_lru_front t2 i).slots t2.l1_buckets _
                  (link_lru_front-SameKeys t2 i) hashed);
            keyed = filled-IsKeyed r.keyed small valid fresh _ filled-keys;
            in_use = λ j. ap (λ b. i == j || b) (r.in_use j) ∙ sym (filled-valid valid j);
            in_chain = λ c j.
                has-filled chains b c j
                ∙ (ap (λ h. if i == j then (if b == c then true else h) else h) (r.in_chain c j)
                    ∙ sym (filled-belongs valid empty c j));
          },
        )
