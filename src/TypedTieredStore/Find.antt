-- ===== src/TypedTieredStore/Find.antt =====
-- TypedTieredStore.h: `find_l1_` against the chains.
use micro_store.Base.{
  ℕ, zero, suc, ◌≤◌, ◌≡◌, ◌≢◌, ◌↔◌, refl, ap, sym, ◌∙◌, Bool, true, false, ◌&&◌, none, some, List,
  [], ◌∷◌, arith, length, ◌==◌, ==_iff, if◌then◌else◌, Bool-cases, Option-cases, inl, inr,
}
use micro_store.TypedTieredStore.Slots.{
  Params, Link, Slot, TypedTieredStore, l1_bucket, walk, reached, find_l1,
}
use micro_store.TypedTieredStore.Chain.{has, first, Forward, length_of_below}
use micro_store.TypedTieredStore.Shape.{IsRep, belongs}

module _ {K V : Type 0} (key_eq : K → K → Bool) (slots : ℕ → Slot K V) (key : K) where
  -- The first of a list that is valid and has the key.
  pub search_in : List ℕ → Link
  search_in [] = none
  search_in (i ∷ l) =
      let rest = search_in l in if (slots i).valid && key_eq (slots i).key key then some i else rest

  walk-search_in :
      (fuel : ℕ) (l : List ℕ)
      → Forward (λ i. (slots i).hash_next) l
      → length l ≤ fuel
      → walk key_eq fuel slots key (first l) ≡ some (search_in l)
  unfolding walk search_in
  walk-search_in fuel [] f h = ground arith
  walk-search_in zero (x ∷ l) f h = absurd (omega arith)
  walk-search_in (suc n) (x ∷ l) f h =
      elim (Bool-cases ((slots x).valid && key_eq (slots x).key key)) [
        | inl e ↦ rw e
        | inr e ↦ rw e (ap (walk key_eq n slots key) f.0 ∙ walk-search_in n l f.1 (omega arith))
      ]

  search_in-some :
      (l : List ℕ) (i : ℕ)
      → search_in l ≡ some i
      → (has i l ≡ true) × (((slots i).valid && key_eq (slots i).key key) ≡ true)
  unfolding search_in
  search_in-some [] i h = ground arith
  search_in-some (x ∷ l) i h = ground (arith, search_in-some l i)

  search_in-none :
      (l : List ℕ) (i : ℕ)
      → search_in l ≡ none
      → has i l ≡ true
      → ((slots i).valid && key_eq (slots i).key key) ≡ false
  unfolding search_in
  search_in-none [] i h m = ground arith
  search_in-none (x ∷ l) i h m = ground (arith, search_in-none l i)

module _ {S K V : Type 0} (p : Params S K V) where
  pub chain_short :
      {t : TypedTieredStore S K V} {lru : List ℕ} (chains : ℕ → List ℕ) (b : ℕ)
      → IsRep p t lru chains
      → length (chains b) ≤ p.cache_size
  chain_short {t} chains b r = length_of_below p.cache_size (chains b) (r.by_hash.once b) (λ i m.
      let valid : (belongs p t.slots b i) ≡ true = sym (r.in_chain b i) ∙ m in
      r.keyed.within i (ground arith))

  -- The walk of `find_l1_` ends within as many rounds as the cache has slots: with any number
  -- of rounds from there on, it finds the first slot of the chain that has the key.
  pub find_l1-search_in :
      {t : TypedTieredStore S K V} {lru : List ℕ} (chains : ℕ → List ℕ) (key : K) (fuel : ℕ)
      → IsRep p t lru chains
      → p.cache_size ≤ fuel
      → walk p.key_eq fuel t.slots key (t.l1_buckets (l1_bucket p key))
        ≡ some (search_in p.key_eq t.slots key (chains (l1_bucket p key)))
  find_l1-search_in {t} chains key fuel r h =
      let b = l1_bucket p key in
      ap (walk p.key_eq fuel t.slots key) (r.by_hash.start b)
      ∙ walk-search_in p.key_eq t.slots key fuel (chains b) (r.by_hash.links b)
          (omega (arith, chain_short chains b r))

  pub find_l1_is :
      {t : TypedTieredStore S K V} {lru : List ℕ} (chains : ℕ → List ℕ) (key : K)
      → IsRep p t lru chains
      → find_l1 p t key ≡ search_in p.key_eq t.slots key (chains (l1_bucket p key))
  unfolding find_l1
  find_l1_is chains key r = ap reached (find_l1-search_in chains key p.cache_size r (omega arith))

  module _ (law : (a b : K) → (p.key_eq a b ≡ true) ↔ (a ≡ b)) where
    pub find_l1-some :
        {t : TypedTieredStore S K V} {lru : List ℕ} (chains : ℕ → List ℕ) (key : K) (i : ℕ)
        → IsRep p t lru chains
        → find_l1 p t key ≡ some i
        → ((t.slots i).valid ≡ true) × ((t.slots i).key ≡ key)
    unfolding find_l1
    find_l1-some {t} chains key i r h =
        let found = sym (find_l1_is chains key r) ∙ h in
        let (m, e) = search_in-some p.key_eq t.slots key (chains (l1_bucket p key)) i found in
        (ground arith, (law (t.slots i).key key).0 (ground arith))

    pub find_l1-none :
        {t : TypedTieredStore S K V} {lru : List ℕ} (chains : ℕ → List ℕ) (key : K) (i : ℕ)
        → IsRep p t lru chains
        → find_l1 p t key ≡ none
        → (t.slots i).valid ≡ true
        → (t.slots i).key ≢ key
    unfolding find_l1
    find_l1-none {t} chains key i r h valid e =
        let missing = sym (find_l1_is chains key r) ∙ h in
        let b = l1_bucket p key in
        let at : (l1_bucket p (t.slots i).key == b) ≡ true = (==_iff _ b).1 (ap (l1_bucket p) e) in
        let m : has i (chains b) ≡ true = r.in_chain b i ∙ rw (valid, at) in
        let eq = (law (t.slots i).key key).1 e in
        let none_has = search_in-none p.key_eq t.slots key (chains b) i missing m in ground arith

    -- A valid slot is found under its key, and no other.
    pub find_l1_valid :
        {t : TypedTieredStore S K V} {lru : List ℕ} (chains : ℕ → List ℕ) (i : ℕ)
        → IsRep p t lru chains
        → (t.slots i).valid ≡ true
        → find_l1 p t (t.slots i).key ≡ some i
    find_l1_valid {t} chains i r valid = elim (Option-cases (find_l1 p t (t.slots i).key)) [
      | inl e ↦ absurd (find_l1-none chains (t.slots i).key i r e valid refl)
      | inr (j, e) ↦
          let (v, k) = find_l1-some chains (t.slots i).key j r e in
          e ∙ ap some (r.keyed.distinct j i v valid k)
    ]
