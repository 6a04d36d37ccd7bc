-- ===== src/TypedTieredStore/Use.antt =====
-- TypedTieredStore.h: `link_lru_front_`, `unlink_lru_` and `touch_l1_` against the list of use.
use micro_store.Base.{
  ℕ, ◌≡◌, refl, ap, sym, ◌∙◌, true, false, none, some, List, [], ◌∷◌, arith, Bool-cases, inl, inr,
}
use micro_store.TypedTieredStore.Slots.{Slot, TypedTieredStore}
use micro_store.TypedTieredStore.Links.{link_eq, link_lru_front, unlink_lru, touch_l1}
use micro_store.TypedTieredStore.Chain.{
  has, without, first, end_of, before, Forward-same, Backward-same, Backward-before,
  without-NoRepeat, has-without,
}
use micro_store.TypedTieredStore.Cut.{
  cut_next, cut_prev, or_else, lead_next, lead_prev, Forward-cut, Backward-cut, first-without,
  end_of-without, Forward-lead, Backward-lead,
}
use micro_store.TypedTieredStore.Shape.{IsLru, SameKeys}

end_of-some : (x : ℕ) (l : List ℕ) → (z : ℕ) × (end_of (some x) l ≡ some z)
end_of-some x [] = (x, refl)
end_of-some x (y ∷ l) = end_of-some y l

end_of_lead :
    (i : ℕ) (l : List ℕ) → or_else (end_of none l) (some i) (end_of none l) ≡ end_of (some i) l
end_of_lead i [] = refl
end_of_lead i (x ∷ l) =
    let (z, e) = end_of-some x l in ap (λ k. or_else k (some i) (end_of (some x) l)) e

module _ {S K V : Type 0} (t : TypedTieredStore S K V) (i : ℕ) where
  link_lru_front-next :
      (j : ℕ)
      → ((link_lru_front t i).slots j).next ≡ lead_next (λ k. (t.slots k).next) t.lru_head i j
  unfolding link_lru_front
  link_lru_front-next j = ground arith

  link_lru_front-prev :
      (j : ℕ)
      → ((link_lru_front t i).slots j).prev ≡ lead_prev (λ k. (t.slots k).prev) t.lru_head i j
  unfolding link_lru_front
  link_lru_front-prev j = ground arith

  pub link_lru_front-SameKeys : SameKeys t.slots (link_lru_front t i).slots
  unfolding link_lru_front
  link_lru_front-SameKeys = record {
    key = λ j. ground arith;
    valid = λ j. ground arith;
    hash_next = λ j. ground arith;
    expires_at = λ j h. ground arith;
  }

  unlink_lru-next :
      (j : ℕ)
      → ((unlink_lru t i).slots j).next ≡ cut_next (λ k. (t.slots k).next) (t.slots i).prev i j
  unfolding unlink_lru
  unlink_lru-next j = ground arith

  unlink_lru-prev :
      (j : ℕ)
      → ((unlink_lru t i).slots j).prev
        ≡ cut_prev (λ k. (t.slots k).prev) (λ k. (t.slots k).next) i j
  unfolding unlink_lru
  unlink_lru-prev j = ground arith

  pub unlink_lru-SameKeys : SameKeys t.slots (unlink_lru t i).slots
  unfolding unlink_lru
  unlink_lru-SameKeys = record {
    key = λ j. ground arith;
    valid = λ j. ground arith;
    hash_next = λ j. ground arith;
    expires_at = λ j h. ground arith;
  }

  pub link_lru_front-buckets : (link_lru_front t i).l1_buckets ≡ t.l1_buckets
  unfolding link_lru_front
  link_lru_front-buckets = ground arith

  pub unlink_lru-buckets : (unlink_lru t i).l1_buckets ≡ t.l1_buckets
  unfolding unlink_lru
  unlink_lru-buckets = ground arith

  link_lru_front-head : (link_lru_front t i).lru_head ≡ some i
  unfolding link_lru_front
  link_lru_front-head = ground arith

  link_lru_front-tail : (link_lru_front t i).lru_tail ≡ or_else t.lru_tail (some i) t.lru_tail
  unfolding link_lru_front
  link_lru_front-tail = ground arith

  unlink_lru-head : (unlink_lru t i).lru_head ≡ or_else (t.slots i).prev (t.slots i).next t.lru_head
  unfolding unlink_lru
  unlink_lru-head = ground arith

  unlink_lru-tail : (unlink_lru t i).lru_tail ≡ or_else (t.slots i).next (t.slots i).prev t.lru_tail
  unfolding unlink_lru
  unlink_lru-tail = ground arith

  -- A slot that is not in the list of use comes to its front.
  pub link_lru_front-IsLru :
      (lru : List ℕ)
      → IsLru t.slots t.lru_head t.lru_tail lru
      → has i lru ≡ false
      → IsLru
          (link_lru_front t i).slots
          (link_lru_front t i).lru_head
          (link_lru_front t i).lru_tail
          (i ∷ lru)
  link_lru_front-IsLru lru h out =
      let at = h.head_is in
      record {
        next =
            Forward-same (lead_next (λ k. (t.slots k).next) (first lru) i) _ (i ∷ lru)
              (λ j m. link_lru_front-next j ∙ ap (λ l. lead_next (λ k. (t.slots k).next) l i j) at)
              (Forward-lead (λ k. (t.slots k).next) lru i h.next out);
        prev =
            Backward-same (lead_prev (λ k. (t.slots k).prev) (first lru) i) _ none (i ∷ lru)
              (λ j m. link_lru_front-prev j ∙ ap (λ l. lead_prev (λ k. (t.slots k).prev) l i j) at)
              (Backward-lead (λ k. (t.slots k).prev) lru i h.prev h.once out);
        head_is = link_lru_front-head;
        tail_is =
            link_lru_front-tail ∙ (ap (λ l. or_else l (some i) l) h.tail_is ∙ end_of_lead i lru);
        once = (out, h.once);
      }

  -- A slot of the list of use is taken out of it.
  pub unlink_lru-IsLru :
      (lru : List ℕ)
      → IsLru t.slots t.lru_head t.lru_tail lru
      → has i lru ≡ true
      → IsLru
          (unlink_lru t i).slots
          (unlink_lru t i).lru_head
          (unlink_lru t i).lru_tail
          (without i lru)
  unlink_lru-IsLru lru h m =
      let next = λ (k : ℕ). (t.slots k).next in
      let prev = λ (k : ℕ). (t.slots k).prev in
      let at : prev i ≡ before none lru i = Backward-before prev none lru i h.prev m in
      record {
        next =
            Forward-same (cut_next next (before none lru i) i) _ (without i lru)
              (λ j _. unlink_lru-next j ∙ ap (λ l. cut_next next l i j) at)
              (Forward-cut next none lru i h.next h.once m tt);
        prev =
            Backward-same (cut_prev prev next i) _ none (without i lru) (λ j _. unlink_lru-prev j)
              (Backward-cut next prev none lru i h.next h.prev h.once m);
        head_is =
            unlink_lru-head
            ∙ (ap (λ l. or_else l (next i) t.lru_head) at
                ∙ (ap (or_else (before none lru i) (next i)) h.head_is
                    ∙ sym (first-without next lru i h.next m)));
        tail_is =
            unlink_lru-tail
            ∙ (ap (or_else (next i) (prev i)) h.tail_is
                ∙ sym (end_of-without next prev none lru i h.next h.prev m));
        once = without-NoRepeat i lru h.once;
      }

SameKeys-trans : {K V : Type 0} (f g h : ℕ → Slot K V) → SameKeys f g → SameKeys g h → SameKeys f h
SameKeys-trans f g h a b = record {
  key = λ i. b.key i ∙ a.key i;
  valid = λ i. b.valid i ∙ a.valid i;
  hash_next = λ i. b.hash_next i ∙ a.hash_next i;
  expires_at = λ i v. b.expires_at i (a.valid i ∙ v) ∙ a.expires_at i v;
}

module _ {S K V : Type 0} (t : TypedTieredStore S K V) (i : ℕ) where
  pub touch_l1-SameKeys : SameKeys t.slots (touch_l1 t i).slots
  unfolding touch_l1
  touch_l1-SameKeys = elim (Bool-cases (link_eq (some i) t.lru_head)) [
    | inl e ↦ rw e (record {
      key = λ j. refl;
      valid = λ j. refl;
      hash_next = λ j. refl;
      expires_at = λ j v. refl;
    })
    | inr e ↦ rw e (
        SameKeys-trans t.slots (unlink_lru t i).slots _ (unlink_lru-SameKeys t i)
          (link_lru_front-SameKeys (unlink_lru t i) i))
  ]

  pub touch_l1-buckets : (touch_l1 t i).l1_buckets ≡ t.l1_buckets
  unfolding touch_l1
  touch_l1-buckets = elim (Bool-cases (link_eq (some i) t.lru_head)) [
    | inl e ↦ rw e
    | inr e ↦ rw e (link_lru_front-buckets (unlink_lru t i) i ∙ unlink_lru-buckets t i)
  ]

  head_first :
      (lru : List ℕ)
      → has i lru ≡ true
      → link_eq (some i) (first lru) ≡ true
      → i ∷ without i lru ≡ lru
  head_first [] m e = ground arith
  head_first (x ∷ l) m e = ground arith

  -- A slot of the list of use comes to its front, and the others keep their order.
  pub touch_l1-IsLru :
      (lru : List ℕ)
      → IsLru t.slots t.lru_head t.lru_tail lru
      → has i lru ≡ true
      → IsLru
          (touch_l1 t i).slots
          (touch_l1 t i).lru_head
          (touch_l1 t i).lru_tail
          (i ∷ without i lru)
  unfolding touch_l1
  touch_l1-IsLru lru h m = elim (Bool-cases (link_eq (some i) t.lru_head)) [
    | inl e ↦ let at = sym (ap (link_eq (some i)) h.head_is) ∙ e in rw (e, head_first lru m at) h
    | inr e ↦ rw e (
        link_lru_front-IsLru (unlink_lru t i) i (without i lru) (unlink_lru-IsLru t i lru h m)
          (has-without i i lru h.once ∙ ground arith))
  ]
