-- ===== src/TypedTieredStore/Evicting.antt =====
-- TypedTieredStore.h: which slot gives way, and a slot that is filled from the store below.
use micro_store.Base.{
  ℕ, ◌≡◌, ◌↔◌, refl, ap, sym, ◌∙◌, Bool, true, false, not, ◌&&◌, none, some, List, arith, ◌==◌,
  if◌then◌else◌, Bool-cases, inl, inr,
}
use micro_store.TypedTieredStore.Slots.{
  Params, Link, Slot, TypedTieredStore, blank, is_expired, remaining_ttl, find_l1, free_l1_slot,
}
use micro_store.TypedTieredStore.Methods.{
  write_back, flush_l1_slot, expire_l1_slot, remove_l2, evict, evict_tail, allocate_from,
  allocate_l1_slot, fill, load_allocated, load_decoded, load_found, get_l2, get_found, get,
}
use micro_store.TypedTieredStore.Chain.{end_of}
use micro_store.TypedTieredStore.Keep.{Rep}
use micro_store.TypedTieredStore.Payload.{
  payload, remove_l1_slot-payload, remove_l1_slot-l2, fill-payload, fill-l2,
}
use micro_store.TypedTieredStore.Allocate.{free_from_lem, flush_l1_slot-SameSlots, tail_valid}
use micro_store.TypedTieredStore.Syncing.{expire_l1_slot-payload}
use micro_store.TypedTieredStore.Invariant.{IsWellFormed}
use micro_store.TypedTieredStore.Keeping.{get-IsWellFormed}
use micro_store.TypedTieredStore.Reading.{Holds-of, get_Holds}

module _ {S K V : Type 0} (p : Params S K V) where
  -- The answer of `store.put` to the record of a slot.
  unfoldable pub accepted : ℕ → TypedTieredStore S K V → ℕ → Bool
  accepted now t i =
      let s = t.slots i in
      (p.store.put t.l2 (p.keys.encode s.key) (p.values.encode s.value) (remaining_ttl now s) now
        s.priority).1

  -- The store below after `store.put` of a slot's record.
  unfoldable pub written : ℕ → TypedTieredStore S K V → ℕ → S
  written now t i =
      let s = t.slots i in
      (p.store.put t.l2 (p.keys.encode s.key) (p.values.encode s.value) (remaining_ttl now s) now
        s.priority).0

  -- The store below after a slot gave way: an expired record is removed from it, a dirty one is
  -- written, and nothing else is done.
  unfoldable pub below : ℕ → TypedTieredStore S K V → ℕ → S
  below now t i =
      let s = t.slots i in
      if is_expired now s
      then (if s.in_l2 then (p.store.remove t.l2 (p.keys.encode s.key)).0 else t.l2)
      else if s.dirty
      then written now t i
      else t.l2

  flush_l1_slot-payload :
      (now : ℕ) (t : TypedTieredStore S K V) (i j : ℕ)
      → (i == j) ≡ false
      → payload ((flush_l1_slot p now t i).0.slots j) ≡ payload (t.slots j)
  unfolding flush_l1_slot write_back
  flush_l1_slot-payload now t i j e = ground arith

  flush_l1_slot-failed :
      (now : ℕ) (t : TypedTieredStore S K V) (i j : ℕ)
      → (flush_l1_slot p now t i).1 ≡ false
      → payload ((flush_l1_slot p now t i).0.slots j) ≡ payload (t.slots j)
  unfolding flush_l1_slot write_back
  flush_l1_slot-failed now t i j e = ground arith

  flush_l1_slot-accepted :
      (now : ℕ) (t : TypedTieredStore S K V) (i : ℕ)
      → (flush_l1_slot p now t i).1 ≡ true
      → (t.slots i).valid ≡ true
      → ((t.slots i).dirty && not (accepted now t i)) ≡ false
  unfolding flush_l1_slot write_back accepted
  flush_l1_slot-accepted now t i e v = ground arith

  flush_l1_slot-written :
      (now : ℕ) (t : TypedTieredStore S K V) (i : ℕ)
      → (t.slots i).valid ≡ true
      → (flush_l1_slot p now t i).0.l2 ≡ (if (t.slots i).dirty then written now t i else t.l2)
  unfolding flush_l1_slot write_back written
  flush_l1_slot-written now t i v = ground arith

  flush_l1_slot-refused :
      (now : ℕ) (t : TypedTieredStore S K V) (i : ℕ)
      → (flush_l1_slot p now t i).1 ≡ false
      → (accepted now t i ≡ false) × ((flush_l1_slot p now t i).0.l2 ≡ written now t i)
  unfolding flush_l1_slot write_back accepted written
  flush_l1_slot-refused now t i e = ground arith

  -- The store below where no slot gave way: the slot at the end of the list of use was refused.
  abbrev pub Refused : ℕ → TypedTieredStore S K V → S → Link → Type 0
  Refused now t l2 none = l2 ≡ t.l2
  Refused now t l2 (some i) = (accepted now t i ≡ false) × (l2 ≡ written now t i)

  -- What becomes of the slots and of the store below when a slot is wanted and all are in use.
  -- Either the slot at the end of the list of use gives way: it is blanked, the others keep all but
  -- their links, it was not dirty, or is expired, or the store below has taken its record, and the
  -- store below is as that leaves it. Or no slot does, and each keeps all but its links: there is
  -- none, or the store below has refused the record of the slot at the end.
  unfoldable pub GivesWay :
      ℕ → TypedTieredStore S K V → TypedTieredStore S K V → List ℕ → Link → Type 0
  GivesWay now t u lru (some i) =
      (end_of none lru ≡ some i)
      × ((j : ℕ)
          → payload (u.slots j) ≡ (if i == j then payload (blank p) else payload (t.slots j)))
      × (((t.slots i).dirty && not (is_expired now (t.slots i)) && not (accepted now t i)) ≡ false)
      × (u.l2 ≡ below now t i)
  GivesWay now t u lru none =
      ((j : ℕ) → payload (u.slots j) ≡ payload (t.slots j)) × Refused now t u.l2 (end_of none lru)

  expire_l1_slot-l2 :
      (t : TypedTieredStore S K V) (i : ℕ)
      → (expire_l1_slot p t i).l2 ≡ (
          if (t.slots i).in_l2
          then (p.store.remove t.l2 (p.keys.encode (t.slots i).key)).0
          else t.l2)
  unfolding expire_l1_slot remove_l2
  expire_l1_slot-l2 t i = ground (arith, remove_l1_slot-l2 p t i)

  below_expired :
      (now : ℕ) (t : TypedTieredStore S K V) (i : ℕ)
      → is_expired now (t.slots i) ≡ true
      → below now t i ≡ (
          if (t.slots i).in_l2
          then (p.store.remove t.l2 (p.keys.encode (t.slots i).key)).0
          else t.l2)
  unfolding below
  below_expired now t i e = rw e refl

  below_live :
      (now : ℕ) (t : TypedTieredStore S K V) (i : ℕ)
      → is_expired now (t.slots i) ≡ false
      → below now t i ≡ (if (t.slots i).dirty then written now t i else t.l2)
  unfolding below
  below_live now t i e = rw e refl

  evict-GivesWay :
      (now : ℕ) (t : TypedTieredStore S K V) (lru : List ℕ) (i : ℕ)
      → (t.slots i).valid ≡ true
      → end_of none lru ≡ some i
      → GivesWay now t (evict p now t i).0 lru (evict p now t i).1
  unfolding evict GivesWay
  evict-GivesWay now t lru i valid last =
      let f = (flush_l1_slot p now t i).0 in
      let valid' : (f.slots i).valid ≡ true =
        (flush_l1_slot-SameSlots p now t i).keys.valid i ∙ valid in
      elim (Bool-cases (is_expired now (t.slots i))) [
        | inl e ↦ rw e (
          last,
          λ j. expire_l1_slot-payload p t i j valid,
          ground arith,
          expire_l1_slot-l2 t i ∙ sym (below_expired now t i e),
        )
        | inr e ↦ rw e (elim (Bool-cases (flush_l1_slot p now t i).1) [
          | inl ok ↦ rw ok (
            last,
            λ j. remove_l1_slot-payload p f i valid' j ∙ elim (Bool-cases (i == j)) [
              | inl same ↦ rw same
              | inr other ↦ rw other (flush_l1_slot-payload now t i j other)
            ],
            ground (arith, flush_l1_slot-accepted now t i ok valid),
            remove_l1_slot-l2 p f i
                ∙ (flush_l1_slot-written now t i valid ∙ sym (below_live now t i e)),
          )
          | inr failed ↦
              rw (failed, last)
                (λ j. flush_l1_slot-failed now t i j failed, flush_l1_slot-refused now t i failed)
        ])
      ]

  evict_tail-GivesWay :
      (now : ℕ) (t : TypedTieredStore S K V) (lru : List ℕ) (l : Link)
      → Rep p t lru
      → t.lru_tail ≡ l
      → GivesWay now t (evict_tail p now t l).0 lru (evict_tail p now t l).1
  unfolding evict_tail GivesWay
  evict_tail-GivesWay now t lru none (chains, s) e =
      let last : end_of none lru ≡ none = sym s.by_use.tail_is ∙ e in rw last (λ j. refl, refl)
  evict_tail-GivesWay now t lru (some i) (chains, s) e =
      evict-GivesWay now t lru i (tail_valid p now t lru (chains, s) i e) (sym s.by_use.tail_is ∙ e)

  -- In well formed slots that are all in use, `allocate_l1_slot_` gives the slot at the end of
  -- the list of use or none. A slot that it gives is blanked, the others keep all but their
  -- links, and the store below has had its record removed, if that is expired and was there, and
  -- has accepted and kept it, if it is dirty and not expired; otherwise it is as before. When
  -- `allocate_l1_slot_` gives none, each slot keeps all but its links, and the store below has
  -- refused the record of the slot at the end, or the list of use is empty.
  pub allocate_l1_slot-GivesWay :
      (now : ℕ) (t : TypedTieredStore S K V) (lru : List ℕ)
      → Rep p t lru
      → free_l1_slot p t ≡ none
      → GivesWay now t (allocate_l1_slot p now t).0 lru (allocate_l1_slot p now t).1
  unfolding allocate_l1_slot allocate_from
  allocate_l1_slot-GivesWay now t lru r full =
      rw full (evict_tail-GivesWay now t lru t.lru_tail r refl)

  free_l1_slot-expiry :
      (t : TypedTieredStore S K V) (i : ℕ) (lru : List ℕ)
      → Rep p t lru
      → free_l1_slot p t ≡ some i
      → (t.slots i).expires_at ≡ 0
  unfolding free_l1_slot
  free_l1_slot-expiry t i lru (chains, r) e =
      r.keyed.unset i (free_from_lem p.cache_size t.slots 0 i e).0

  -- A free slot that is filled from the store below.
  loaded : TypedTieredStore S K V → K → V → ℕ → TypedTieredStore S K V
  loaded t key value i =
      fill p t i
        (record (t.slots i) { key = key; value = value; dirty = false; valid = true; in_l2 = true })

  get_is :
      (now : ℕ) (t : TypedTieredStore S K V) (key : K) (value : V) (i : ℕ) (raw : List ℕ)
      → find_l1 p t key ≡ none
      → free_l1_slot p t ≡ some i
      → (p.store.get t.l2 (p.keys.encode key)).1 ≡ some raw
      → p.values.decode raw ≡ some value
      → p.store.is_valid t.l2 ≡ true
      → (get p now t key).0
        ≡ loaded (record t { l2 = (p.store.get t.l2 (p.keys.encode key)).0 }) key value i
  unfolding get get_found get_l2 load_found load_decoded load_allocated allocate_l1_slot
      allocate_from free_l1_slot loaded
  get_is now t key value i raw missing free found decoded valid =
      rw (valid, missing, found, decoded, free)

  unset_fresh : (later : ℕ) (s : Slot K V) → s.expires_at ≡ 0 → is_expired later s ≡ false
  unfolding is_expired
  unset_fresh later s e = ground arith

  get-loaded :
      (law : (a b : K) → (p.key_eq a b ≡ true) ↔ (a ≡ b)) (later : ℕ) (t : TypedTieredStore S K V)
      (key : K) (value : V) (i : ℕ)
      → IsWellFormed p (loaded t key value i)
      → (t.slots i).expires_at ≡ 0
      → p.store.is_valid t.l2 ≡ true
      → (get p later (loaded t key value i) key).1 ≡ some value
  unfolding loaded
  get-loaded law later t key value i w unset valid =
      let s : Slot K V = record (t.slots i) {
        key = key;
        value = value;
        dirty = false;
        valid = true;
        in_l2 = true;
      } in
      let u = fill p t i s in
      let h = Holds-of p u i s (fill-payload p t i s i ∙ ground arith) refl in
      get_Holds p law later u key value (t.slots i).expires_at w (rw (fill-l2 p t i s) valid) h
        (unset_fresh later (u.slots h.slot) (h.its_expiry ∙ unset))

  -- When the test of keys is equality, the slots are well formed with one free and none of the
  -- key, the store below is valid before and after a read, and it has a value under the key
  -- that can be decoded, `get` gives that value at any time after another `get`: the slot has
  -- no expiry, whatever time to live the store has for the record.
  pub get-get :
      (law : (a b : K) → (p.key_eq a b ≡ true) ↔ (a ≡ b)) (now later : ℕ)
      (t : TypedTieredStore S K V) (key : K) (value : V) (i : ℕ) (raw : List ℕ)
      → IsWellFormed p t
      → find_l1 p t key ≡ none
      → free_l1_slot p t ≡ some i
      → (p.store.get t.l2 (p.keys.encode key)).1 ≡ some raw
      → p.values.decode raw ≡ some value
      → p.store.is_valid t.l2 ≡ true
      → p.store.is_valid (p.store.get t.l2 (p.keys.encode key)).0 ≡ true
      → (get p later (get p now t key).0 key).1 ≡ some value
  get-get law now later t key value i raw (lru, r) missing free found decoded valid valid' =
      let e = get_is now t key value i raw missing free found decoded valid in
      ap (λ (u : TypedTieredStore S K V). (get p later u key).1) e
      ∙ get-loaded law later (record t { l2 = (p.store.get t.l2 (p.keys.encode key)).0 }) key value
          i (rw e at (get-IsWellFormed p law now t key (lru, r)))
          (free_l1_slot-expiry t i lru r free) valid'
