-- ===== src/TypedTieredStore/Syncing.antt =====
-- TypedTieredStore.h: what `prune_expired_l1_` and `sync` leave of the slots.
use micro_store.Base.{
  ℕ, zero, suc, ◌+◌, ◌<◌, ◌≡◌, refl, ap, ◌∙◌, Bool, true, false, ◌&&◌, arith, ◌==◌, ==_iff, leb,
  ltb, if◌then◌else◌, Bool-cases, inl, inr,
}
use micro_store.TypedTieredStore.Slots.{Params, Slot, TypedTieredStore, blank, is_expired}
use micro_store.TypedTieredStore.Methods.{
  remove_l1_slot, expire_l1_slot, prune_expired_l1, prune_loop, write_back, flush_l1_slot,
  sync_dirty, sync_loop, sync, count, dirty_count,
}
use micro_store.TypedTieredStore.Payload.{payload, remove_l1_slot-payload}
use micro_store.TypedTieredStore.Allocate.{expire_l1_slot-slots}
use micro_store.TypedTieredStore.Invariant.{IsWellFormed}

module _ {K V : Type 0} where
  -- A slot that `prune_expired_l1_` takes away.
  abbrev pub is_gone : ℕ → Slot K V → Bool
  is_gone now s = s.valid && is_expired now s

  -- A slot that `sync` writes.
  abbrev pub is_dirty : Slot K V → Bool
  is_dirty s = s.valid && s.dirty

module _ {S K V : Type 0} (p : Params S K V) where
  pub expire_l1_slot-payload :
      (t : TypedTieredStore S K V) (i j : ℕ)
      → (t.slots i).valid ≡ true
      → payload ((expire_l1_slot p t i).slots j)
        ≡ (if i == j then payload (blank p) else payload (t.slots j))
  expire_l1_slot-payload t i j v =
      rw (expire_l1_slot-slots p t i v) (remove_l1_slot-payload p t i v j)

  -- A slot, blanked when it is gone and in the range.
  abbrev kept : ℕ → Bool → Slot K V → Slot K V
  kept now range s = if range && is_gone now s then payload (blank p) else payload s

  prune_round-payload :
      (now : ℕ) (t : TypedTieredStore S K V) (i j : ℕ)
      → payload ((if is_gone now (t.slots i) then expire_l1_slot p t i else t).slots j)
        ≡ (if (i == j) && is_gone now (t.slots j) then payload (blank p) else payload (t.slots j))
  prune_round-payload now t i j = elim (Bool-cases (is_gone now (t.slots i))) [
    | inl e ↦ rw e (expire_l1_slot-payload t i j (ground arith) ∙ ground arith)
    | inr e ↦ rw e (ground arith)
  ]

  prune_loop-payload :
      (n now : ℕ) (t : TypedTieredStore S K V) (i j : ℕ)
      → payload ((prune_loop p n now t i).slots j) ≡ (
          if (leb i j && ltb j (i + n)) && is_gone now (t.slots j)
          then payload (blank p)
          else payload (t.slots j))
  unfolding prune_loop is_expired
  prune_loop-payload zero now t i j = ground arith
  prune_loop-payload (suc n) now t i j =
      let u = if is_gone now (t.slots i) then expire_l1_slot p t i else t in
      let later : Bool = leb (i + 1) j && ltb j (i + 1 + n) in
      let range : Bool = leb i j && ltb j (i + suc n) in
      let step = prune_round-payload now t i j in
      prune_loop-payload n now u (i + 1) j ∙ elim (Bool-cases (i == j)) [
        | inl at ↦
            let no : later ≡ false = ground arith in
            let yes : true ≡ range = ground arith in
            ap (λ b. kept now b (u.slots j)) no
            ∙ (rw at at step ∙ ap (λ b. kept now b (t.slots j)) yes)
        | inr other ↦
            let same : later ≡ range = ground arith in
            ap (kept now later) (rw other at step) ∙ ap (λ b. kept now b (t.slots j)) same
      ]

  -- In well formed slots `prune_expired_l1_` blanks each slot that is valid and expired, and
  -- leaves the others as they are but for their links.
  pub prune_expired_l1-payload :
      (now : ℕ) (t : TypedTieredStore S K V) (j : ℕ)
      → IsWellFormed p t
      → payload ((prune_expired_l1 p now t).slots j)
        ≡ (if is_gone now (t.slots j) then payload (blank p) else payload (t.slots j))
  unfolding prune_expired_l1
  prune_expired_l1-payload now t j (lru, (chains, r)) =
      prune_loop-payload p.cache_size now t 0 j ∙ ground (arith, r.keyed.within j)

  flush_l1_slot-clean :
      (now : ℕ) (t : TypedTieredStore S K V) (i : ℕ)
      → (flush_l1_slot p now t i).1 ≡ true
      → is_dirty ((flush_l1_slot p now t i).0.slots i) ≡ false
  unfolding flush_l1_slot write_back
  flush_l1_slot-clean now t i ok = ground arith

  flush_l1_slot-stays :
      (now : ℕ) (t : TypedTieredStore S K V) (i j : ℕ)
      → is_dirty (t.slots j) ≡ false
      → is_dirty ((flush_l1_slot p now t i).0.slots j) ≡ false
  unfolding flush_l1_slot write_back
  flush_l1_slot-stays now t i j e = ground arith

  removed-clean :
      (t : TypedTieredStore S K V) (i : ℕ)
      → (t.slots i).valid ≡ true
      → is_dirty ((remove_l1_slot p t i).slots i) ≡ false
  unfolding blank
  removed-clean t i v = ap is_dirty (remove_l1_slot-payload p t i v i) ∙ ground arith

  removed-stays :
      (t : TypedTieredStore S K V) (i j : ℕ)
      → (t.slots i).valid ≡ true
      → is_dirty (t.slots j) ≡ false
      → is_dirty ((remove_l1_slot p t i).slots j) ≡ false
  unfolding blank
  removed-stays t i j v e = ap is_dirty (remove_l1_slot-payload p t i v j) ∙ ground arith

  sync_round : (now : ℕ) (t : TypedTieredStore S K V) (i : ℕ) → TypedTieredStore S K V × Bool
  sync_round now t i =
      if (t.slots i).valid && (t.slots i).dirty then sync_dirty p now t i else (t, true)

  sync_dirty-clean :
      (now : ℕ) (t : TypedTieredStore S K V) (i : ℕ)
      → (t.slots i).valid ≡ true
      → (sync_dirty p now t i).1 ≡ true
      → is_dirty ((sync_dirty p now t i).0.slots i) ≡ false
  unfolding sync_dirty
  sync_dirty-clean now t i v ok =
      let there = p.store.exists t.l2 (p.keys.encode (t.slots i).key) in
      let t' : TypedTieredStore S K V = record t { l2 = there.0 } in
      ground (arith, flush_l1_slot-clean now t i, flush_l1_slot-clean now t' i, removed-clean t' i)

  sync_dirty-stays :
      (now : ℕ) (t : TypedTieredStore S K V) (i j : ℕ)
      → (t.slots i).valid ≡ true
      → is_dirty (t.slots j) ≡ false
      → is_dirty ((sync_dirty p now t i).0.slots j) ≡ false
  unfolding sync_dirty
  sync_dirty-stays now t i j v e =
      let there = p.store.exists t.l2 (p.keys.encode (t.slots i).key) in
      let t' : TypedTieredStore S K V = record t { l2 = there.0 } in
      ground
        (arith, flush_l1_slot-stays now t i j, flush_l1_slot-stays now t' i j, removed-stays t' i j)

  sync_round-clean :
      (now : ℕ) (t : TypedTieredStore S K V) (i : ℕ)
      → (sync_round now t i).1 ≡ true
      → is_dirty ((sync_round now t i).0.slots i) ≡ false
  unfolding sync_round
  sync_round-clean now t i ok = ground (arith, sync_dirty-clean now t i)

  sync_round-stays :
      (now : ℕ) (t : TypedTieredStore S K V) (i j : ℕ)
      → is_dirty (t.slots j) ≡ false
      → is_dirty ((sync_round now t i).0.slots j) ≡ false
  unfolding sync_round
  sync_round-stays now t i j e = ground (arith, sync_dirty-stays now t i j)

  sync_loop-stays :
      (n now : ℕ) (t : TypedTieredStore S K V) (ok : Bool) (j : ℕ)
      → is_dirty (t.slots j) ≡ false
      → is_dirty ((sync_loop p n now t ok).0.slots j) ≡ false
  unfolding sync_loop sync_round
  sync_loop-stays zero now t ok j e = e
  sync_loop-stays (suc i) now t ok j e = sync_loop-stays i now _ _ j (sync_round-stays now t i j e)

  sync_loop-ok :
      (n now : ℕ) (t : TypedTieredStore S K V) (ok : Bool)
      → (sync_loop p n now t ok).1 ≡ true
      → ok ≡ true
  unfolding sync_loop
  sync_loop-ok zero now t ok e = e
  sync_loop-ok (suc i) now t ok e = let h = sync_loop-ok i now _ _ e in ground arith

  sync_loop-clean :
      (n now : ℕ) (t : TypedTieredStore S K V) (ok : Bool) (j : ℕ)
      → (sync_loop p n now t ok).1 ≡ true
      → j < n
      → is_dirty ((sync_loop p n now t ok).0.slots j) ≡ false
  unfolding sync_loop sync_round
  sync_loop-clean zero now t ok j e h = absurd (omega arith)
  sync_loop-clean (suc i) now t ok j e h = elim (Bool-cases (i == j)) [
    | inl at ↦
        let ok' = sync_loop-ok i now _ _ e in
        let clean = sync_round-clean now t i (ground arith) in
        rw (← (==_iff i j).0 at) (sync_loop-stays i now _ _ i clean)
    | inr other ↦ sync_loop-clean i now _ _ j e (ground arith)
  ]

  count_none :
      (test : Slot K V → Bool) (n : ℕ) (t : TypedTieredStore S K V)
      → ((j : ℕ) → j < n → test (t.slots j) ≡ false)
      → count p test n t ≡ 0
  unfolding count
  count_none test zero t h = refl
  count_none test (suc n) t h =
      rw (h n (omega arith), count_none test n t (λ j le. h j (omega arith)))

  -- A `sync` that returns true leaves no slot dirty.
  pub dirty_count-sync :
      (now : ℕ) (t : TypedTieredStore S K V)
      → (sync p now t).1 ≡ true
      → dirty_count p (sync p now t).0 ≡ 0
  unfolding sync dirty_count
  dirty_count-sync now t ok = elim (Bool-cases (p.store.is_valid t.l2)) [
    | inl e ↦ rw e (
        count_none is_dirty p.cache_size _
          (λ j. sync_loop-clean p.cache_size now (prune_expired_l1 p now t) true j (rw e at ok)))
    | inr e ↦ ground arith
  ]
