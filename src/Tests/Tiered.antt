-- ===== src/Tests/Tiered.antt =====
-- include/microStore/TypedTieredStore.h with two slots over a memory store.
use micro_store.Base.{
  ℕ, ◌≡◌, refl, sym, ◌∙◌, true, false, none, some, List, [], ◌∷◌, arith, length, inr, bytes_eq,
  bytes_eq_iff, if◌then◌else◌,
}
use micro_store.Base.{sub32}
use micro_store.Assoc.{erase, lookup}
use micro_store.HeapStore
use micro_store.TypedStore.{string_codec}
use micro_store.TypedStore.Heap.{heap_store}
use micro_store.TypedTieredStore.Slots.{
  Params, TypedTieredStore, blank, expires_at, find_l1, free_from, free_l1_slot, is_expired,
  l1_bucket, remaining_ttl, walk,
}
use micro_store.TypedTieredStore.Links.{
  bypass, unlink_l1_hash, unlink_lru, unlink_walk, link_l1_hash, link_lru_front, touch_l1,
}
use micro_store.TypedTieredStore.Methods.{
  get_found, get_l1, get_l2, load_found, overwrite, remove_l1_slot, allocate_from, allocate_l1_slot,
  create, dirty_count, fill, flush_l1_slot, get, prune_expired_l1, prune_loop, put, put_allocated,
  put_found, sync, sync_dirty, sync_loop, write_back,
}
use micro_store.TypedTieredStore.Keep.{Rep}
use micro_store.TypedTieredStore.Chain.{without}
use micro_store.TypedTieredStore.Payload.{payload}
use micro_store.TypedTieredStore.Invariant.{IsWellFormed}
use micro_store.TypedTieredStore.Reached.{Reached, start, by_put, Reached-IsWellFormed}
use micro_store.TypedTieredStore.Reading.{find_l1-fuel, tiered_get-put, get-Rep}
use micro_store.TypedTieredStore.Syncing.{prune_expired_l1-payload, dirty_count-sync, is_gone}
use micro_store.TypedTieredStore.Evicting.{GivesWay, accepted, allocate_l1_slot-GivesWay, get-get}
use micro_store.TypedTieredStore.Progress.{put-accepted}

-- Two slots and three buckets, with the length of a key as its hash.
abbrev small : Params HeapStore.HeapStore (List ℕ) (List ℕ)
small = record {
  store = heap_store 200;
  keys = string_codec;
  values = string_codec;
  hash = λ k. length k;
  key_eq = bytes_eq;
  cache_size = 2;
  hash_buckets = 3;
  blank_key = [];
  blank_value = [];
}

abbrev Small : Type 0
Small = TypedTieredStore HeapStore.HeapStore (List ℕ) (List ℕ)

abbrev no_slot : Small
no_slot = create small HeapStore.create

abbrev one_slot : Small
one_slot = (put small 200 no_slot (1 ∷ []) (7 ∷ []) 10 1).0

abbrev two_slots : Small
two_slots = (put small 200 one_slot (2 ∷ []) (8 ∷ []) 0 0).0

one_slot-Reached : Reached small one_slot
one_slot-Reached = by_put 200 no_slot (1 ∷ []) (7 ∷ []) 10 1 (start HeapStore.create)

two_slots-Reached : Reached small two_slots
two_slots-Reached = by_put 200 one_slot (2 ∷ []) (8 ∷ []) 0 0 one_slot-Reached

Reached-IsWellFormed_example : IsWellFormed small two_slots
Reached-IsWellFormed_example = Reached-IsWellFormed small bytes_eq_iff two_slots two_slots-Reached

two_slots-IsWellFormed : IsWellFormed small two_slots
two_slots-IsWellFormed = Reached-IsWellFormed small bytes_eq_iff two_slots two_slots-Reached

find_l1-fuel_example :
    walk bytes_eq 5 two_slots.slots (1 ∷ []) (two_slots.l1_buckets (l1_bucket small (1 ∷ [])))
    ≡ some (find_l1 small two_slots (1 ∷ []))
find_l1-fuel_example = find_l1-fuel small two_slots (1 ∷ []) 5 two_slots-IsWellFormed (omega arith)

-- What the runs give of the two slots.
two_slots_run :
    ((put small 200 one_slot (2 ∷ []) (8 ∷ []) 0 0).1 ≡ true)
    × (free_l1_slot small two_slots ≡ none)
    × ((two_slots.slots 0).valid ≡ true)
    × (is_expired 205 (two_slots.slots 0) ≡ false)
    × ((sync small 200 two_slots).1 ≡ true)
unfolding put heap_store find_l1 walk prune_expired_l1 prune_loop create blank allocate_l1_slot
    free_l1_slot free_from fill link_lru_front link_l1_hash is_expired expires_at l1_bucket erase
    lookup bytes_eq sub32 HeapStore.assign_sorted HeapStore.bytes_lt HeapStore.effective_ttl
    HeapStore.evict HeapStore.exists HeapStore.fetch HeapStore.get HeapStore.get_vector
    HeapStore.is_expired HeapStore.make_room HeapStore.purge HeapStore.put HeapStore.put_vector
    HeapStore.resized touch_l1 allocate_from flush_l1_slot put_allocated put_found write_back
    remaining_ttl sync sync_loop sync_dirty accepted
two_slots_run = (refl, refl, refl, refl, refl)

two_slots_tail :
    ((prune_expired_l1 small 200 two_slots).lru_tail ≡ some 0)
    × (accepted small 200 (prune_expired_l1 small 200 two_slots) 0 ≡ true)
unfolding put heap_store find_l1 walk prune_expired_l1 prune_loop create blank allocate_l1_slot
    free_l1_slot free_from fill link_lru_front link_l1_hash is_expired expires_at l1_bucket erase
    lookup bytes_eq sub32 HeapStore.assign_sorted HeapStore.bytes_lt HeapStore.effective_ttl
    HeapStore.evict HeapStore.exists HeapStore.fetch HeapStore.get HeapStore.get_vector
    HeapStore.is_expired HeapStore.make_room HeapStore.purge HeapStore.put HeapStore.put_vector
    HeapStore.resized touch_l1 allocate_from flush_l1_slot put_allocated put_found write_back
    remaining_ttl sync sync_loop sync_dirty accepted
two_slots_tail = (refl, refl)

always_valid : (s : HeapStore.HeapStore) → (heap_store 200).is_valid s ≡ true
unfolding heap_store
always_valid s = refl

one_slot_run : (put small 200 no_slot (1 ∷ []) (7 ∷ []) 10 1).1 ≡ true
unfolding put heap_store find_l1 walk prune_expired_l1 prune_loop create blank allocate_l1_slot
    free_l1_slot free_from fill link_lru_front link_l1_hash is_expired expires_at l1_bucket erase
    lookup bytes_eq sub32 HeapStore.assign_sorted HeapStore.bytes_lt HeapStore.effective_ttl
    HeapStore.evict HeapStore.exists HeapStore.fetch HeapStore.get HeapStore.get_vector
    HeapStore.is_expired HeapStore.make_room HeapStore.purge HeapStore.put HeapStore.put_vector
    HeapStore.resized touch_l1 allocate_from flush_l1_slot put_allocated put_found write_back
    remaining_ttl sync sync_loop sync_dirty accepted
one_slot_run = refl

tiered_get-put_example :
    (get small 209 (put small 200 no_slot (1 ∷ []) (7 ∷ []) 10 1).0 (1 ∷ [])).1 ≡ some (7 ∷ [])
tiered_get-put_example =
    tiered_get-put small bytes_eq_iff 200 209 no_slot (1 ∷ []) (7 ∷ []) 10 1
      (Reached-IsWellFormed small bytes_eq_iff no_slot (start HeapStore.create)) one_slot_run
      (always_valid one_slot.l2) (inr (omega arith, omega arith))

get-Rep_example :
    ((get small 205 two_slots (two_slots.slots 0).key).1 ≡ some (two_slots.slots 0).value)
    × Rep small
        (get small 205 two_slots (two_slots.slots 0).key).0
        (0 ∷ without 0 two_slots-IsWellFormed.0)
get-Rep_example =
    get-Rep small bytes_eq_iff 205 two_slots two_slots-IsWellFormed.0 0 two_slots-IsWellFormed.1
      (always_valid two_slots.l2) two_slots_run.2 two_slots_run.3

allocate_l1_slot-GivesWay_example :
    GivesWay small 200 two_slots
      (allocate_l1_slot small 200 two_slots).0
      two_slots-IsWellFormed.0
      (allocate_l1_slot small 200 two_slots).1
allocate_l1_slot-GivesWay_example =
    allocate_l1_slot-GivesWay small 200 two_slots two_slots-IsWellFormed.0 two_slots-IsWellFormed.1
      two_slots_run.1

prune_expired_l1-payload_example : payload ((prune_expired_l1 small 300 two_slots).slots 0) ≡ (
    if is_gone 300 (two_slots.slots 0) then payload (blank small) else payload (two_slots.slots 0))
prune_expired_l1-payload_example =
    prune_expired_l1-payload small 300 two_slots 0 two_slots-IsWellFormed

dirty_count-sync_example : dirty_count small (sync small 200 two_slots).0 ≡ 0
dirty_count-sync_example = dirty_count-sync small 200 two_slots two_slots_run.4

put-accepted_example : (put small 200 two_slots (3 ∷ []) (9 ∷ []) 0 0).1 ≡ true
put-accepted_example =
    put-accepted small 200 two_slots (3 ∷ []) (9 ∷ []) 0 0 two_slots-IsWellFormed (omega arith)
      (always_valid two_slots.l2)
      (λ i e.
        let at = sym two_slots_tail.0 ∙ e in
        let same : 0 ≡ i = ground arith in rw (← same) two_slots_tail.1)

-- A store with a record that lives for 10 seconds from 195 on, below a cache without slots in use.
abbrev cold_store : HeapStore.HeapStore
cold_store = ((heap_store 200).put HeapStore.create (2 ∷ []) (8 ∷ []) 10 195 0).0

abbrev cold : Small
cold = create small cold_store

cold_run :
    (find_l1 small cold (2 ∷ []) ≡ none)
    × (free_l1_slot small cold ≡ some 0)
    × (((heap_store 200).get cold.l2 (2 ∷ [])).1 ≡ some (8 ∷ []))
unfolding put heap_store find_l1 walk prune_expired_l1 prune_loop create blank allocate_l1_slot
    free_l1_slot free_from fill link_lru_front link_l1_hash is_expired expires_at l1_bucket erase
    lookup bytes_eq sub32 HeapStore.assign_sorted HeapStore.bytes_lt HeapStore.effective_ttl
    HeapStore.evict HeapStore.exists HeapStore.fetch HeapStore.get HeapStore.get_vector
    HeapStore.is_expired HeapStore.make_room HeapStore.purge HeapStore.put HeapStore.put_vector
    HeapStore.resized touch_l1 allocate_from flush_l1_slot put_allocated put_found write_back
    remaining_ttl sync sync_loop sync_dirty accepted
cold_run = (refl, refl, refl)

-- The record's time ends at 205, and it is still there at 1000.
get-get_example : (get small 1000 (get small 200 cold (2 ∷ [])).0 (2 ∷ [])).1 ≡ some (8 ∷ [])
get-get_example =
    get-get small bytes_eq_iff 200 1000 cold (2 ∷ []) (8 ∷ []) 0 (8 ∷ [])
      (Reached-IsWellFormed small bytes_eq_iff cold (start cold_store)) cold_run.0 cold_run.1
      cold_run.2 refl (always_valid cold.l2)
      (always_valid ((heap_store 200).get cold.l2 (2 ∷ [])).0)

-- A slot whose record the store below has lost, written again after that.
abbrev rewritten : Small
rewritten =
    let synced = (sync small 200 one_slot).0 in
    let lost : Small = record synced { l2 = HeapStore.create } in
    (put small 200 lost (1 ∷ []) (9 ∷ []) 0 0).0

-- `put` returns true, `sync` returns true, and the value is gone.
rewritten_lost :
    ((get small 200 rewritten (1 ∷ [])).1 ≡ some (9 ∷ []))
    × ((sync small 200 rewritten).1 ≡ true)
    × ((get small 200 (sync small 200 rewritten).0 (1 ∷ [])).1 ≡ none)
unfolding put heap_store find_l1 walk prune_expired_l1 prune_loop create blank allocate_l1_slot
    free_l1_slot free_from fill link_lru_front link_l1_hash is_expired expires_at l1_bucket erase
    lookup bytes_eq sub32 HeapStore.assign_sorted HeapStore.bytes_lt HeapStore.effective_ttl
    HeapStore.evict HeapStore.exists HeapStore.fetch HeapStore.get HeapStore.get_vector
    HeapStore.is_expired HeapStore.make_room HeapStore.purge HeapStore.put HeapStore.put_vector
    HeapStore.resized touch_l1 allocate_from flush_l1_slot put_allocated put_found write_back
    remaining_ttl sync sync_loop sync_dirty accepted get get_found get_l1 get_l2 load_found
    remove_l1_slot unlink_lru unlink_l1_hash unlink_walk bypass overwrite
rewritten_lost = (refl, refl, refl)
