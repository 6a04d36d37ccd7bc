-- ===== src/Tests/Heap.antt =====
-- include/microStore/HeapStore.h and TypedStore.h on small stores.
use micro_store.Base.{
  ℕ, ◌+◌, ◌-◌, ◌≤◌, ◌≡◌, refl, true, false, none, some, List, [], ◌∷◌, arith, length, take, drop,
  replicate, inr, if◌then◌else◌, bytes_eq,
}
use mathlib.Core.Option
use micro_store.Assoc.{Key, lookup}
use micro_store.HeapStore.{
  HeapEntry, HeapStore, assign_sorted, bytes_lt, create, effective_ttl, exists, fetch, get,
  get_vector, is_expired, purge, put, put_vector, remove,
}
use micro_store.HeapStore.Order.{IsSorted}
use micro_store.HeapStore.Bounds.{put_bounded, put_evicts}
use micro_store.HeapStore.View.{
  view, unexpired, get-view, view-put, view-remove, get_vector-put_vector,
}
use micro_store.HeapStore.Expiry.{put_ahead_lost, put_vector_long_key}
use micro_store.TypedStore
use micro_store.TypedStore.{string_codec, vector_codec}
use micro_store.TypedStore.Heap.{heap_store, typed_get-put_heap}

abbrev old_entry : HeapEntry
old_entry = record { value = 7 ∷ []; timestamp = 100; ttl = 10 }

abbrev new_entry : HeapEntry
new_entry = record { value = 8 ∷ 9 ∷ []; timestamp = 150; ttl = 0 }

-- Two records, the first of which is out of date at 200.
abbrev two_entries : HeapStore
two_entries = record {
  entries = (1 ∷ [], old_entry) ∷ (2 ∷ [], new_entry) ∷ [];
  policy_ttl_secs = 0;
  policy_max_recs = 0;
}

-- A store with one record, which is all that it may hold.
abbrev full_store : HeapStore
full_store = record { entries = (2 ∷ [], new_entry) ∷ []; policy_ttl_secs = 0; policy_max_recs = 1 }

two_entries-IsSorted : IsSorted two_entries.entries
unfolding bytes_lt
two_entries-IsSorted = ((refl, tt), (tt, tt))

full_store-IsSorted : IsSorted full_store.entries
full_store-IsSorted = (tt, tt)

new_to_full : lookup (3 ∷ []) (purge 200 full_store full_store.entries) ≡ none
unfolding purge is_expired effective_ttl lookup bytes_eq
new_to_full = refl

put_is_fresh :
    (v : List ℕ) → is_expired 200 create (record { value = v; timestamp = 200; ttl = 5 }) ≡ false
unfolding is_expired effective_ttl
put_is_fresh v = refl

view-put_example : view 200 (put 200 two_entries (1 ∷ []) (5 ∷ []) 0 200).0 (1 ∷ []) ≡ (
    if bytes_eq (1 ∷ []) (1 ∷ [])
    then unexpired 200 two_entries (some (record { value = 5 ∷ []; timestamp = 200; ttl = 0 }))
    else view 200 two_entries (1 ∷ []))
view-put_example =
    view-put 200 two_entries (1 ∷ []) (5 ∷ []) 0 200 (1 ∷ []) two_entries-IsSorted refl
      (omega arith) (omega arith)

get-view_example :
    ((get 200 two_entries (1 ∷ []) true 16).1
      ≡ Option.map (λ e. fetch true 16 e.value) (view 200 two_entries (1 ∷ [])))
    × (view 200 (get 200 two_entries (1 ∷ []) true 16).0 (2 ∷ []) ≡ view 200 two_entries (2 ∷ []))
get-view_example = get-view 200 two_entries (1 ∷ []) true 16 (2 ∷ []) (omega arith)

view-remove_example :
    view 200 (remove two_entries (2 ∷ [])).0 (2 ∷ [])
    ≡ (if bytes_eq (2 ∷ []) (2 ∷ []) then none else view 200 two_entries (2 ∷ []))
view-remove_example = view-remove 200 two_entries (2 ∷ []) (2 ∷ []) (omega arith)

get_vector-put_vector_example :
    (get_vector 200 (put_vector 200 create (1 ∷ 2 ∷ []) (3 ∷ []) 5 200).0 (1 ∷ 2 ∷ [])).1
    ≡ some (3 ∷ [])
get_vector-put_vector_example =
    get_vector-put_vector 200 create (1 ∷ 2 ∷ []) (3 ∷ []) 5 200 (omega arith) (omega arith)
      (put_is_fresh (3 ∷ []))

put_bounded_example : length (put 200 full_store (3 ∷ []) (4 ∷ []) 0 200).0.entries ≤ 1
put_bounded_example =
    put_bounded 200 full_store (3 ∷ []) (4 ∷ []) 0 200 full_store-IsSorted (omega arith)
      (omega arith) (omega arith) (inr new_to_full)

put_evicts_example :
    (put 200 full_store (3 ∷ []) (4 ∷ []) 0 200).0.entries
    ≡ assign_sorted
        (3 ∷ [])
        (record { value = 4 ∷ []; timestamp = 200; ttl = 0 })
        (drop
          (length (purge 200 full_store full_store.entries) + 1 - 1)
          (purge 200 full_store full_store.entries))
put_evicts_example =
    put_evicts 200 full_store (3 ∷ []) (4 ∷ []) 0 200 (omega arith) (omega arith) (omega arith)
      new_to_full

put_ahead_lost_example :
    ((put 200 two_entries (3 ∷ []) (4 ∷ []) 60 201).1 ≡ true)
    × ((get 200 (put 200 two_entries (3 ∷ []) (4 ∷ []) 60 201).0 (3 ∷ []) true 16).1 ≡ none)
put_ahead_lost_example =
    put_ahead_lost 200 two_entries (3 ∷ []) (4 ∷ []) 60 201 true 16 (omega arith) (omega arith)
      (omega arith) (omega arith) (omega arith) (omega arith)

abbrev long_key : Key
long_key = replicate 257 1

put_vector_long_key_example :
    ((put_vector 200 create long_key (4 ∷ []) 0 200).1 ≡ true)
    × (exists
          (put_vector 200 create long_key (4 ∷ []) 0 200).0
          (take (length long_key - 256) long_key)
        ≡ true)
put_vector_long_key_example =
    put_vector_long_key 200 create long_key (4 ∷ []) 0 200 (omega arith) (omega arith) (omega arith)

typed_get-put_heap_example :
    (TypedStore.get
      (heap_store 200)
      string_codec
      vector_codec
      (TypedStore.put
        (heap_store 200)
        string_codec
        vector_codec
        200
        create
        (97 ∷ 98 ∷ [])
        (3 ∷ [])
        5
        0).0
      (97 ∷ 98 ∷ [])).1
    ≡ some (3 ∷ [])
typed_get-put_heap_example =
    typed_get-put_heap string_codec vector_codec 200 create (97 ∷ 98 ∷ []) (3 ∷ []) 5 0
      (omega arith) (omega arith) refl (put_is_fresh (3 ∷ []))
