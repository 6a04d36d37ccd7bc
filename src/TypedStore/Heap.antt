-- ===== src/TypedStore/Heap.antt =====
-- TypedStore.h over HeapStore.h.
use micro_store.Base.{ℕ, ◌≡◌, ◌≤◌, refl, true, false, some, map, ◌%◌, ◌^◌, length, take}
use micro_store.HeapStore
use micro_store.HeapStore.Iteration.{iterate}
use micro_store.HeapStore.View.{get_vector-put_vector}
use micro_store.TypedStore.{Store, Codec}
use micro_store.TypedStore.Laws.{typed_get-put}
use micro_store.TypedStore

-- A memory store as the store below a typed one, at the clock's reading. It is always valid.
unfoldable pub heap_store : ℕ → Store HeapStore.HeapStore
heap_store now = record {
  is_valid = λ s. true;
  put = λ s key value ttl ts priority. HeapStore.put_vector now s key value ttl ts;
  get = λ s key. HeapStore.get_vector now s key;
  remove = λ s key. HeapStore.remove s (take (length key % 2 ^ 8) key);
  exists = λ s key. (s, HeapStore.exists s (take (length key % 2 ^ 8) key));
  size = λ s. HeapStore.size s;
  clear = λ s. HeapStore.clear s;
  entries = λ s. (s, map (λ e. (e.key, e.value)) (iterate s));
}

module _ {K V : Type 0} (keys : Codec K) (values : Codec V) where
  -- Over a memory store, `get` gives the typed value that `put` took under the key, when the key
  -- encodes to at most 64 bytes, the value to at most 1024 which decode to it again, and the record
  -- is not out of date at once.
  pub typed_get-put_heap :
      (now : ℕ) (s : HeapStore.HeapStore) (key : K) (value : V) (ttl priority : ℕ)
      → length (keys.encode key) ≤ HeapStore.max_key_len
      → length (values.encode value) ≤ HeapStore.max_value_len
      → values.decode (values.encode value) ≡ some value
      → HeapStore.is_expired now s
          (record { value = values.encode value; timestamp = now; ttl = ttl })
        ≡ false
      → (TypedStore.get
          (heap_store now)
          keys
          values
          (TypedStore.put (heap_store now) keys values now s key value ttl priority).0
          key).1
        ≡ some value
  unfolding heap_store TypedStore.put TypedStore.get
  typed_get-put_heap now s key value ttl priority hk hv codec fresh =
      typed_get-put (heap_store now) keys values now s key value ttl priority codec refl refl
        (get_vector-put_vector now s (keys.encode key) (values.encode value) ttl now hk hv fresh)
