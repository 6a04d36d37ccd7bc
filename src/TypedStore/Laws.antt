-- ===== src/TypedStore/Laws.antt =====
-- TypedStore.h over a store and codecs that keep their promises.
use micro_store.Base.{ℕ, ◌≡◌, true, some, arith}
use micro_store.TypedStore.{Codec, Store, put, get}

module _ {S K V : Type 0} (store : Store S) (keys : Codec K) (values : Codec V) where
  -- When the store below is valid before and after, and gives the bytes it has just put, then
  -- a codec that decodes what it encodes makes `get` give the typed value that `put` took.
  pub typed_get-put :
      (now : ℕ) (s : S) (key : K) (value : V) (ttl priority : ℕ)
      → values.decode (values.encode value) ≡ some value
      → store.is_valid s ≡ true
      → store.is_valid (put store keys values now s key value ttl priority).0 ≡ true
      → (store.get
          (store.put s (keys.encode key) (values.encode value) ttl now priority).0
          (keys.encode key)).1
        ≡ some (values.encode value)
      → (get store keys values (put store keys values now s key value ttl priority).0 key).1
        ≡ some value
  unfolding put get
  typed_get-put now s key value ttl priority codec valid valid_after kept = ground arith
