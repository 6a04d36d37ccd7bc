-- ===== src/TypedStore.antt =====
-- include/microStore/TypedStore.h and Codec.h: a store of typed keys and values over a store of
-- byte vectors, of which it knows the operations and two codecs.
pub mod Laws
pub mod Heap
use micro_store.Base.{
  ℕ, zero, suc, ◌+◌, ◌-◌, Bool, true, false, Option, none, some, List, [], ◌∷◌, ◌++◌, min, length,
  take, drop, ltb, if◌then◌else◌,
}

-- `Codec<T>`; `decode` fails by `none`.
pub record Codec (A : Type 0) : Type 0 where
  pub encode : A → List ℕ
  pub decode : List ℕ → Option A

-- `Codec<std::string>`
abbrev pub string_codec : Codec (List ℕ)
string_codec = record { encode = λ s. s; decode = λ raw. some raw }

-- `Codec<std::vector<uint8_t>>`
abbrev pub vector_codec : Codec (List ℕ)
vector_codec = record { encode = λ vec. vec; decode = λ raw. some raw }

-- `Codec<char*>`: the bytes of a C string go up to its first zero.
unfoldable pub encode_chars : List ℕ → List ℕ
encode_chars [] = []
encode_chars (zero ∷ cs) = []
encode_chars (suc c ∷ cs) = suc c ∷ encode_chars cs

-- Its `decode` into a buffer: as much as fits before the closing zero; the rest of the buffer stays.
unfoldable pub decode_chars : List ℕ → List ℕ → List ℕ
decode_chars raw buffer =
    let n = min (length raw) (length buffer - 1) in take n raw ++ 0 ∷ drop (n + 1) buffer

-- What a typed store and a tiered store ask of the store below. `entries` is what an iteration reads, in order.
pub record Store (S : Type 0) : Type 0 where
  pub is_valid : S → Bool
  pub put : S → List ℕ → List ℕ → ℕ → ℕ → ℕ → S × Bool
  pub get : S → List ℕ → S × Option (List ℕ)
  pub remove : S → List ℕ → S × Bool
  pub exists : S → List ℕ → S × Bool
  pub size : S → ℕ
  pub clear : S → S
  pub entries : S → S × List (List ℕ × List ℕ)

decode_or : {A : Type 0} → Codec A → A → List ℕ → A
decode_or c a raw = elim (c.decode raw) [ none ↦ a | some b ↦ b ]

module _ {S K V : Type 0} (store : Store S) (keys : Codec K) (values : Codec V) where
  -- The record's time is the clock's.
  unfoldable pub put : ℕ → S → K → V → ℕ → ℕ → S × Bool
  put now s key value ttl priority =
      let stored = store.put s (keys.encode key) (values.encode value) ttl now priority in
      if store.is_valid s then stored else (s, false)

  decode_found : Option (List ℕ) → Option V
  decode_found none = none
  decode_found (some raw) = values.decode raw

  unfoldable pub get : S → K → S × Option V
  unfolding decode_found
  get s key =
      let found = store.get s (keys.encode key) in
      if store.is_valid s then (found.0, decode_found found.1) else (s, none)

  unfoldable pub remove : S → K → S × Bool
  remove s key =
      let removed = store.remove s (keys.encode key) in
      if store.is_valid s then removed else (s, false)

  unfoldable pub exists : S → K → S × Bool
  exists s key =
      let found = store.exists s (keys.encode key) in if store.is_valid s then found else (s, false)

  unfoldable pub size : S → ℕ
  size s = if store.is_valid s then store.size s else 0

  -- The rounds of an iteration from the pair `current`: a field that does not decode stays as the
  -- round before left it.
  unfoldable pub iterate_from : K × V → List (List ℕ × List ℕ) → List (K × V)
  unfolding decode_or
  iterate_from current [] = []
  iterate_from current ((k, v) ∷ l) =
      let loaded : K × V = (decode_or keys current.0 k, decode_or values current.1 v) in
      loaded ∷ iterate_from loaded l

  -- `begin` to `end`
  unfoldable pub iterate : S → K × V → S × List (K × V)
  iterate s blank = let (s', l) = store.entries s in (s', iterate_from blank l)
