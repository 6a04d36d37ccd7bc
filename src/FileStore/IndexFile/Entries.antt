-- ===== src/FileStore/IndexFile/Entries.antt =====
-- FileStore.h: what is appended to the index file is what `load_index` reads.
use micro_store.Base.{
  ℕ, zero, suc, ◌^◌, ◌≤◌, ◌<◌, ◌≡◌, refl, ap, sym, ◌∙◌, Option, none, some, List, [], ◌∷◌, ◌++◌,
  arith, length, length-append, bytes_eq_iff,
}
use mathlib.Core.List.{append_assoc}
use micro_store.Assoc.{Key, lookup, assign, lookup-assign, IsDistinct}
use micro_store.FileStore.Layout.{le32, max_key_len}
use micro_store.FileStore.Layout.RoundTrip.{at32-le32}
use micro_store.FileStore.Files.{read_exact}
use micro_store.FileStore.Files.ReadExact.{read_exact-append}
use micro_store.FileStore.Index.{
  IndexValue, IndexMap, UInt24, of_uint24, to_uint24, index_value, index_insert,
}
use micro_store.FileStore.IndexFile.{
  IndexEntry, entry_chunks, load_entry, apply_entry, load_entries, bulk_entry, bulk_chunks,
}

-- The bytes of writes made in turn.
unfoldable pub joined : List (List ℕ) → List ℕ
joined [] = []
joined (c ∷ cs) = c ++ joined cs

-- The fields of an entry fit their words, and its key is a legal one.
pub record EntryFits (e : IndexEntry) : Type 0 where
  pub key : length e.key ≤ max_key_len
  pub seg : e.seg < 2 ^ 32
  pub off : e.off < 2 ^ 32
  pub ts : e.ts < 2 ^ 32
  pub ttl : e.ttl < 2 ^ 32
  pub priority : e.priority < 2 ^ 8

-- An entry's bytes, bracketed to the right, with what follows.
entry_bytes-append :
    (e : IndexEntry) (rest : List ℕ)
    → joined (entry_chunks e) ++ rest
      ≡ (length e.key ∷ [])
        ++ (e.key
            ++ (le32 e.seg
                ++ (le32 e.off ++ (le32 e.ts ++ (le32 e.ttl ++ ((e.priority ∷ []) ++ rest))))))
unfolding joined entry_chunks
entry_bytes-append e rest = simp append_assoc

four : (v : ℕ) (rest : List ℕ) → read_exact 4 (le32 v ++ rest) ≡ some (le32 v, rest)
four v rest = read_exact-append (le32 v) rest 4 (unfold le32 in refl)

-- `load_index` reads an entry as it was appended.
pub load_entry-append :
    (e : IndexEntry) (rest : List ℕ)
    → EntryFits e
    → load_entry (joined (entry_chunks e) ++ rest) ≡ some (e, rest)
unfolding load_entry
load_entry-append e rest f =
    let r5 = (e.priority ∷ []) ++ rest in
    let r4 = le32 e.ttl ++ r5 in
    let r3 = le32 e.ts ++ r4 in
    let r2 = le32 e.off ++ r3 in
    let r1 = le32 e.seg ++ r2 in
    ground (
      arith,
      entry_bytes-append e rest,
      read_exact-append (length e.key ∷ []) (e.key ++ r1) 1 refl,
      read_exact-append e.key r1 (length e.key) refl,
      four e.seg r2,
      four e.off r3,
      four e.ts r4,
      four e.ttl r5,
      read_exact-append (e.priority ∷ []) rest 1 refl,
      at32-le32 e.seg f.seg,
      at32-le32 e.off f.off,
      at32-le32 e.ts f.ts,
      at32-le32 e.ttl f.ttl,
    )

-- The bytes of entries appended in turn.
unfoldable pub entries_bytes : List IndexEntry → List ℕ
entries_bytes [] = []
entries_bytes (e ∷ es) = joined (entry_chunks e) ++ entries_bytes es

abbrev pub AllFit : List IndexEntry → Type 0
AllFit [] = Unit {0}
AllFit (e ∷ es) = EntryFits e × AllFit es

-- The effect of the entries, in order.
unfoldable pub apply_entries : List IndexEntry → IndexMap → IndexMap
apply_entries [] index = index
apply_entries (e ∷ es) index = apply_entries es (apply_entry e index)

load_from_entries :
    (fuel : ℕ) (es : List IndexEntry) (torn : List ℕ) (index : IndexMap)
    → AllFit es
    → load_entry torn ≡ none
    → length es ≤ fuel
    → load_entries fuel (entries_bytes es ++ torn) index ≡ apply_entries es index
unfolding load_entries entries_bytes apply_entries
load_from_entries zero [] torn index f stop h = refl
load_from_entries zero (e ∷ es) torn index f stop h = absurd (omega arith)
load_from_entries (suc n) [] torn index f stop h = rw (stop, load_entries)
load_from_entries (suc n) (e ∷ es) torn index f stop h = rw append_assoc (
    rw (load_entry-append e (entries_bytes es ++ torn) f.0, load_entries)
      (load_from_entries n es torn (apply_entry e index) f.1 stop (omega arith)))

length-es-le : (es : List IndexEntry) → length es ≤ length (entries_bytes es)
unfolding entries_bytes joined entry_chunks
length-es-le [] = omega arith
length-es-le (e ∷ es) =
    omega (arith, length-append (joined (entry_chunks e)) (entries_bytes es), length-es-le es)

-- Entries appended in full, with bytes behind them that make no entry.
pub load_entries_behind :
    (es : List IndexEntry) (torn : List ℕ) (index : IndexMap)
    → AllFit es
    → load_entry torn ≡ none
    → load_entries (length (entries_bytes es ++ torn)) (entries_bytes es ++ torn) index
      ≡ apply_entries es index
load_entries_behind es torn index f stop =
    load_from_entries (length (entries_bytes es ++ torn)) es torn index f stop
      (omega (arith, length-append (entries_bytes es) torn, length-es-le es))

-- The packed fields of an index entry are bytes and words, and its key is a legal one.
pub record IndexFits (k : Key) (v : IndexValue) : Type 0 where
  pub key : length k ≤ max_key_len
  pub segment : v.segment < 2 ^ 8
  pub off0 : v.offset.b0 < 2 ^ 8
  pub off1 : v.offset.b1 < 2 ^ 8
  pub off2 : v.offset.b2 < 2 ^ 8
  pub timestamp : v.timestamp < 2 ^ 32
  pub ttl0 : v.ttl.b0 < 2 ^ 8
  pub ttl1 : v.ttl.b1 < 2 ^ 8
  pub ttl2 : v.ttl.b2 < 2 ^ 8
  pub priority : v.priority < 2 ^ 8

abbrev pub AllIndexFit : IndexMap → Type 0
AllIndexFit [] = Unit {0}
AllIndexFit ((k, v) ∷ index) = IndexFits k v × AllIndexFit index

-- The three bytes of a number make the number, and three bytes come back from the number.
to_uint24-of_uint24 :
    (u : UInt24)
    → u.b0 < 2 ^ 8
    → u.b1 < 2 ^ 8
    → u.b2 < 2 ^ 8
    → (to_uint24 (of_uint24 u) ≡ u) × (of_uint24 u < 2 ^ 24)
unfolding to_uint24 of_uint24
to_uint24-of_uint24 u h0 h1 h2 = (ground arith, omega arith)

-- An entry written in bulk puts back the very value that it was written for.
apply-bulk_entry :
    (k : Key) (v : IndexValue) (index : IndexMap)
    → IndexFits k v
    → (EntryFits (bulk_entry (k, v))) × (apply_entry (bulk_entry (k, v)) index ≡ assign k v index)
unfolding apply_entry bulk_entry index_insert index_value
apply-bulk_entry k v index f =
    let o = to_uint24-of_uint24 v.offset f.off0 f.off1 f.off2 in
    let t = to_uint24-of_uint24 v.ttl f.ttl0 f.ttl1 f.ttl2 in
    (
      record {
        key = f.key;
        seg = omega arith;
        off = omega arith;
        ts = f.timestamp;
        ttl = omega arith;
        priority = f.priority;
      },
      ground (arith, o.0, t.0),
    )

bulk_entries : IndexMap → List IndexEntry
bulk_entries [] = []
bulk_entries (e ∷ index) = bulk_entry e ∷ bulk_entries index

bulk_entries-AllFit : (index : IndexMap) → AllIndexFit index → AllFit (bulk_entries index)
unfolding bulk_entries
bulk_entries-AllFit [] f = tt
bulk_entries-AllFit ((k, v) ∷ index) f =
    ((apply-bulk_entry k v [] f.0).0, bulk_entries-AllFit index f.1)

lookup-bulk :
    (index acc : IndexMap) (k : Key)
    → IsDistinct index
    → AllIndexFit index
    → lookup k (apply_entries (bulk_entries index) acc)
      ≡ (elim (lookup k index) [ none ↦ lookup k acc | some v ↦ some v ])
unfolding apply_entries bulk_entries lookup
lookup-bulk [] acc k d f = refl
lookup-bulk ((j, v) ∷ index) acc k d f = ground (
  arith,
  (apply-bulk_entry j v acc f.0).1,
  lookup-assign j k v acc,
  lookup-bulk index (assign j v acc) k d.1 f.1,
  bytes_eq_iff j k,
)

joined-append : (xs ys : List (List ℕ)) → joined (xs ++ ys) ≡ joined xs ++ joined ys
unfolding joined
joined-append [] ys = refl
joined-append (x ∷ xs) ys = rw (joined-append xs ys) (sym (append_assoc x (joined xs) (joined ys)))

joined-bulk_chunks :
    (index : IndexMap) → joined (bulk_chunks index) ≡ entries_bytes (bulk_entries index) ++ []
unfolding bulk_chunks bulk_entries entries_bytes
joined-bulk_chunks [] = unfold joined in refl
joined-bulk_chunks (e ∷ index) =
    joined-append (entry_chunks (bulk_entry e)) (bulk_chunks index)
    ∙ (ap (λ b. joined (entry_chunks (bulk_entry e)) ++ b) (joined-bulk_chunks index)
        ∙ sym (
            append_assoc (joined (entry_chunks (bulk_entry e))) (entries_bytes (bulk_entries index))
              []))

none_or : (k : Key) (o : Option IndexValue) → (elim o [ none ↦ lookup k [] | some v ↦ some v ]) ≡ o
unfolding lookup
none_or k none = refl
none_or k (some v) = refl

pub no_entry : load_entry [] ≡ none
unfolding load_entry
no_entry = unfold read_exact in refl

-- `write_index_bulk` and `load_index`: an index with each key once, written out whole and read
-- into an empty one, finds the same entry under every key, and finds none where it found none.
pub lookup-load_entries_bulk :
    (index : IndexMap) (k : Key)
    → IsDistinct index
    → AllIndexFit index
    → lookup k (load_entries (length (joined (bulk_chunks index))) (joined (bulk_chunks index)) [])
      ≡ lookup k index
lookup-load_entries_bulk index k d f = rw (joined-bulk_chunks index) (
    rw (load_entries_behind (bulk_entries index) [] [] (bulk_entries-AllFit index f) no_entry)
      (lookup-bulk index [] k d f ∙ none_or k (lookup k index)))
