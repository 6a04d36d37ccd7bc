-- ===== src/FileStore/View.antt =====
-- FileStore.h: a store as a partial function from keys to values with their times.
pub mod Append
pub mod Rotate
pub mod Put
pub mod Remove
pub mod Get
pub mod Saved
pub mod Steps
pub mod Start
pub mod New
pub mod Run
pub mod Restart
use micro_store.Base.{
  ℕ, ◌+◌, ◌≤◌, ◌<◌, ◌≡◌, ◌≢◌, refl, ap, sym, ◌∙◌, true, false, Bool, Option, none, some, List, [],
  ◌∷◌, ◌++◌, arith, length, Bool-cases, Option-cases, inl, inr, bytes_eq, bytes_eq_iff,
  if◌then◌else◌,
}
use mathlib.Core.List.{append_assoc}
use mathlib.Core.Option.{some-injective}
use micro_store.Assoc.{Key, lookup, assign, erase, lookup-assign, lookup-erase}
use micro_store.FileStore.Layout.{magic_record, max_key_len, max_value_len}
use micro_store.FileStore.Layout.RoundTrip.{HeaderFits}
use micro_store.FileStore.Files.{FilePath, FileSystem}
use micro_store.FileStore.Names.{segment_name}
use micro_store.FileStore.Index.{IndexValue, IndexMap, of_uint24}
use micro_store.FileStore.Scan.Log.{Logged, record_bytes}

-- What a key has: its value, the time of the `put` and the time to live.
pub record Item : Type 0 where
  pub value : List ℕ
  pub timestamp : ℕ
  pub ttl : ℕ

-- The abstract state.
abbrev pub Contents : Type 0
Contents = Key → Option Item

-- A change at one key.
abbrev pub set : Contents → Key → Option Item → Contents
set m k item j = if bytes_eq k j then item else m j

-- A record as `get` wants to find it.
pub record IsRecord (r : Logged) : Type 0 where
  pub fits : HeaderFits r.hdr
  pub magic : r.hdr.magic ≡ magic_record
  pub key_len : r.hdr.key_len ≡ length r.key
  pub value_len : r.hdr.value_len ≡ length r.value
  pub key_max : length r.key ≤ max_key_len
  pub value_max : length r.value ≤ max_value_len

module _ {D : Type 0} (fs : FileSystem D) (prefix : List ℕ) where
  -- An entry of the index points at a record of the key in its segment, with the item's value.
  pub record IsBacked (d : D) (k : Key) (v : IndexValue) (item : Item) : Type 0 where
    pub pre : List ℕ
    pub rest : List ℕ
    pub logged : Logged
    pub on_disk :
        fs.open_read d (segment_name prefix v.segment) ≡ some (pre ++ (record_bytes logged ++ rest))
    pub at : of_uint24 v.offset ≡ length pre
    pub is_record : IsRecord logged
    pub its_key : logged.key ≡ k
    pub its_value : logged.value ≡ item.value
    pub timestamp : v.timestamp ≡ item.timestamp
    pub ttl : of_uint24 v.ttl ≡ item.ttl

  -- The index and the segments hold exactly the items of the abstract state.
  pub record Models (d : D) (index : IndexMap) (m : Contents) : Type 0 where
    pub present :
        (k : Key) (v : IndexValue)
        → lookup k index ≡ some v
        → (item : Item) × (m k ≡ some item) × IsBacked d k v item
    pub absent : (k : Key) → lookup k index ≡ none → m k ≡ none

  -- Each segment that is there has only grown at its end.
  abbrev pub Extends : D → D → Type 0
  Extends d e =
      (seg : ℕ) (c : List ℕ)
      → fs.open_read d (segment_name prefix seg) ≡ some c
      → (more : List ℕ) × (fs.open_read e (segment_name prefix seg) ≡ some (c ++ more))

  pub IsBacked-Extends :
      (d e : D) (k : Key) (v : IndexValue) (item : Item)
      → Extends d e
      → IsBacked d k v item
      → IsBacked e k v item
  IsBacked-Extends d e k v item ext b =
      let (more, there) = ext v.segment _ b.on_disk in
      record {
        pre = b.pre;
        rest = b.rest ++ more;
        logged = b.logged;
        on_disk = there ∙ ap some (simp append_assoc);
        at = b.at;
        is_record = b.is_record;
        its_key = b.its_key;
        its_value = b.its_value;
        timestamp = b.timestamp;
        ttl = b.ttl;
      }

  pub Models-Extends :
      (d e : D) (index : IndexMap) (m : Contents)
      → Extends d e
      → Models d index m
      → Models e index m
  Models-Extends d e index m ext h = record {
    present = λ k v at.
        let (item, is, b) = h.present k v at in (item, is, IsBacked-Extends d e k v item ext b);
    absent = h.absent;
  }

  pub Models-same :
      (d : D) (index : IndexMap) (m n : Contents)
      → ((k : Key) → m k ≡ n k)
      → Models d index m
      → Models d index n
  Models-same d index m n e h = record {
    present = λ k v at. let (item, is, b) = h.present k v at in (item, sym (e k) ∙ is, b);
    absent = λ k at. sym (e k) ∙ h.absent k at;
  }

  pub Models-assign :
      (d : D) (index : IndexMap) (m : Contents) (k : Key) (v : IndexValue) (item : Item)
      → Models d index m
      → IsBacked d k v item
      → Models d (assign k v index) (set m k (some item))
  Models-assign d index m k v item h b = record {
    present = λ j w at. elim (Bool-cases (bytes_eq k j)) [
      | inl same ↦
          let e = (bytes_eq_iff k j).0 same in
          let e' : v ≡ w = some-injective v w (sym (lookup-assign k j v index ∙ rw same) ∙ at) in
          (item, rw same, rw (← e, ← e') b)
      | inr other ↦
          let (i, is, c) = h.present j w (sym (lookup-assign k j v index ∙ rw other) ∙ at) in
          (i, ground arith, c)
    ];
    absent = λ j at. ground (arith, h.absent j, lookup-assign k j v index);
  }

  pub Models-erase :
      (d : D) (index : IndexMap) (m : Contents) (k : Key)
      → Models d index m
      → Models d (erase k index) (set m k none)
  Models-erase d index m k h = record {
    present = λ j w at. elim (Bool-cases (bytes_eq k j)) [
      | inl same ↦ absurd (ground (arith, lookup-erase k j index))
      | inr other ↦
          let (i, is, c) = h.present j w (sym (lookup-erase k j index ∙ rw other) ∙ at) in
          (i, ground arith, c)
    ];
    absent = λ j at. ground (arith, h.absent j, lookup-erase k j index);
  }
