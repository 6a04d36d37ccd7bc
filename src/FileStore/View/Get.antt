-- ===== src/FileStore/View/Get.antt =====
-- FileStore.h: `get` and `exists` as questions to the abstract state.
use micro_store.Base.{
  ℕ, ◌≤◌, ◌≡◌, refl, ap, sym, ◌∙◌, true, false, Bool, Bool-cases, Option, none, some, List, arith,
  length, ltb, take, min, Option-cases, inl, inr, if◌then◌else◌, bytes_eq, bytes_eq_iff,
}
use micro_store.Assoc.{Key, lookup, erase}
use micro_store.FileStore.Layout.{max_key_len}
use micro_store.FileStore.Files.{FileSystem}
use micro_store.FileStore.Files.Lawful.{IsLawful}
use micro_store.FileStore.Names.{segment_name}
use micro_store.FileStore.Index.{IndexValue, index_find, index_remove, of_uint24}
use micro_store.FileStore.Eviction.{is_ttl_expired}
use micro_store.FileStore.State.{FileStore, Clock}
use micro_store.FileStore.Operations.{Fetched, get, get_found, fetch_from, exists}
use micro_store.FileStore.Operations.Append.{fetch-record}
use micro_store.FileStore.Operations.PutGet.{flush_buffer_idle}
use micro_store.FileStore.View.{Item, Contents, set, IsBacked, Models-same, Models-erase}
use micro_store.FileStore.View.Append.{IsOpen-fields, Represents}

-- What is left of an item at a time, under the store's time to live.
abbrev pub live : ℕ → ℕ → Option Item → Option Item
live policy now none = none
live policy now (some i) = if is_ttl_expired policy now i.timestamp i.ttl then none else some i

-- What a caller of `get` with a buffer of a size sees of an item.
abbrev pub seen : ℕ → Option Item → Option Fetched
seen size none = none
seen size (some i) =
    some (record { copied = take (min (length i.value) size) i.value; size = length i.value })

abbrev pub is_there : Option Item → Bool
is_there none = false
is_there (some i) = true

module _ {D : Type 0} (fs : FileSystem D) where
  Represents-same :
      (s : FileStore D) (policy : ℕ) (m : Contents) (key : Key) (o : Option Item)
      → m key ≡ o
      → Represents fs s policy m
      → Represents fs s policy (set m key o)
  Represents-same s policy m key o e h = record {
    policy_ttl = h.policy_ttl;
    opened = h.opened;
    items =
        Models-same fs s.base_prefix s.disk s.index m (set m key o)
          (λ k. elim (Bool-cases (bytes_eq key k)) [
            | inl same ↦ ap m (sym ((bytes_eq_iff key k).0 same)) ∙ (e ∙ (rw same refl))
            | inr other ↦ rw other refl
          ])
          h.items;
  }

  -- The removal of an expired entry.
  Represents-erase :
      (s : FileStore D) (policy : ℕ) (m : Contents) (key : Key)
      → Represents fs s policy m
      → Represents fs (record s { index = erase key s.index }) policy (set m key none)
  Represents-erase s policy m key h = record {
    policy_ttl = h.policy_ttl;
    opened = IsOpen-fields fs s (erase key s.index) s.policy_ttl_secs h.opened;
    items = Models-erase fs s.base_prefix s.disk s.index m key h.items;
  }

  fetch_from-IsBacked :
      (d : D) (prefix : List ℕ) (key : Key) (v : IndexValue) (i : Item) (size : ℕ)
      → IsBacked fs prefix d key v i
      → fetch_from (fs.open_read d (segment_name prefix v.segment)) (of_uint24 v.offset) true size
        ≡ seen size (some i)
  unfolding fetch_from
  fetch_from-IsBacked d prefix key v i size b =
      let k = b.is_record in
      rw b.on_disk (
        fetch-record b.pre b.rest b.logged (of_uint24 v.offset) size k.fits k.magic k.key_len
          k.value_len k.key_max k.value_max b.at
        ∙ ap (λ x. seen size (some (record i { value = x }))) b.its_value)

  -- A key's entry, its item, and whether it is expired.
  data Entry (s : FileStore D) (policy : ℕ) (m : Contents) (clock : Clock) (key : Key)
      : Type 0 where
    missing : lookup key s.index ≡ none → m key ≡ none → Entry s policy m clock key
    expired :
        (v : IndexValue)
        → lookup key s.index ≡ some v
        → is_ttl_expired s.policy_ttl_secs clock.now v.timestamp (of_uint24 v.ttl) ≡ true
        → live policy clock.now (m key) ≡ none
        → Entry s policy m clock key
    present :
        (v : IndexValue) (i : Item)
        → lookup key s.index ≡ some v
        → is_ttl_expired s.policy_ttl_secs clock.now v.timestamp (of_uint24 v.ttl) ≡ false
        → m key ≡ some i
        → live policy clock.now (m key) ≡ some i
        → IsBacked fs s.base_prefix s.disk key v i
        → Entry s policy m clock key

  entry :
      (s : FileStore D) (policy : ℕ) (m : Contents) (clock : Clock) (key : Key)
      → Represents fs s policy m
      → Entry s policy m clock key
  entry s policy m clock key h = elim (Option-cases (lookup key s.index)) [
    | inl absent ↦ missing absent (h.items.absent key absent)
    | inr (v, there) ↦
        let (i, is, b) = h.items.present key v there in
        let same : is_ttl_expired s.policy_ttl_secs clock.now v.timestamp (of_uint24 v.ttl)
            ≡ is_ttl_expired policy clock.now i.timestamp i.ttl =
          cc (h.policy_ttl, b.timestamp, b.ttl) in
        elim (Bool-cases (is_ttl_expired policy clock.now i.timestamp i.ttl)) [
          | inl old ↦ expired v there (same ∙ old) (rw (is, old) refl)
          | inr fresh ↦ present v i there (same ∙ fresh) is (rw (is, fresh) refl) b
        ]
  ]

  module _ (law : IsLawful fs) where
    -- `get` of a key finds what is live of the item, and takes an expired item away.
    pub get-Represents :
        (s : FileStore D) (policy : ℕ) (m : Contents) (clock : Clock) (key : Key) (size : ℕ)
        → Represents fs s policy m
        → length key ≤ max_key_len
        → ((get fs s clock key true size).1 ≡ seen size (live policy clock.now (m key)))
          × Represents fs
              (get fs s clock key true size).0
              policy
              (set m key (live policy clock.now (m key)))
    unfolding get get_found index_find index_remove
    get-Represents s policy m clock key size h short =
        let hk : ltb max_key_len (length key) ≡ false = ground arith in
        let legal : get fs s clock key true size
            ≡ get_found fs s clock key true size (lookup key s.index) =
          rw (flush_buffer_idle fs law s h.opened.ready.no_buffer, h.opened.ready.mounted, hk)
            refl in
        rw legal (elim (entry s policy m clock key h) [
          | missing absent nothing ↦
              rw (absent, nothing) (refl, Represents-same s policy m key none nothing h)
          | expired v there old gone ↦
              rw (there, old, gone) (refl, Represents-erase s policy m key h)
          | present v i there fresh is same b ↦
              rw (there, fresh, same)
                (
                  fetch_from-IsBacked s.disk s.base_prefix key v i size b,
                  Represents-same s policy m key (some i) is h,
                )
        ])

  -- `exists` tells whether something is live of the item, and takes an expired item away.
  pub exists-Represents :
      (s : FileStore D) (policy : ℕ) (m : Contents) (clock : Clock) (key : Key)
      → Represents fs s policy m
      → length key ≤ max_key_len
      → ((exists s clock key).1 ≡ is_there (live policy clock.now (m key)))
        × Represents fs (exists s clock key).0 policy (set m key (live policy clock.now (m key)))
  unfolding exists index_find index_remove
  exists-Represents s policy m clock key h short =
      let hk : ltb max_key_len (length key) ≡ false = ground arith in
      rw (h.opened.ready.mounted, hk)
        (elim (entry s policy m clock key h) [
          | missing absent nothing ↦
              rw (absent, nothing) (refl, Represents-same s policy m key none nothing h)
          | expired v there old gone ↦
              rw (there, old, gone) (refl, Represents-erase s policy m key h)
          | present v i there fresh is same b ↦
              rw (there, fresh, same) (refl, Represents-same s policy m key (some i) is h)
        ])
