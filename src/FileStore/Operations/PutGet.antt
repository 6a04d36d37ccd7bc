-- ===== src/FileStore/Operations/PutGet.antt =====
-- FileStore.h: a `get` after a `put`.
use micro_store.Base.{
  ◌%◌, ◌^◌, ℕ, ◌+◌, ◌≤◌, ◌<◌, min, ◌≡◌, refl, ap, sym, ◌∙◌, true, false, Bool, some, List, [], ◌++◌,
  arith, length, take, ltb, ◌==◌, bytes_eq_refl,
}
use mathlib.Core.List.{append-nil}
use micro_store.Assoc.{Key, lookup, lookup-assign}
use micro_store.FileStore.Index.{IndexValue, index_value, index_find, of_uint24}
use micro_store.FileStore.Eviction.{is_ttl_expired}
use micro_store.FileStore.Layout.{header_size, commit_size, max_key_len, max_value_len}
use micro_store.FileStore.Files.{FileSystem}
use micro_store.FileStore.Files.Lawful.{IsLawful}
use micro_store.FileStore.Names.{segment_name}
use micro_store.FileStore.State.{FileStore, Clock, flush_buffer}
use micro_store.FileStore.Scan.Log.{record_bytes}
use micro_store.FileStore.Operations.Append.{fetch-record}
use micro_store.FileStore.Operations.Quiet.{IsQuiet}
use micro_store.FileStore.Operations.Ready.{
  IsReady, rotate_stays, IsArgument, put_header-fits, uint24_round, of_uint24-to_uint24,
}
use micro_store.FileStore.Operations.Stored.{put_logged, put_record-Appended}
use micro_store.FileStore.Operations.{
  put_header, fetch, put_record, put, get, get_found, fetch_from,
}

module _ {D : Type 0} (fs : FileSystem D) (law : IsLawful fs) where
  pub flush_buffer_idle : (s : FileStore D) → s.write_buf ≡ [] → flush_buffer fs s ≡ (s, true)
  unfolding flush_buffer
  flush_buffer_idle s h =
      let e : (length s.write_buf == 0) ≡ true = ap (λ b. length b == 0) h in rw (e, flush_buffer)

  -- The path of `get` to the bytes of a segment.
  pub get_read :
      (t : FileStore D) (clock : Clock) (key : Key) (size : ℕ) (v : IndexValue) (bytes : List ℕ)
      → t.mounted ≡ true
      → t.write_buf ≡ []
      → length key ≤ max_key_len
      → lookup key t.index ≡ some v
      → is_ttl_expired t.policy_ttl_secs clock.now v.timestamp (of_uint24 v.ttl) ≡ false
      → fs.open_read t.disk (segment_name t.base_prefix v.segment) ≡ some bytes
      → (get fs t clock key true size).1 ≡ fetch bytes (of_uint24 v.offset) true size
  unfolding get get_found index_find fetch_from
  get_read t clock key size v bytes mounted idle hk found fresh disk =
      let hk' : ltb max_key_len (length key) ≡ false = ground arith in
      ground (arith, flush_buffer_idle t idle, hk')

  pub put_legal :
      (s : FileStore D) (clock : Clock) (key : Key) (value : List ℕ) (ttl ts priority : ℕ)
      → s.mounted ≡ true
      → IsArgument key value ttl ts priority
      → put fs s clock key value ttl ts priority ≡ put_record fs s clock key value ttl ts priority
  unfolding put
  put_legal s clock key value ttl ts priority mounted a =
      let hk : ltb max_key_len (length key) ≡ false = ground (arith, a.key_max) in
      let hv : ltb max_value_len (length value) ≡ false = ground (arith, a.value_max) in
      ground (arith, mounted, hk, hv)

  -- On a disk with room and no faults, a store stands at the end of its active segment, below
  -- 2^24. A `put` of a key of at most 64 and a value of at most 1024 bytes, with a time to live and
  -- a timestamp of 32 bits, that needs no rotation, sets off no compaction, has no limit on the
  -- records to enforce, and whose record is not out of date under the last 24 bits of the time to
  -- live, which is what the index keeps of it, succeeds, and a `get` of the key right behind it
  -- returns the value: as much of it as the buffer takes, and its size.
  pub get-put :
      (s : FileStore D) (clock : Clock) (key : Key) (value : List ℕ) (ttl ts priority size : ℕ)
      → IsReady fs s
      → IsQuiet s key
      → IsArgument key value ttl ts priority
      → s.policy_max_recs ≡ 0
      → s.current_offset + length value + header_size + commit_size < s.segment_size
      → is_ttl_expired s.policy_ttl_secs clock.now ts (ttl % 2 ^ 24) ≡ false
      → ((put fs s clock key value ttl ts priority).1 ≡ true)
        × ((get fs (put fs s clock key value ttl ts priority).0 clock key true size).1
            ≡ some (record { copied = take (min (length value) size) value; size = length value }))
  get-put s clock key value ttl ts priority size ready quiet a no_limit room fresh =
      let p = segment_name s.base_prefix s.current_segment in
      let stay =
        rotate_stays fs law s clock (length value) room
          (omega (arith, ready.offset_small, a.value_max)) in
      let (ok, st) =
        put_record-Appended fs law s s clock key value ttl ts priority ready
          (ap (λ (x : FileStore D × Bool). x.0) stay) quiet no_limit in
      let t = (put_record fs s clock key value ttl ts priority).0 in
      let stored = put_legal s clock key value ttl ts priority ready.mounted a in
      let v = index_value s.current_segment s.current_offset ts ttl priority in
      let r = put_logged key value ttl ts priority in
      let found : lookup key t.index ≡ some v =
        ap (λ (x : FileStore D). lookup key x.index) st.fields
        ∙ (lookup-assign key key v s.index ∙ rw (bytes_eq_refl key)) in
      let live : is_ttl_expired t.policy_ttl_secs clock.now v.timestamp (of_uint24 v.ttl) ≡ false =
        ap
          (λ (x : FileStore D).
            is_ttl_expired x.policy_ttl_secs clock.now v.timestamp (of_uint24 v.ttl))
          st.fields
        ∙ (unfold index_value in rw (of_uint24-to_uint24 ttl) fresh) in
      let name : segment_name t.base_prefix v.segment ≡ p =
        ap (λ (x : FileStore D). segment_name x.base_prefix v.segment) st.fields
        ∙ ap (segment_name s.base_prefix)
            (unfold index_value in omega (arith, ready.segment_small)) in
      let read : fs.open_read t.disk (segment_name t.base_prefix v.segment)
          ≡ some (ready.bytes ++ (record_bytes r ++ [])) =
        rw name
          (st.on_disk ∙ ap (λ b. some (ready.bytes ++ b)) (sym (append-nil (record_bytes r)))) in
      let got =
        get_read t clock key size v _
          (ap (λ (x : FileStore D). x.mounted) st.fields ∙ ready.mounted)
          (ap (λ (x : FileStore D). x.write_buf) st.fields) a.key_max found live read in
      let off : of_uint24 v.offset ≡ length ready.bytes =
        unfold index_value in (uint24_round s.current_offset ready.offset_small ∙ ready.offset) in
      (
        rw stored ok,
        rw stored (
            got
            ∙ fetch-record ready.bytes [] r (of_uint24 v.offset) size
                (put_header-fits key value ttl ts priority a) (unfold put_header in refl)
                (unfold put_header in refl) (unfold put_header in refl) a.key_max a.value_max off),
      )
