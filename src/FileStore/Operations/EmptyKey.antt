-- ===== src/FileStore/Operations/EmptyKey.antt =====
-- FileStore.h: a record with the empty key in a segment that is walked over later.
use micro_store.Base.{
  ℕ, ◌+◌, ◌^◌, ◌<◌, ◌≡◌, refl, ap, Bool, true, some, List, [], ◌++◌, arith, length,
}
use mathlib.Core.List.{append_assoc}
use micro_store.FileStore.Index.{IndexMap}
use micro_store.FileStore.Layout.{header_size, commit_size}
use micro_store.FileStore.Files.{FileSystem}
use micro_store.FileStore.Files.Lawful.{IsLawful}
use micro_store.FileStore.Names.{segment_name}
use micro_store.FileStore.State.{FileStore, Clock}
use micro_store.FileStore.Scan.{scan_segment}
use micro_store.FileStore.Scan.Log.{
  Logged, AllLegal, log_bytes, record_bytes, replay, scan_record_empty_key, scan_segment-log,
}
use micro_store.FileStore.Operations.Quiet.{IsQuiet}
use micro_store.FileStore.Operations.Ready.{IsReady, rotate_stays, IsArgument, put_header-fits}
use micro_store.FileStore.Operations.Stored.{put_logged, put_record-Appended}
use micro_store.FileStore.Operations.PutGet.{put_legal}
use micro_store.FileStore.Operations.{put_header, put}

-- The file of a segment, with whatever is appended to it later, gives a walk the effect of the
-- records alone.
pub record EndsWith (after : List ℕ) (rs : List Logged) : Type 0 where
  pub walk :
      (more : List ℕ) (removes : Bool) (seg : ℕ) (index : IndexMap)
      → scan_segment (length (after ++ more)) removes seg (after ++ more) 0 index
        ≡ replay removes seg 0 rs index

-- A record with the empty key behind a log ends every walk.
empty_key-EndsWith :
    (rs : List Logged) (value : List ℕ) (ttl ts priority : ℕ)
    → AllLegal rs
    → length (log_bytes rs) < 2 ^ 32
    → IsArgument [] value ttl ts priority
    → EndsWith (log_bytes rs ++ record_bytes (put_logged [] value ttl ts priority)) rs
empty_key-EndsWith rs value ttl ts priority legal small a = record {
  walk = λ more removes seg index.
      let g = put_logged [] value ttl ts priority in
      rw (append_assoc (log_bytes rs) (record_bytes g) more) (
        scan_segment-log removes seg (record_bytes g ++ more) rs index legal small (
          scan_record_empty_key (log_bytes rs) more g (put_header-fits [] value ttl ts priority a)
            (unfold put_header in refl)));
}

module _ {D : Type 0} (fs : FileSystem D) (law : IsLawful fs) where
  -- On a disk with room and no faults, a store stands at the end of its active segment, below
  -- 2^24, which holds legal records. A `put` of the empty key, with a value of at most 1024 bytes, a
  -- time to live and a timestamp of 32 bits, that needs no rotation, sets off no compaction and has
  -- no limit on the records to enforce, succeeds, and appends to the segment's file. From then on
  -- any walk over the file, whatever is appended to it later, has the effect of the records that
  -- were there before the `put`: neither the record of the empty key nor any behind it counts.
  pub put_empty_key-walk :
      (s : FileStore D) (clock : Clock) (value : List ℕ) (ttl ts priority : ℕ) (rs : List Logged)
      (ready : IsReady fs s)
      → IsQuiet s []
      → IsArgument [] value ttl ts priority
      → s.policy_max_recs ≡ 0
      → s.current_offset + length value + header_size + commit_size < s.segment_size
      → AllLegal rs
      → fs.open_read s.disk (segment_name s.base_prefix s.current_segment) ≡ some (log_bytes rs)
      → ((put fs s clock [] value ttl ts priority).1 ≡ true)
        × ((after : List ℕ) × ((fs.open_read
                  (put fs s clock [] value ttl ts priority).0.disk
                  (segment_name s.base_prefix s.current_segment)
                ≡ some after)
              × EndsWith after rs))
  put_empty_key-walk s clock value ttl ts priority rs ready quiet a no_limit room legal file =
      let stay =
        rotate_stays fs law s clock (length value) room
          (omega (arith, ready.offset_small, a.value_max)) in
      let (ok, st) =
        put_record-Appended fs law s s clock [] value ttl ts priority ready
          (ap (λ (x : FileStore D × Bool). x.0) stay) quiet no_limit in
      let stored = put_legal fs law s clock [] value ttl ts priority ready.mounted a in
      let logged : ready.bytes ≡ log_bytes rs = ground (arith, ready.on_disk, file) in
      let size = ap (length {A = ℕ}) logged in
      rw stored (
        ok,
        (
          ready.bytes ++ record_bytes (put_logged [] value ttl ts priority),
          (
            st.on_disk,
            rw logged (
                empty_key-EndsWith rs value ttl ts priority legal
                  (omega (arith, size, ready.offset, ready.offset_small)) a),
          ),
        ),
      )
