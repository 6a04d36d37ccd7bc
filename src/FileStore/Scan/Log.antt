-- ===== src/FileStore/Scan/Log.antt =====
-- FileStore.h: a walk over a segment sees the records that were appended, all of them and in
-- order, and stops at whatever an interrupted append left behind them.
use micro_store.Base.{
  ℕ, zero, suc, ◌+◌, ◌-◌, ltb, Bool-cases, Option-cases, inl, inr, length-drop, length-take,
  take-append_of_ge, ◌^◌, ◌≤◌, ◌<◌, ◌≡◌, refl, ap, sym, ◌∙◌, Bool, true, none, some, List, [], ◌∷◌,
  ◌++◌, arith, length, take, drop, length-append, drop-append, drop-add,
}
use mathlib.Core.List.{append_assoc}
use micro_store.Assoc.{Key}
use micro_store.FileStore.Layout.{
  RecordHeader, encode_header, decode_header, le16, le32, at32, header_size, commit_size,
  magic_commit, magic_record, max_key_len, max_value_len,
}
use micro_store.FileStore.Layout.RoundTrip.{HeaderFits, decode_header-encode_header, at32-le32}
use micro_store.FileStore.Files.{read_exact}
use micro_store.FileStore.Files.ReadExact.{read_exact-append, read_exact_short}
use micro_store.FileStore.Index.{IndexMap}
use micro_store.FileStore.Scan.{header_ok, scan_record, apply_record, scan_segment}

-- A record as it was appended.
pub record Logged : Type 0 where
  pub hdr : RecordHeader
  pub key : Key
  pub value : List ℕ

-- The bytes of a record with its commit mark.
unfoldable pub record_bytes : Logged → List ℕ
record_bytes r = encode_header r.hdr ++ (r.key ++ (r.value ++ le32 magic_commit))

-- What `put` and `remove` guarantee of a record with a key that is not empty.
pub record IsLegal (r : Logged) : Type 0 where
  pub fits : HeaderFits r.hdr
  pub magic : r.hdr.magic ≡ magic_record
  pub key_len : r.hdr.key_len ≡ length r.key
  pub value_len : r.hdr.value_len ≡ length r.value
  pub key_pos : 0 < length r.key
  pub key_max : length r.key ≤ max_key_len
  pub value_max : length r.value ≤ max_value_len

unfoldable pub log_bytes : List Logged → List ℕ
log_bytes [] = []
log_bytes (r ∷ rs) = record_bytes r ++ log_bytes rs

abbrev pub AllLegal : List Logged → Type 0
AllLegal [] = Unit {0}
AllLegal (r ∷ rs) = IsLegal r × AllLegal rs

unfoldable pub record_size : Logged → ℕ
record_size r = header_size + length r.key + length r.value + commit_size

-- The effect of the records, in order, each at its offset.
unfoldable pub replay : Bool → ℕ → ℕ → List Logged → IndexMap → IndexMap
replay removes seg off [] index = index
replay removes seg off (r ∷ rs) index = replay removes seg (off + record_size r) rs (
    apply_record removes seg off (record { hdr = r.hdr; key = r.key; next = off + record_size r })
      index)

pub length-record_bytes : (r : Logged) → length (record_bytes r) ≡ record_size r
unfolding record_bytes record_size encode_header le16 le32
length-record_bytes r = omega (
  arith,
  length-append r.key (r.value ++ le32 magic_commit),
  length-append r.value (le32 magic_commit),
)

header_ok_of_legal : (r : Logged) → IsLegal r → header_ok r.hdr ≡ true
unfolding header_ok
header_ok_of_legal r l = ground arith

le32_commit : at32 (le32 magic_commit) 0 ≡ magic_commit
le32_commit = at32-le32 magic_commit (omega arith)

-- What stands behind the header of a record.
tail_bytes : Logged → List ℕ → List ℕ
tail_bytes r rest = r.key ++ (r.value ++ (le32 magic_commit ++ rest))

record_bytes-append :
    (r : Logged) (rest : List ℕ) → record_bytes r ++ rest ≡ encode_header r.hdr ++ tail_bytes r rest
unfolding record_bytes tail_bytes
record_bytes-append r rest = simp append_assoc

read_head :
    (rest : List ℕ) (r : Logged)
    → HeaderFits r.hdr
    → (read_exact header_size (record_bytes r ++ rest)
        ≡ some (encode_header r.hdr, tail_bytes r rest))
      × (decode_header (encode_header r.hdr) ≡ r.hdr)
read_head rest r fits =
    let h = decode_header-encode_header r.hdr fits in
    (
      rw (record_bytes-append r rest)
          (read_exact-append (encode_header r.hdr) (tail_bytes r rest) header_size (sym h.0)),
      h.1,
    )

read_key :
    (rest : List ℕ) (r : Logged)
    → IsLegal r
    → read_exact r.hdr.key_len (tail_bytes r rest)
      ≡ some (r.key, r.value ++ (le32 magic_commit ++ rest))
unfolding tail_bytes
read_key rest r l = read_exact-append r.key (r.value ++ (le32 magic_commit ++ rest)) _ l.key_len

-- The commit mark stands behind the header, the key and the value.
drop_to_commit :
    (rest : List ℕ) (r : Logged) (n : ℕ)
    → IsLegal r
    → n ≡ header_size + length r.key + length r.value
    → drop n (record_bytes r ++ rest) ≡ le32 magic_commit ++ rest
unfolding tail_bytes
drop_to_commit rest r n l e =
    let h = encode_header r.hdr in
    let size = (decode_header-encode_header r.hdr l.fits).0 in
    let t2 = r.value ++ (le32 magic_commit ++ rest) in
    rw (record_bytes-append r rest) (
      drop-add header_size (length r.key + length r.value) n (h ++ (r.key ++ t2)) (omega arith)
      ∙ (ap (drop (length r.key + length r.value))
            (drop-append h (r.key ++ t2) header_size (sym size))
          ∙ (drop-add (length r.key) (length r.value) (length r.key + length r.value) (r.key ++ t2)
                refl
              ∙ (ap (drop (length r.value)) (drop-append r.key t2 (length r.key) refl)
                  ∙ drop-append r.value (le32 magic_commit ++ rest) (length r.value) refl))))

read_commit :
    (rest : List ℕ) (r : Logged) (n : ℕ)
    → IsLegal r
    → n ≡ header_size + length r.key + length r.value
    → read_exact commit_size (drop n (record_bytes r ++ rest)) ≡ some (le32 magic_commit, rest)
read_commit rest r n l e =
    rw (drop_to_commit rest r n l e)
      (read_exact-append (le32 magic_commit) rest commit_size (unfold le32 in refl))

-- A walk that stands before a record of the log reads it, and goes on behind it.
pub scan_record-append :
    (pre rest : List ℕ) (r : Logged) (off : ℕ)
    → IsLegal r
    → off ≡ length pre
    → off + record_size r < 2 ^ 32
    → scan_record (pre ++ (record_bytes r ++ rest)) off
      ≡ some (record { hdr = r.hdr; key = r.key; next = off + record_size r })
unfolding scan_record record_size
scan_record-append pre rest r off l e small =
    let whole = pre ++ (record_bytes r ++ rest) in
    ground (
      arith,
      read_head rest r l.fits,
      drop-append pre (record_bytes r ++ rest) off e,
      header_ok_of_legal r l,
      read_key rest r l,
      read_commit rest r (header_size + length r.key + length r.value) l refl,
      drop-add off (header_size + length r.key + length r.value)
          (off + header_size + r.hdr.key_len + r.hdr.value_len) whole,
      le32_commit,
    )

-- The walk from any record of the log on.
scan_from :
    (fuel : ℕ) (removes : Bool) (seg : ℕ) (bytes pre torn : List ℕ) (rs : List Logged) (off : ℕ)
    (index : IndexMap)
    → AllLegal rs
    → bytes ≡ pre ++ (log_bytes rs ++ torn)
    → off ≡ length pre
    → off + length (log_bytes rs) < 2 ^ 32
    → scan_record bytes (off + length (log_bytes rs)) ≡ none
    → length rs ≤ fuel
    → scan_segment fuel removes seg bytes off index ≡ replay removes seg off rs index
unfolding scan_segment replay log_bytes
scan_from zero removes seg bytes pre torn [] off index l b e small stop h = refl
scan_from zero removes seg bytes pre torn (r ∷ rs) off index l b e small stop h =
    absurd (omega arith)
scan_from (suc f) removes seg bytes pre torn [] off index l b e small stop h =
    let here : off + 0 ≡ off = omega arith in rw ((rw here at stop), scan_segment)
scan_from (suc f) removes seg bytes pre torn (r ∷ rs) off index l b e small stop h =
    let rest = log_bytes rs in
    let size = length-record_bytes r in
    let sum = length-append (record_bytes r) rest in
    let b1 : bytes ≡ pre ++ (record_bytes r ++ (rest ++ torn)) = b ∙ simp append_assoc in
    let b2 : bytes ≡ (pre ++ record_bytes r) ++ (rest ++ torn) = b ∙ simp append_assoc in
    let met : scan_record bytes off
        ≡ some (record { hdr = r.hdr; key = r.key; next = off + record_size r }) =
      rw b1 (scan_record-append pre (rest ++ torn) r off l.0 e (omega arith)) in
    let end : off + record_size r + length rest ≡ off + length (record_bytes r ++ rest) =
      omega arith in
    rw (met, scan_segment)
      (scan_from f removes seg bytes (pre ++ record_bytes r) torn rs (off + record_size r)
        (apply_record removes seg off
          (record { hdr = r.hdr; key = r.key; next = off + record_size r }) index)
        l.1 b2 (omega (arith, length-append pre (record_bytes r))) (omega arith) (rw end stop)
        (omega arith))

length-rs-le : (rs : List Logged) → length rs ≤ length (log_bytes rs)
unfolding log_bytes record_size
length-rs-le [] = omega arith
length-rs-le (r ∷ rs) =
    omega
      (arith, length-append (record_bytes r) (log_bytes rs), length-record_bytes r, length-rs-le rs)

-- A file of records that were appended in full, and behind them bytes at which a walk stops, such
-- as the first part of a record whose append was cut off: the walk over the file applies every
-- record of the log, in order and each at its offset, and nothing else, in as many rounds as the
-- file has bytes. The records make less than 4 GiB.
pub scan_segment-log :
    (removes : Bool) (seg : ℕ) (torn : List ℕ) (rs : List Logged) (index : IndexMap)
    → AllLegal rs
    → length (log_bytes rs) < 2 ^ 32
    → scan_record (log_bytes rs ++ torn) (length (log_bytes rs)) ≡ none
    → scan_segment (length (log_bytes rs ++ torn)) removes seg (log_bytes rs ++ torn) 0 index
      ≡ replay removes seg 0 rs index
scan_segment-log removes seg torn rs index l small stop =
    let zero-off : 0 + length (log_bytes rs) ≡ length (log_bytes rs) = omega arith in
    scan_from (length (log_bytes rs ++ torn)) removes seg (log_bytes rs ++ torn) [] torn rs 0 index
      l refl refl (omega arith) (rw zero-off stop)
      (omega (arith, length-append (log_bytes rs) torn, length-rs-le rs))

-- The commit mark of a record that was cut off is not there in full.
torn_commit :
    (pre : List ℕ) (r : Logged) (cut n : ℕ)
    → cut < record_size r
    → n ≡ length pre + header_size + length r.key + length r.value
    → read_exact commit_size (drop n (pre ++ take cut (record_bytes r))) ≡ none
unfolding record_size
torn_commit pre r cut n h e =
    read_exact_short commit_size (drop n (pre ++ take cut (record_bytes r))) (
      omega (
        arith,
        length-drop n (pre ++ take cut (record_bytes r)),
        length-append pre (take cut (record_bytes r)),
        length-take cut (record_bytes r),
      ))

torn_behind_header :
    (pre : List ℕ) (r : Logged) (cut m : ℕ)
    → IsLegal r
    → cut < record_size r
    → cut ≡ header_size + m
    → scan_record (pre ++ take cut (record_bytes r)) (length pre) ≡ none
unfolding scan_record
torn_behind_header pre r cut m l h e =
    let head = decode_header-encode_header r.hdr l.fits in
    let tl = r.key ++ (r.value ++ le32 magic_commit) in
    let cut_tail : take cut (record_bytes r) ≡ encode_header r.hdr ++ take m tl =
      unfold record_bytes in take-append_of_ge (encode_header r.hdr) tl cut m (omega arith) in
    let n = length pre + header_size + r.hdr.key_len + r.hdr.value_len in
    let no_commit = torn_commit pre r cut n h (omega arith) in
    let head_read = read_exact-append (encode_header r.hdr) (take m tl) header_size (sym head.0) in
    elim (Option-cases (read_exact r.hdr.key_len (take m tl))) [
      | inl short ↦ ground (
        arith,
        drop-append pre (take cut (record_bytes r)) (length pre) refl,
        cut_tail,
        head_read,
        head.1,
        header_ok_of_legal r l,
        short,
        no_commit,
      )
      | inr (x, read) ↦ ground (
        arith,
        drop-append pre (take cut (record_bytes r)) (length pre) refl,
        cut_tail,
        head_read,
        head.1,
        header_ok_of_legal r l,
        read,
        no_commit,
      )
    ]

-- A cut in a record's append, at any byte before its end, leaves bytes at which a walk stops.
pub scan_record_torn :
    (pre : List ℕ) (r : Logged) (cut : ℕ)
    → IsLegal r
    → cut < record_size r
    → scan_record (pre ++ take cut (record_bytes r)) (length pre) ≡ none
unfolding scan_record
scan_record_torn pre r cut l h = elim (Bool-cases (ltb cut header_size)) [
  | inl short ↦ ground (
    arith,
    drop-append pre (take cut (record_bytes r)) (length pre) refl,
    length-take cut (record_bytes r),
    read_exact_short header_size (take cut (record_bytes r)),
  )
  | inr long ↦ torn_behind_header pre r cut (cut - header_size) l h (ground arith)
]

-- At a record with the empty key a walk over a segment stops, whatever stands behind it.
pub scan_record_empty_key :
    (pre rest : List ℕ) (r : Logged)
    → HeaderFits r.hdr
    → r.hdr.key_len ≡ 0
    → scan_record (pre ++ (record_bytes r ++ rest)) (length pre) ≡ none
unfolding scan_record header_ok
scan_record_empty_key pre rest r fits zero_len =
    ground
      (arith, drop-append pre (record_bytes r ++ rest) (length pre) refl, read_head rest r fits)

-- A crash in the append of a legal record leaves every record before it: a walk over a file of
-- legal records, of less than 4 GiB, that ends in the first part of a record, cut at any byte,
-- gives the index of the records that were appended in full.
pub scan_segment_torn :
    (removes : Bool) (seg cut : ℕ) (rs : List Logged) (r : Logged) (index : IndexMap)
    → AllLegal rs
    → IsLegal r
    → cut < record_size r
    → length (log_bytes rs) < 2 ^ 32
    → scan_segment
        (length (log_bytes rs ++ take cut (record_bytes r)))
        removes
        seg
        (log_bytes rs ++ take cut (record_bytes r))
        0
        index
      ≡ replay removes seg 0 rs index
scan_segment_torn removes seg cut rs r index ls l h small =
    scan_segment-log removes seg (take cut (record_bytes r)) rs index ls small
      (scan_record_torn (log_bytes rs) r cut l h)
