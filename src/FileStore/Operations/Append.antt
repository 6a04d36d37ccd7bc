-- ===== src/FileStore/Operations/Append.antt =====
-- FileStore.h: a record on its way to the file, and the reads of `get` from there.
use micro_store.Base.{
  ℕ, ◌+◌, ◌≤◌, min, ◌≡◌, refl, ap, sym, ◌∙◌, true, some, List, [], ◌++◌, arith, length, take, drop,
  drop-append, drop-add,
}
use mathlib.Core.List.{append_assoc}
use micro_store.FileStore.Layout.{
  encode_header, le32, header_size, magic_commit, magic_record, max_key_len, max_value_len,
}
use micro_store.FileStore.Layout.RoundTrip.{HeaderFits, decode_header-encode_header}
use micro_store.FileStore.Files.{FilePath, FileSystem}
use micro_store.FileStore.Files.ReadExact.{read_exact-append, read_exact_within}
use micro_store.FileStore.Files.Lawful.{IsLawful}
use micro_store.FileStore.State.{FileStore, flush_buffer}
use micro_store.FileStore.State.Buffer.{
  Pending, Frame, Frame-trans, append_buffer-Pending, flush_buffer-Holds,
}
use micro_store.FileStore.Scan.Log.{Logged, record_bytes}
use micro_store.FileStore.Operations.{append_record, fetch}

-- `get` reads a record that stands in a segment's bytes at the offset: as much of the value as the
-- buffer takes, and the value's whole size.
pub fetch-record :
    (pre rest : List ℕ) (r : Logged) (off size : ℕ)
    → HeaderFits r.hdr
    → r.hdr.magic ≡ magic_record
    → r.hdr.key_len ≡ length r.key
    → r.hdr.value_len ≡ length r.value
    → length r.key ≤ max_key_len
    → length r.value ≤ max_value_len
    → off ≡ length pre
    → fetch (pre ++ (record_bytes r ++ rest)) off true size
      ≡ some (record { copied = take (min (length r.value) size) r.value; size = length r.value })
unfolding fetch
fetch-record pre rest r off size fits magic key_len value_len hk hv e =
    let h = decode_header-encode_header r.hdr fits in
    let v = r.value ++ (le32 magic_commit ++ rest) in
    let b1 : record_bytes r ++ rest ≡ encode_header r.hdr ++ (r.key ++ v) =
      unfold record_bytes in simp append_assoc in
    let whole = pre ++ (record_bytes r ++ rest) in
    let at_head : drop off whole ≡ encode_header r.hdr ++ (r.key ++ v) =
      drop-append pre (record_bytes r ++ rest) off e ∙ b1 in
    let at_value : drop (off + header_size + r.hdr.key_len) whole ≡ v =
      drop-add off (header_size + r.hdr.key_len) (off + header_size + r.hdr.key_len) whole
        (omega arith)
      ∙ (ap (drop (header_size + r.hdr.key_len)) at_head
          ∙ (drop-add header_size r.hdr.key_len (header_size + r.hdr.key_len)
                (encode_header r.hdr ++ (r.key ++ v)) refl
              ∙ (ap (drop r.hdr.key_len)
                    (drop-append (encode_header r.hdr) (r.key ++ v) header_size (sym h.0))
                  ∙ drop-append r.key v r.hdr.key_len key_len))) in
    ground (
      arith,
      at_head,
      at_value,
      read_exact-append (encode_header r.hdr) (r.key ++ v) header_size (sym h.0),
      h.1,
      read_exact_within r.value (le32 magic_commit ++ rest) (min (length r.value) size),
    )

module _ {D : Type 0} (fs : FileSystem D) (law : IsLawful fs) (p : FilePath) where
  -- A record on its way: the file and the buffer hold its bytes behind what they held.
  pub append_record-Pending :
      {total : List ℕ} (s : FileStore D) (r : Logged)
      → Pending fs p total s
      → Pending fs p (total ++ record_bytes r) (append_record fs s r.hdr r.key r.value)
        × Frame fs p s (append_record fs s r.hdr r.key r.value)
  unfolding append_record record_bytes
  append_record-Pending {total} s r h =
      let (h1, f1) = append_buffer-Pending fs law p s (encode_header r.hdr) h in
      let (h2, f2) = append_buffer-Pending fs law p _ r.key h1 in
      let (h3, f3) = append_buffer-Pending fs law p _ r.value h2 in
      let (h4, f4) = append_buffer-Pending fs law p _ (le32 magic_commit) h3 in
      let whole : (((total ++ encode_header r.hdr) ++ r.key) ++ r.value) ++ le32 magic_commit
          ≡ total ++ (encode_header r.hdr ++ (r.key ++ (r.value ++ le32 magic_commit))) =
        simp append_assoc in
      (
        rw whole at h4,
        Frame-trans fs law p f1 (Frame-trans fs law p f2 (Frame-trans fs law p f3 f4)),
      )

  -- A flush right behind it: the record stands in the file, whole and behind what was there.
  pub append_record-flush :
      {total : List ℕ} (s : FileStore D) (r : Logged)
      → Pending fs p total s
      → ((flush_buffer fs (append_record fs s r.hdr r.key r.value)).1 ≡ true)
        × (fs.open_read (flush_buffer fs (append_record fs s r.hdr r.key r.value)).0.disk p
            ≡ some (total ++ record_bytes r))
        × ((flush_buffer fs (append_record fs s r.hdr r.key r.value)).0.write_buf ≡ [])
        × Frame fs p s (flush_buffer fs (append_record fs s r.hdr r.key r.value)).0
  append_record-flush s r h =
      let (pending, frame) = append_record-Pending s r h in
      let (ok, disk, empty, frame') = flush_buffer-Holds fs law p _ pending.holds in
      (ok, disk, empty, Frame-trans fs law p frame frame')
