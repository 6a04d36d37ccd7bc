-- ===== src/FileStore/Iteration.antt =====
-- FileStore.h: the iterator over a store's records, and the figures that `dumpInfo` prints.
use micro_store.Base.{
  ℕ, zero, suc, ◌+◌, ◌%◌, ◌^◌, Bool, false, ◌&&◌, Option, none, some, List, [], ◌∷◌, ◌++◌, ◌-◌,
  replicate, length, drop, leb, ◌==◌, if◌then◌else◌,
}
use micro_store.Assoc.{Key}
use micro_store.FileStore.Layout.{
  decode_header, at32, magic_record, magic_commit, max_key_len, header_size, commit_size,
}
use micro_store.FileStore.Files.{FileSystem, read_exact, read}
use micro_store.FileStore.Names.{segment_name}
use micro_store.FileStore.Index.{IndexValue, IndexMap, of_uint24, index_find}
use micro_store.FileStore.IndexFile.{◌>>=◌, guard}
use micro_store.FileStore.Scan.{Scanned, is_delete}
use micro_store.FileStore.State.{FileStore, flush_buffer}

-- `Entry`
pub record Entry : Type 0 where
  pub key : Key
  pub value : List ℕ
  pub timestamp : ℕ
  pub ttl : ℕ

-- `load_meta` at a position of the index.
unfoldable pub load_meta : Key → IndexValue → Entry
load_meta key iv = record {
  key = key;
  value = [];
  timestamp = iv.timestamp;
  ttl = of_uint24 iv.ttl;
}

-- The reads of `load_value`. It does not test the header that it reads: bytes that are not there
-- are zeros in the value, and in the header too, where the source leaves them undefined.
unfoldable pub value_at : List ℕ → ℕ → List ℕ
value_at bytes off =
    let hdr = decode_header (drop off bytes) in
    let v = read hdr.value_len (drop (off + header_size + hdr.key_len) bytes) in
    v ++ replicate (hdr.value_len - length v) 0

module _ {D : Type 0} (fs : FileSystem D) where
  -- `load_value`, which `operator*` calls on its first use.
  unfoldable pub load_value : FileStore D → IndexValue → Entry → Entry
  load_value s iv e = elim (fs.open_read s.disk (segment_name s.base_prefix iv.segment)) [
    | none ↦ record e { value = [] }
    | some bytes ↦ record e { value = value_at bytes (of_uint24 iv.offset) }
  ]

  -- `operator*` at each position up to `end`.
  unfoldable pub walk : FileStore D → IndexMap → List Entry
  walk s [] = []
  walk s ((k, iv) ∷ l) = load_value s iv (load_meta k iv) ∷ walk s l

  -- `begin` flushes the buffer first.
  unfoldable pub iterate : FileStore D → FileStore D × List Entry
  iterate s = let f = (flush_buffer fs s).0 in (f, walk f f.index)

-- What `dumpInfo` counts.
pub record Usage : Type 0 where
  pub file_size : ℕ
  pub entries : ℕ
  pub tomb_entries : ℕ
  pub tomb_bytes : ℕ
  pub dead_entries : ℕ
  pub dead_bytes : ℕ

-- A round of the walk in `dumpInfo`, which takes a key and a value of any length up to its own
-- bound; `none` is a `break`.
unfoldable pub dump_record : List ℕ → ℕ → Option Scanned
dump_record bytes off = do
  (h, rest) ← read_exact header_size (drop off bytes)
  let hdr = decode_header h
  _ ← guard (hdr.magic == magic_record && leb hdr.key_len max_key_len)
  (key, _) ← read_exact hdr.key_len rest
  (c, _) ← read_exact commit_size (drop (off + header_size + hdr.key_len + hdr.value_len) bytes)
  _ ← guard (at32 c 0 == magic_commit)
  some (record {
    hdr = hdr;
    key = key;
    next = off + header_size + hdr.key_len + hdr.value_len + commit_size;
  })

-- The record is the one that the index has for its key.
unfoldable pub is_live : IndexMap → ℕ → ℕ → Key → Bool
is_live index seg off key = elim (index_find key index) [
  | none ↦ false
  | some iv ↦ iv.segment == seg && of_uint24 iv.offset == off
]

-- `record_size` is in 32 bits, as all counters are.
unfoldable pub count_record : IndexMap → ℕ → ℕ → Scanned → Usage → Usage
count_record index seg off r u =
    let record_size = (header_size + r.hdr.key_len + r.hdr.value_len + commit_size) % 2 ^ 32 in
    if is_delete r.hdr
    then record u {
      tomb_entries = (u.tomb_entries + 1) % 2 ^ 32;
      tomb_bytes = (u.tomb_bytes + record_size) % 2 ^ 32;
    }
    else if is_live index seg off r.key
    then record u { entries = (u.entries + 1) % 2 ^ 32 }
    else record u {
      dead_entries = (u.dead_entries + 1) % 2 ^ 32;
      dead_bytes = (u.dead_bytes + record_size) % 2 ^ 32;
    }

-- The walk over a segment: a round takes at least 24 bytes.
unfoldable pub dump_segment : ℕ → IndexMap → ℕ → List ℕ → ℕ → Usage → Usage
dump_segment zero index seg bytes off u = u
dump_segment (suc f) index seg bytes off u = elim (dump_record bytes off) [
  | none ↦ u
  | some r ↦ dump_segment f index seg bytes r.next (count_record index seg off r u)
]

abbrev pub nothing_counted : Usage
nothing_counted = record {
  file_size = 0;
  entries = 0;
  tomb_entries = 0;
  tomb_bytes = 0;
  dead_entries = 0;
  dead_bytes = 0;
}

unfoldable pub add_usage : Usage → Usage → Usage
add_usage a b = record {
  file_size = (a.file_size + b.file_size) % 2 ^ 32;
  entries = (a.entries + b.entries) % 2 ^ 32;
  tomb_entries = (a.tomb_entries + b.tomb_entries) % 2 ^ 32;
  tomb_bytes = (a.tomb_bytes + b.tomb_bytes) % 2 ^ 32;
  dead_entries = (a.dead_entries + b.dead_entries) % 2 ^ 32;
  dead_bytes = (a.dead_bytes + b.dead_bytes) % 2 ^ 32;
}

-- The figures of one segment.
unfoldable pub segment_usage : IndexMap → ℕ → List ℕ → Usage
segment_usage index seg bytes =
    dump_segment (length bytes) index seg bytes 0
      (record nothing_counted { file_size = length bytes % 2 ^ 32 })

module _ {D : Type 0} (fs : FileSystem D) where
  -- `n` rounds from segment `seg` on, up to the first file that is missing; the totals so far.
  unfoldable pub dump_segments : ℕ → FileStore D → ℕ → Usage → List Usage × Usage
  dump_segments zero s seg total = ([], total)
  dump_segments (suc n) s seg total = elim (fs.open_read s.disk (segment_name s.base_prefix seg)) [
    | none ↦ ([], total)
    | some bytes ↦
        let u = segment_usage s.index seg bytes in
        let (us, t) = dump_segments n s (seg + 1) (add_usage total u) in (u ∷ us, t)
  ]

  -- `dumpInfo`: the figures of each segment and their totals.
  unfoldable pub dump_info : FileStore D → FileStore D × (List Usage × Usage)
  dump_info s =
      let f = (flush_buffer fs s).0 in (f, dump_segments f.segment_count f 0 nothing_counted)
