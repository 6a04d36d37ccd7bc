-- ===== src/FileStore/Operations/Ready.antt =====
-- FileStore.h: a store between two operations, and the argument of `put`.
use micro_store.Base.{
  ℕ, ◌+◌, ◌%◌, ◌^◌, ◌≤◌, ◌<◌, ◌≡◌, ◌≢◌, true, some, List, [], arith, length, ltb, lt→ltb,
}
use micro_store.Assoc.{Key}
use micro_store.FileStore.Index.{of_uint24, to_uint24}
use micro_store.Utility.{crc32, complement}
use micro_store.FileStore.Layout.{
  RecordHeader, header_size, commit_size, max_key_len, max_value_len,
}
use micro_store.FileStore.Layout.RoundTrip.{HeaderFits}
use micro_store.FileStore.Files.{FileSystem}
use micro_store.FileStore.Files.Lawful.{IsLawful}
use micro_store.FileStore.Names.{segment_name}
use micro_store.FileStore.State.{FileStore, Clock}
use micro_store.FileStore.Operations.{record_crc, put_header, rotate_segment_if_needed}

-- A store between two operations: nothing waits in the buffer, and the active file is the current
-- segment, which ends at the current offset.
pub record IsReady {D : Type 0} (fs : FileSystem D) (s : FileStore D) : Type 0 where
  pub mounted : s.mounted ≡ true
  pub no_buffer : s.write_buf ≡ []
  pub active : s.active_file ≡ some (segment_name s.base_prefix s.current_segment)
  pub bytes : List ℕ
  pub on_disk : fs.open_read s.disk (segment_name s.base_prefix s.current_segment) ≡ some bytes
  pub offset : s.current_offset ≡ length bytes
  pub segment_small : s.current_segment < 2 ^ 8
  pub offset_small : s.current_offset < 2 ^ 24
  pub index_apart : s.index_file ≢ some (segment_name s.base_prefix s.current_segment)

module _ {D : Type 0} (fs : FileSystem D) (law : IsLawful fs) where
  pub rotate_stays :
      (s : FileStore D) (clock : Clock) (n : ℕ)
      → s.current_offset + n + header_size + commit_size < s.segment_size
      → s.current_offset + n < 2 ^ 32
      → rotate_segment_if_needed fs s clock n ≡ (s, true)
  unfolding rotate_segment_if_needed
  rotate_stays s clock n room small =
      let wrap : (s.current_offset + n) % 2 ^ 32 ≡ s.current_offset + n = omega arith in
      let fits : ltb ((s.current_offset + n) % 2 ^ 32 + header_size + commit_size) s.segment_size
          ≡ true =
        lt→ltb _ _ (omega arith) in
      rw (fits, rotate_segment_if_needed)

-- What a client gives to `put`: a key and a value of legal lengths, and words for the rest.
pub record IsArgument (key : Key) (value : List ℕ) (ttl ts priority : ℕ) : Type 0 where
  pub key_max : length key ≤ max_key_len
  pub value_max : length value ≤ max_value_len
  pub ttl_small : ttl < 2 ^ 32
  pub ts_small : ts < 2 ^ 32
  pub priority_small : priority < 2 ^ 8

record_crc-lt : (h : RecordHeader) (key : Key) (value : List ℕ) → record_crc h key value < 2 ^ 32
unfolding record_crc crc32 complement
record_crc-lt h key value = omega arith

pub put_header-fits :
    (key : Key) (value : List ℕ) (ttl ts priority : ℕ)
    → IsArgument key value ttl ts priority
    → HeaderFits (put_header key value ttl ts priority)
unfolding put_header
put_header-fits key value ttl ts priority a = record {
  magic = omega arith;
  flags = omega arith;
  key_len = omega (arith, a.key_max);
  value_len = omega (arith, a.value_max);
  timestamp = a.ts_small;
  ttl = omega (arith, a.ttl_small);
  priority = a.priority_small;
  crc = record_crc-lt _ key value;
}

-- Three bytes keep the last 24 bits of a word.
pub of_uint24-to_uint24 : (n : ℕ) → of_uint24 (to_uint24 n) ≡ n % 2 ^ 24
unfolding of_uint24 to_uint24
of_uint24-to_uint24 n = omega arith

pub uint24_round : (n : ℕ) → n < 2 ^ 24 → of_uint24 (to_uint24 n) ≡ n
unfolding of_uint24 to_uint24
uint24_round n h = omega arith
