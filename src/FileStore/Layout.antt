-- ===== src/FileStore/Layout.antt =====
-- FileStore.h: the packed records of a segment and of the journal, as bytes, low byte first.
pub mod RoundTrip
use micro_store.Base.{ℕ, ◌+◌, ◌*◌, ◌/◌, ◌%◌, ◌^◌, List, [], ◌∷◌, ◌++◌, get_or, length, take, some}
use micro_store.Assoc.{Key}
use micro_store.Utility.{crc32}

abbrev pub magic_record : ℕ
magic_record = 0xc0de_c0de

abbrev pub magic_commit : ℕ
magic_commit = 0xface_b00c

abbrev pub flag_delete : ℕ
flag_delete = 1

abbrev pub journal_magic : ℕ
journal_magic = 0x4b56_4a4e

-- USTORE_MAX_KEY_LEN, USTORE_MAX_VALUE_LEN, USTORE_WRITE_BUFFER_SIZE
abbrev pub max_key_len : ℕ
max_key_len = 64

abbrev pub max_value_len : ℕ
max_value_len = 1024

abbrev pub write_buffer_size : ℕ
write_buffer_size = 512

-- sizeof(RecordHeader), sizeof(RecordCommit), sizeof(Journal)
abbrev pub header_size : ℕ
header_size = 21

abbrev pub commit_size : ℕ
commit_size = 4

abbrev pub journal_size : ℕ
journal_size = 16

pub record RecordHeader : Type 0 where
  pub magic : ℕ
  pub flags : ℕ
  pub key_len : ℕ
  pub value_len : ℕ
  pub timestamp : ℕ
  pub ttl : ℕ
  pub priority : ℕ
  pub crc : ℕ

pub record Journal : Type 0 where
  pub magic : ℕ
  pub state : ℕ
  pub next_seg : ℕ
  pub tmp_valid_size : ℕ

unfoldable pub le16 : ℕ → List ℕ
le16 v = v % 256 ∷ v / 256 % 256 ∷ []

unfoldable pub le32 : ℕ → List ℕ
le32 v = v % 256 ∷ v / 256 % 256 ∷ v / 65536 % 256 ∷ v / 16777216 % 256 ∷ []

-- The word at byte `i` of a buffer.
unfoldable pub at16 : List ℕ → ℕ → ℕ
at16 bs i = get_or bs i 0 + 256 * get_or bs (i + 1) 0

unfoldable pub at32 : List ℕ → ℕ → ℕ
at32 bs i =
    get_or bs i 0
    + 256 * get_or bs (i + 1) 0
    + 65536 * get_or bs (i + 2) 0
    + 16777216 * get_or bs (i + 3) 0

unfoldable pub encode_header : RecordHeader → List ℕ
encode_header h =
    le32 h.magic
    ++ (h.flags ∷ h.key_len ∷ le16 h.value_len
        ++ (le32 h.timestamp ++ (le32 h.ttl ++ (h.priority ∷ le32 h.crc))))

-- A read of 21 bytes into the packed struct.
unfoldable pub decode_header : List ℕ → RecordHeader
decode_header bs = record {
  magic = at32 bs 0;
  flags = get_or bs 4 0;
  key_len = get_or bs 5 0;
  value_len = at16 bs 6;
  timestamp = at32 bs 8;
  ttl = at32 bs 12;
  priority = get_or bs 16 0;
  crc = at32 bs 17;
}

unfoldable pub encode_journal : Journal → List ℕ
encode_journal j = le32 j.magic ++ (le32 j.state ++ (le32 j.next_seg ++ le32 j.tmp_valid_size))

unfoldable pub decode_journal : List ℕ → Journal
decode_journal bs = record {
  magic = at32 bs 0;
  state = at32 bs 4;
  next_seg = at32 bs 8;
  tmp_valid_size = at32 bs 12;
}
