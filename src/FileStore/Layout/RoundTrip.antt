-- ===== src/FileStore/Layout/RoundTrip.antt =====
-- FileStore.h: the structs written to a file are read back as they were.
use micro_store.Base.{ℕ, ◌^◌, ◌<◌, ◌≡◌, refl, length, arith}
use micro_store.FileStore.Layout.{
  RecordHeader, Journal, le16, le32, at16, at32, encode_header, decode_header, encode_journal,
  decode_journal, header_size,
}

-- The fields fit their words.
pub record HeaderFits (h : RecordHeader) : Type 0 where
  pub magic : h.magic < 2 ^ 32
  pub flags : h.flags < 2 ^ 8
  pub key_len : h.key_len < 2 ^ 8
  pub value_len : h.value_len < 2 ^ 16
  pub timestamp : h.timestamp < 2 ^ 32
  pub ttl : h.ttl < 2 ^ 32
  pub priority : h.priority < 2 ^ 8
  pub crc : h.crc < 2 ^ 32

pub record JournalFits (j : Journal) : Type 0 where
  pub magic : j.magic < 2 ^ 32
  pub state : j.state < 2 ^ 32
  pub next_seg : j.next_seg < 2 ^ 32
  pub tmp_valid_size : j.tmp_valid_size < 2 ^ 32

word : (v : ℕ) → v < 2 ^ 32 → at32 (le32 v) 0 ≡ v
unfolding at32 le32
word v h = omega arith

half : (v : ℕ) → v < 2 ^ 16 → at16 (le16 v) 0 ≡ v
unfolding at16 le16
half v h = omega arith

-- The four bytes of a word make the word.
pub at32-le32 : (v : ℕ) → v < 2 ^ 32 → at32 (le32 v) 0 ≡ v
at32-le32 = word

-- A header whose fields fit their widths takes 21 bytes, and reading them gives the header back.
pub decode_header-encode_header :
    (h : RecordHeader)
    → HeaderFits h
    → (length (encode_header h) ≡ header_size) × (decode_header (encode_header h) ≡ h)
unfolding encode_header decode_header le16 le32 at16 at32
decode_header-encode_header h f = (
  refl,
  λ i. record {
    magic = word h.magic f.magic i;
    flags = h.flags;
    key_len = h.key_len;
    value_len = half h.value_len f.value_len i;
    timestamp = word h.timestamp f.timestamp i;
    ttl = word h.ttl f.ttl i;
    priority = h.priority;
    crc = word h.crc f.crc i;
  },
)

-- A journal whose fields are words takes 16 bytes, and reading them gives the journal back.
pub decode_journal-encode_journal :
    (j : Journal)
    → JournalFits j
    → (length (encode_journal j) ≡ 16) × (decode_journal (encode_journal j) ≡ j)
unfolding encode_journal decode_journal le32 at32
decode_journal-encode_journal j f = (
  refl,
  λ i. record {
    magic = word j.magic f.magic i;
    state = word j.state f.state i;
    next_seg = word j.next_seg f.next_seg i;
    tmp_valid_size = word j.tmp_valid_size f.tmp_valid_size i;
  },
)
