-- ===== src/Tests/Files.antt =====
-- include/microStore/FileStore.h: its files, their names and the index on small inputs.
use micro_store.Base.{
  ℕ, ◌+◌, ◌<◌, ◌^◌, ◌≡◌, ◌≢◌, refl, false, true, some, [], ◌∷◌, ◌++◌, arith, length, take,
  replicate, ltb, min, if◌then◌else◌, bytes_eq,
}
use micro_store.Assoc.{lookup, IsDistinct}
use micro_store.FileStore.Layout.{
  RecordHeader, Journal, encode_header, journal_magic, magic_record, le16, le32,
}
use micro_store.FileStore.Layout.RoundTrip.{HeaderFits, JournalFits}
use micro_store.FileStore.Names.{codes, segment_name, index_name, journal_name, tmp_name}
use micro_store.FileStore.Names.Distinct.{names_apart, segment_names_differ, names_collide}
use micro_store.FileStore.Index.{IndexMap, index_value, to_uint24}
use micro_store.FileStore.IndexFile.{IndexEntry, load_entries, bulk_chunks}
use micro_store.FileStore.IndexFile.Entries.{AllIndexFit, joined, lookup-load_entries_bulk}
use micro_store.FileStore.Eviction.{Candidate, candidate, evicts_before, prune, victims}
use micro_store.FileStore.Eviction.Rank.{Chosen, victims_rank}
use micro_store.FileStore.Eviction.Limit.{length-prune}
use micro_store.FileStore.Scan.{scan_segment}
use micro_store.FileStore.Scan.Log.{
  Logged, IsLegal, record_bytes, record_size, log_bytes, replay, scan_segment_torn,
}

-- A record of the key 1 and the value 7 8.
abbrev one_header : RecordHeader
one_header = record {
  magic = magic_record;
  flags = 0;
  key_len = 1;
  value_len = 2;
  timestamp = 1000;
  ttl = 60;
  priority = 3;
  crc = 99;
}

abbrev pub one_record : Logged
one_record = record { hdr = one_header; key = 1 ∷ []; value = 7 ∷ 8 ∷ [] }

one_header-HeaderFits : HeaderFits one_header
one_header-HeaderFits = record {
  magic = omega arith;
  flags = omega arith;
  key_len = omega arith;
  value_len = omega arith;
  timestamp = omega arith;
  ttl = omega arith;
  priority = omega arith;
  crc = omega arith;
}

pub one_record-IsLegal : IsLegal one_record
one_record-IsLegal = record {
  fits = one_header-HeaderFits;
  magic = refl;
  key_len = refl;
  value_len = refl;
  key_pos = omega arith;
  key_max = omega arith;
  value_max = omega arith;
}

abbrev some_journal : Journal
some_journal = record { magic = journal_magic; state = 1; next_seg = 2; tmp_valid_size = 300 }

some_journal-JournalFits : JournalFits some_journal
some_journal-JournalFits = record {
  magic = omega arith;
  state = omega arith;
  next_seg = omega arith;
  tmp_valid_size = omega arith;
}

one_log_small : length (log_bytes (one_record ∷ [])) < 2 ^ 32
unfolding log_bytes record_bytes encode_header le32 le16
one_log_small = omega arith

cut_small : 20 < record_size one_record
unfolding record_size
cut_small = omega arith

scan_segment_torn_example :
    scan_segment
      (length (log_bytes (one_record ∷ []) ++ take 20 (record_bytes one_record)))
      true
      0
      (log_bytes (one_record ∷ []) ++ take 20 (record_bytes one_record))
      0
      []
    ≡ replay true 0 0 (one_record ∷ []) []
scan_segment_torn_example =
    scan_segment_torn true 0 20 (one_record ∷ []) one_record [] (one_record-IsLegal, tt)
      one_record-IsLegal cut_small one_log_small

-- Two keys, of which the second is younger.
abbrev two_indexed : IndexMap
two_indexed = (1 ∷ [], index_value 0 0 1000 60 0) ∷ (2 ∷ [], index_value 1 40 1001 0 2) ∷ []

two_indexed-IsDistinct : IsDistinct two_indexed
unfolding lookup bytes_eq
two_indexed-IsDistinct = (refl, (refl, tt))

two_indexed-fit : AllIndexFit two_indexed
unfolding index_value to_uint24
two_indexed-fit = (
  record {
    key = omega arith;
    segment = omega arith;
    off0 = omega arith;
    off1 = omega arith;
    off2 = omega arith;
    timestamp = omega arith;
    ttl0 = omega arith;
    ttl1 = omega arith;
    ttl2 = omega arith;
    priority = omega arith;
  },
  (
    record {
      key = omega arith;
      segment = omega arith;
      off0 = omega arith;
      off1 = omega arith;
      off2 = omega arith;
      timestamp = omega arith;
      ttl0 = omega arith;
      ttl1 = omega arith;
      ttl2 = omega arith;
      priority = omega arith;
    },
    tt,
  ),
)

length-prune_example :
    (length (prune 0 1 two_indexed).0
      ≡ (if ltb 0 1 then min (length two_indexed) 1 else length two_indexed))
    × (length (prune 0 1 two_indexed).0 + (prune 0 1 two_indexed).1 ≡ length two_indexed)
length-prune_example = length-prune 0 1 two_indexed two_indexed-IsDistinct

second_is_found : lookup (2 ∷ []) two_indexed ≡ some (index_value 1 40 1001 0 2)
unfolding lookup bytes_eq
second_is_found = refl

victims_rank_example :
    (victim : Candidate) × ((victims 0 1 two_indexed ≡ victim ∷ [])
      × Chosen 0 two_indexed victim
      × (evicts_before (candidate 0 (2 ∷ [], index_value 1 40 1001 0 2)) victim ≡ false))
victims_rank_example =
    victims_rank 0 two_indexed (2 ∷ []) (index_value 1 40 1001 0 2) second_is_found

lookup-load_entries_bulk_example :
    lookup (2 ∷ []) (
      load_entries
        (length (joined (bulk_chunks two_indexed)))
        (joined (bulk_chunks two_indexed))
        [])
    ≡ lookup (2 ∷ []) two_indexed
lookup-load_entries_bulk_example =
    lookup-load_entries_bulk two_indexed (2 ∷ []) two_indexed-IsDistinct two_indexed-fit

-- A put of the key 1 and then its removal.
abbrev put_entry : IndexEntry
put_entry = record { key = 1 ∷ []; seg = 0; off = 0; ts = 1000; ttl = 60; priority = 0 }

abbrev remove_entry : IndexEntry
remove_entry = record { key = 1 ∷ []; seg = 0xffff_ffff; off = 0; ts = 0; ttl = 0; priority = 0 }

names_apart_example :
    (segment_name (codes "p") 3 ≢ index_name (codes "p"))
    × (segment_name (codes "p") 3 ≢ journal_name (codes "p"))
    × (segment_name (codes "p") 3 ≢ tmp_name (codes "p"))
    × (index_name (codes "p") ≢ journal_name (codes "p"))
    × (index_name (codes "p") ≢ tmp_name (codes "p"))
    × (journal_name (codes "p") ≢ tmp_name (codes "p"))
names_apart_example = names_apart (codes "p") 3 (omega arith)

three_is_not_four : ◌≢◌ {A = ℕ} 3 4
three_is_not_four e = absurd (omega arith)

segment_names_differ_example : segment_name (codes "p") 3 ≢ segment_name (codes "p") 4
segment_names_differ_example =
    segment_names_differ (codes "p") 3 4 (omega arith) (omega arith) (omega arith) three_is_not_four

names_collide_example :
    (segment_name (replicate 63 97) 3 ≡ index_name (replicate 63 97))
    × (journal_name (replicate 63 97) ≡ index_name (replicate 63 97))
    × (tmp_name (replicate 63 97) ≡ index_name (replicate 63 97))
names_collide_example = names_collide (replicate 63 97) 3 (omega arith)
