-- ===== src/Lib.antt =====
-- microStore: a key-value store for small devices, from include/microStore/. The development
-- models its stores, with crashes, the limits on records and the casts of lengths included.
--
-- Parts and files:
--   HeapStore       HeapStore.h, `BasicHeapStore`: a store in a sorted map. HeapStore/Order,
--                   Bounds, View and Expiry are about its order, its limit, its specification as a
--                   partial function and its times to live; HeapStore/Iteration is the iterator.
--   FileStore       FileStore.h, `BasicFileStore`: records appended to segment files, an index in
--                   memory and a copy of it in a file, compaction under a journal. Its children
--                   follow the header: Layout (packed structs), Names (file names), Index, Eviction
--                   (limit and time to live), State (fields, write buffer), IndexFile, Scan (walks
--                   over segments), Compaction, Recovery (`init`, `clear`, `close`), Operations
--                   (`put`, `get`, `remove`, ...), Iteration (iterator, `dumpInfo`). Their own
--                   children (RoundTrip, Distinct, Limit, Rank, Buffer, Entries, Torn, Writes, Log,
--                   Crash) hold the theorems about them. Of those of Operations, Append is about
--                   a record on its way to the file, Quiet about the threshold of a compaction,
--                   Indexed and Stored about the two halves of `put`, PutGet about a `get` behind it,
--                   EmptyKey about walks over a segment behind a `put` of the empty key.
--   FileStore/View  the store as a partial function from keys to values with their times: View says
--                   what represents it, Append, Rotate, Put, Remove and Get are about one operation
--                   each, and Run about sequences of calls. Saved says what the disk keeps of it for
--                   the next `init`, Steps and Start are about `init` there, Restart about `init` behind calls,
--                   and New about `init` on a disk without files of the store.
--   FileStore/Files File.h and FileSystem.h: the file system is a parameter, a record of the methods
--                   that FileStore.h calls. Files/Lawful states what the store relies on,
--                   Files/Checked is `File` with its checksum, Files/Whole `readFile`, `writeFile`.
--   TypedStore      TypedStore.h and Codec.h: typed keys and values over a record of operations,
--                   which TypedStore/Heap fills with those of a memory store.
--   TypedTieredStore
--                   TypedTieredStore.h: a cache of typed records over a store. Slots, Links, Methods
--                   and Iteration are the header's slots, the functions on the links, the methods
--                   and the iterator. Chain, Cut and Shape say what the links spell: a list of use
--                   and a chain for each bucket. Use, Find, Hash, Keep, Empty, Fill, Payload, Allocate,
--                   Invariant, Keeping and Reached lead to the invariant; Reading, Syncing,
--                   Evicting and Progress are about what the methods give.
--   Utility         Utility.h: `crc32`; Utility/Chaining is about its loop.
--   NoopFileSystem  Adapters/NoopFileSystem.h.
--   PosixFile       Adapters/PosixFileSystem.h over the system calls as parameters: `FileImpl`, and in
--                   PosixFile/System `FileSystemImpl`, on a host that is no ESP32.
--                   PosixFile/Available is about the count of the bytes left to read.
--   StdioFile       Adapters/StdioFileSystem.h in the same way over the functions of the C library.
--   MemoryDisk      a file system in memory that keeps the laws, to run the store on.
--   Base, Assoc     what the parts share. Tests has runs on small inputs.
--
-- How code and model correspond: a method is a function from the state to the state and its result,
-- `none` is the result false where a method gives a value. Names are those of the source; an overload
-- for vectors has the suffix `_vector`. A number of w bits is a natural number with its wrap-around
-- written out. A clock reading is an argument, taken once in a call. `std::map` is a list in order of
-- the keys and `std::unordered_map` a list in order of insertion; `std::partial_sort` keeps the order
-- of equal candidates. A file is the name it was opened under. The time to live and the priority in
-- the header of a tombstone, which `remove` leaves unset, are arguments. Sizes are those of the
-- default configuration. Pointers of keys and values are not null.
--
-- In the tiered store INVALID is `none`, the two arrays are functions of the index, and the cache has
-- at most 2^15 slots, so that an index fits the int16_t of the header; the hash is a parameter.
--
-- Bounds and fuel: a walk over a file has a round for each of its bytes, and a round takes at least
-- one (an index entry 18, a record 24); `append_buffer` has a round for each byte. Loops over the
-- segments have `segment_count` rounds, and a walk along a hash chain has as many as the cache slots,
-- which is the most that a chain has: with fewer it has no result, which `find_l1` takes for none.
--
-- Not modelled: the other adapters over real file systems, the clock, Stream.h, Print.h, the logging,
-- the overloads for C strings, the programs, tests and board files.
pub mod Base
pub mod Assoc
pub mod HeapStore
pub mod Utility
pub mod FileStore
pub mod TypedStore
pub mod TypedTieredStore
pub mod MemoryDisk
pub mod NoopFileSystem
pub mod PosixFile
pub mod StdioFile
mod Tests
