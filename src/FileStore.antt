-- ===== src/FileStore.antt =====
-- include/microStore/FileStore.h: `BasicFileStore`, a log in segment files with an index in
-- memory, a copy of the index in a file, and a compaction that a journal protects.
pub mod Layout
pub mod Files
pub mod Names
pub mod Index
pub mod Eviction
pub mod State
pub mod IndexFile
pub mod Scan
pub mod Compaction
pub mod Recovery
pub mod Operations
pub mod Iteration
pub mod View
