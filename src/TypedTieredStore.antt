-- ===== src/TypedTieredStore.antt =====
-- include/microStore/TypedTieredStore.h: a cache of slots in memory (L1) before a store (L2). The
-- valid slots stand in a list in the order of use and in chains from hash buckets.
pub mod Slots
pub mod Links
pub mod Methods
pub mod Iteration
pub mod Chain
pub mod Cut
pub mod Shape
pub mod Use
pub mod Find
pub mod Hash
pub mod Keep
pub mod Empty
pub mod Fill
pub mod Payload
pub mod Allocate
pub mod Invariant
pub mod Keeping
pub mod Reading
pub mod Syncing
pub mod Reached
pub mod Evicting
pub mod Progress
