-- ===== src/Tests.antt =====
-- Runs of the program's parts on small inputs, and the theorems at such inputs.
mod Heap
mod Files
mod Store
mod View
mod Restart
mod Tiered
mod Disk
mod Posix
mod Stdio
mod EmptyKey
