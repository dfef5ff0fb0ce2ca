-- ===== src/Sort.antt =====
-- projects/p1/p1a: programs that sort a file of records by their keys.
pub mod Files
pub mod Records
pub mod Reads
pub mod Writes
pub mod Permuted
pub mod Ordered
pub mod Unique
pub mod Cut
pub mod Generate
pub mod Dump
pub mod Listed
pub mod Chain
pub mod Blocks
pub mod Separate
mod Tests
