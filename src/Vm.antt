-- ===== src/Vm.antt =====
-- projects/p3/p3b/xv6/kernel/kalloc.c and vm.c: physical pages and page tables.
pub mod Frames
pub mod Tables
pub mod Spaces
pub mod View
pub mod Balance
pub mod Release
pub mod Fill
pub mod Grow
pub mod Copies
pub mod Private
pub mod Copied
pub mod Kernel
pub mod SetUp
pub mod Rounds
pub mod Identity
pub mod Own
pub mod Discard
pub mod Forked
pub mod Regions
pub mod Shared
mod Tests
