-- ===== src/Stats.antt =====
-- projects/p3/p3a: clients claim buffers of a shared page, and a server prints them.
pub mod Page
pub mod Owners
mod Tests
