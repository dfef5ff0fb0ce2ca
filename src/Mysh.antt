-- ===== src/Mysh.antt =====
-- projects/p2/p2a/mysh.c: a shell with background jobs.
pub mod Words
pub mod Commands
pub mod Jobs
mod Tests
pub mod Roundtrip
