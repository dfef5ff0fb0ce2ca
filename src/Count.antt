-- ===== src/Count.antt =====
-- projects/p1/p1b/xv6/kernel/syscall.c: the number of system calls of a process.
pub mod Calls
pub mod Totals
mod Tests
