-- ===== src/Mlfq.antt =====
-- projects/p2/p2b/xv6/xv6/kernel/proc.c: the process table with multi-level feedback scheduling.
pub mod State
pub mod Calls
pub mod Scheduler
pub mod Census
pub mod Birth
pub mod Tidy
pub mod Keeps
pub mod Demote
pub mod Priority
pub mod Pass
pub mod Choice
pub mod Livelock
pub mod Starvation
pub mod Report
pub mod Effects
pub mod Steps
pub mod Boost
mod Tests
