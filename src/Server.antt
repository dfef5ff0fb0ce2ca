-- ===== src/Server.antt =====
-- projects/p4/p4a: a web server of one master and a pool of worker threads.
pub mod State
pub mod Threads
pub mod Ring
pub mod Progress
pub mod Uri
pub mod Request
mod Tests
