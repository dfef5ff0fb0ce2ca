-- ===== src/Shm.antt =====
-- projects/p3/p3b/xv6: shared memory regions that processes attach to by key.
pub mod State
pub mod Calls
pub mod Refs
pub mod Keeps
pub mod Fork
pub mod Attach
pub mod Access
pub mod Safety
pub mod Grow
pub mod Others
pub mod Children
pub mod Steps
pub mod Preserved
pub mod Safe
mod Tests
