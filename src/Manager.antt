-- ===== src/Manager.antt =====
-- The manager thread of a rank: libdthread/dt_mgrthread.c, with the state that it works on.
pub mod State
pub mod Replies
pub mod Shutdown
pub mod Create
pub mod Handlers
pub mod Dispatch
pub mod Wrapper
pub mod Main
pub mod Startup
pub mod Pending
pub mod Tables
pub mod Router
pub mod Counts
pub mod Join
pub mod RoundTrip
pub mod Broadcast
pub mod Cleanup
pub mod Ending
pub mod Detach
pub mod Samples
mod Tests
