-- ===== src/Events.antt =====
-- packages/db/src/events.ts: the transactions by which a conversation and its runs change.
pub mod Server
pub mod Operations
pub mod Consistent
pub mod Transitions
pub mod Stale
pub mod Clear
pub mod Send
pub mod Answer
pub mod Pause
pub mod Release
pub mod Finalize
pub mod Follow
