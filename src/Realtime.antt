-- ===== src/Realtime.antt =====
-- The realtime server (apps/realtime/src/server.ts and presence.ts): the socket events and what they
-- send and change.
pub mod Presence
pub mod Hub
pub mod Matches
pub mod Handlers
pub mod Safety
pub mod Lifecycle
pub mod Tips
pub mod Rooms
pub mod Endings
pub mod Housed
pub mod Attempts
pub mod Events
pub mod Keeping
pub mod Kept
pub mod Runs
pub mod Absent
pub mod Unqueued
pub mod Blocks
pub mod Floods
pub mod Ghosts
mod Tests
