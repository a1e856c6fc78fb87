-- ===== src/Pairing.antt =====
-- apps/realtime/src/matchmaker.ts: choosing a partner, committing a pairing while other workers do the
-- same, and ending a match.
pub mod Types
pub mod Prepare
pub mod Candidate
pub mod Commit
pub mod Occupancy
pub mod Locks
pub mod Progress
pub mod Alone
pub mod Ending
mod Tests
