-- ===== src/Matching.antt =====
-- packages/shared/src/matchmaking.ts: the pairing policy, as pure functions over snapshots.
pub mod Types
pub mod Stages
pub mod Rules
pub mod Weights
pub mod Score
pub mod Select
pub mod Shards
pub mod Scan
pub mod Patience
pub mod Order
pub mod Best
pub mod Recent
mod Tests
