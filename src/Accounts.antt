-- ===== src/Accounts.antt =====
-- Accounts: moderation (apps/api/src/services/moderation.service.ts), authentication
-- (apps/api/src/services/auth.service.ts), restrictions (packages/database/src/queries.ts), the
-- scheduled jobs (apps/worker/src/jobs.ts) and the gate of the sockets
-- (apps/realtime/src/socket-auth.ts), which all write or read one account table.
pub mod Types
pub mod Restrictions
pub mod Moderation
pub mod Decisions
pub mod Auth
pub mod Refresh
pub mod Registration
pub mod Recovery
pub mod Gate
pub mod Jobs
pub mod Calls
pub mod Machine
pub mod Checks
pub mod Owners
pub mod Writes
pub mod Staff
pub mod Eviction
pub mod Verdicts
pub mod Laundering
pub mod Secrets
pub mod Resets
pub mod Lockout
pub mod Upkeep
mod Tests
