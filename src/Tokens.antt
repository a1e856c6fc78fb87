-- ===== src/Tokens.antt =====
-- packages/database/src/tokens.service.ts: the token ledger over the tables that it writes.
pub mod Types
pub mod Accounts
pub mod Service
pub mod Replay
pub mod Transfers
pub mod Purchases
pub mod Paging
mod Tests
