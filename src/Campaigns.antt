-- ===== src/Campaigns.antt =====
-- packages/database/src/campaigns.service.ts: promotional grants of tokens, and their administration.
pub mod Types
pub mod Claim
pub mod Service
pub mod Steps
pub mod Once
pub mod Closing
mod Tests
