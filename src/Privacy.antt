-- ===== src/Privacy.antt =====
-- packages/shared/src/privacy.ts: what of a user reaches another one, and ages; and of utils.ts beside it
-- the sanitising of texts and the rollout of flags.
pub mod Profile
pub mod Display
pub mod Rollout
pub mod Age
pub mod Brackets
mod Tests
