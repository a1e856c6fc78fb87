-- ===== src/Social.antt =====
-- apps/api/src/routes/connections.routes.ts and the blocks of apps/api/src/routes/safety.routes.ts:
-- who may ask whom to stay in touch, and who is connected.
pub mod Connections
pub mod Steps
pub mod Agreement
pub mod Separation
mod Tests
