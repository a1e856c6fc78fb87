-- ===== src/Client.antt =====
-- The conversation in the browser: the hook of apps/web/src/hooks/use-conversation.ts, with the
-- controls of the discover page, and what it comes to with the server.
pub mod Types
pub mod Actions
pub mod Frames
pub mod Inputs
pub mod Overwritten
pub mod Sound
pub mod Together
pub mod Delivery
pub mod Stranded
pub mod Late
pub mod Page
mod Tests
