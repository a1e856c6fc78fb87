-- ===== src/Queue.antt =====
-- apps/realtime/src/queue.repository.ts: the queue, the occupancy records, the live matches, the
-- pairing locks and the caches that every realtime node shares in Redis.
pub mod Store
pub mod Sets
pub mod Repository
pub mod Registry
pub mod Commands
pub mod Indexed
pub mod Scans
mod Tests
