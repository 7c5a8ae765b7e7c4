-- ===== src/Sync/Client.antt =====
-- packages/sync-client/src/client.ts: the engine that keeps the replica and the queue in step with
-- the server.
pub mod State
pub mod Retry
pub mod Batch
pub mod Response
pub mod Storage
pub mod Mutate
pub mod Engine
pub mod Steps
pub mod Closed
pub mod Rounds
pub mod Drain
pub mod Durable
mod Tests
