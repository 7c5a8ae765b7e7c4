-- ===== src/Sync.antt =====
-- packages/sync-client/src: the local replica and the engine that keeps it in step with the server.
pub mod Recurrence
pub mod Samples
pub mod Replica
pub mod Apply
pub mod Protocol
pub mod Rewrite
pub mod Client
