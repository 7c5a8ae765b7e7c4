-- ===== src/Api.antt =====
-- packages/api-client/src/index.ts: the session of the REST client.
pub mod Session
pub mod Refresh
mod Tests
