-- ===== src/Domain.antt =====
-- packages/domain/src: the data of the contract and the rules that the clients share.
pub mod Types
pub mod Projects
pub mod Lists
pub mod Roles
pub mod Order
pub mod Move
pub mod Threads
pub mod Relocation
pub mod Search
pub mod Memberships
pub mod Dates
mod Tests
