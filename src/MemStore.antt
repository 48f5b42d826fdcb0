-- ===== src/MemStore.antt =====
-- stores/memstore: the state of the in-memory store. Each method takes the lock for its whole body,
-- so it is one function on the state; the operations are in the modules below.
pub mod State
pub mod Users
pub mod Listing
pub mod Memberships
pub mod Credentials
pub mod Roles
pub mod ApiKeys
pub mod RefreshTokens
pub mod Oauth
pub mod Keys
pub mod Cascade
pub mod Purge
pub mod Lookups
pub mod KeyLife
pub mod Updates
pub mod Bindings
pub mod Branches
pub mod Races
mod Examples
