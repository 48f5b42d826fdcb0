-- ===== src/Oauth.antt =====
-- Package oauth.
pub mod Types
pub mod Scopes
pub mod Urls
pub mod Server
pub mod Clients
pub mod Token
pub mod Refresh
pub mod Manage
pub mod Revoke
pub mod Register
pub mod Cimd
pub mod Assertion
pub mod Limiter
pub mod Authorize
mod Examples
