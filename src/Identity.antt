-- ===== src/Identity.antt =====
-- Package identity.
pub mod Errors
pub mod Entities
pub mod Options
pub mod World
pub mod Policy
pub mod Lockout
pub mod Accounts
pub mod Action
pub mod TokenService
pub mod ApiKeys
pub mod RoleManager
pub mod TwoFactor
pub mod Guests
pub mod SignIn
mod Examples
