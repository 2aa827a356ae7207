-- ===== src/Tests.antt =====
-- Concrete data, and the theorems applied to it.
pub mod Data
pub mod Rotations
pub mod Grants
pub mod Caches
pub mod Sessions
pub mod Rules
pub mod Grantors
pub mod Attempts
pub mod Keys
pub mod Clients
pub mod Logins
pub mod Accounts
pub mod Logouts
pub mod Authorizations
