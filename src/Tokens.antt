-- ===== src/Tokens.antt =====
-- apps/portal/src/lib/auth/token.ts and token/revocation.ts: lifetimes, the table of refresh
-- tokens with its revocations, and rotation.
pub mod Ttl
pub mod Access
pub mod Rows
pub mod Keys
pub mod Verify
pub mod Rotation
pub mod Codes
pub mod Pkce
pub mod Grant
