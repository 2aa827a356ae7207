-- ===== src/Oauth.antt =====
-- The OAuth endpoints of apps/portal/src/app/api/auth/oauth2 that clients call with their credentials.
pub mod Clients
pub mod Endpoints
pub mod AuthRequests
pub mod Authorization
