-- ===== src/Domain/Auth.antt =====
-- apps/portal/src/domain/auth: the rules of the OAuth endpoints and of the login.
pub mod Authorize
pub mod OauthClient
