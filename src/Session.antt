-- ===== src/Session.antt =====
-- apps/portal/src/lib/session: the revocation of access tokens by their jti.
pub mod Jti
