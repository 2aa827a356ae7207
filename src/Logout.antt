-- ===== src/Logout.antt =====
-- performRevocation of apps/portal/src/app/api/auth/logout/route.ts, which both handlers run, and the
-- entry of the log that they write. The three cookies are a record, the name that the
-- table has for a user a parameter, and the cookies are cleared in any case. The services also say
-- whether the database takes the revocation of the cookie's refresh token and of all of the user's:
-- where one fails, that is only logged.
pub mod Ended
pub mod Blocked
pub mod Access
use auth_sso.Base.{ℕ, String, Bool, Option, none, some, if◌then◌else◌, truthy_text, ◌&&◌}
use auth_sso.Contracts.{portal_client_id}
use auth_sso.Session.Jti.{JtiStore, revoke_user_access_by_user_id}
use auth_sso.Tokens.Rows.{
  RefreshToken, revoke_refresh_token_by_token_hash, revoke_user_refresh_tokens,
}
use auth_sso.Tokens.Keys.{KeyStore}
use auth_sso.Tokens.Verify.{Jose, PortalJwtClaims, verify_access_token}
use auth_sso.Authz.Identity.{access_token_typ}
use auth_sso.Oauth.Clients.{non_empty}
use auth_sso.Oauth.Endpoints.{OauthState, block_jti}

pub record AuthCookies : Type 0 where
  pub jwt : Option String
  pub login_session : Option String
  pub refresh : Option String

pub record LogoutServices : Type 0 where
  pub jose : Jose
  pub hash_token : String → String
  pub usernames : String → Option String
  pub current_written : Bool
  pub all_written : Bool

-- `user[0]?.username || userId`
abbrev pub named : Option String → String → String
named none user = user
named (some name) user = if truthy_text name then name else user

module _ (sv : LogoutServices) (now : ℕ) where
  -- The claims that are verified, by their subject.
  abbrev pub revoke_claims :
      Option PortalJwtClaims × KeyStore → OauthState → Option String × OauthState
  revoke_claims (none, keys) s = (none, record s { keys = keys })
  revoke_claims (some c, keys) s =
      if truthy_text c.sub
      then (some c.sub, record s { jtis = block_jti now c.jti c.exp s.jtis; keys = keys })
      else (none, record s { keys = keys })

  abbrev pub verified_cookie : String → OauthState → Option PortalJwtClaims × KeyStore
  verified_cookie token s =
      verify_access_token sv.jose token (some portal_client_id) (some access_token_typ) now s.keys
        s.jtis

  abbrev pub revoke_access_jwt : Option String → OauthState → Option String × OauthState
  revoke_access_jwt none s = (none, s)
  revoke_access_jwt (some token) s = revoke_claims (verified_cookie token s) s

  abbrev pub block_decoded : Option PortalJwtClaims → JtiStore → JtiStore
  block_decoded none jtis = jtis
  block_decoded (some c) jtis = block_jti now c.jti c.exp jtis

  -- The payload is decoded, and not verified.
  abbrev pub revoke_login_session_jti : Option String → OauthState → OauthState
  revoke_login_session_jti none s = s
  revoke_login_session_jti (some token) s = record s {
    jtis = block_decoded (sv.jose.decode_payload token) s.jtis;
  }

  abbrev pub revoke_current_refresh : Option String → OauthState → OauthState
  revoke_current_refresh none s = s
  revoke_current_refresh (some token) s =
      if sv.current_written
      then record s {
        tokens = revoke_refresh_token_by_token_hash (sv.hash_token token) none now s.tokens;
      }
      else s

  unfoldable pub revoke_all_user_tokens : String → OauthState → String × OauthState
  revoke_all_user_tokens user s = (
    named (sv.usernames user) user,
    record s {
      tokens = if sv.all_written then revoke_user_refresh_tokens user now s.tokens else s.tokens;
      jtis = (revoke_user_access_by_user_id user now s.jtis).1;
    },
  )

  -- The user and the name that are logged.
  abbrev pub revoke_all : Option String → OauthState → Option (String × String) × OauthState
  revoke_all none s = (none, s)
  revoke_all (some user) s =
      let (name, after) = revoke_all_user_tokens user s in (some (user, name), after)

  unfoldable pub perform_revocation :
      AuthCookies → OauthState → Option (String × String) × OauthState
  perform_revocation cookies s =
      let (user, s1) = revoke_access_jwt (non_empty cookies.jwt) s in
      let s2 = revoke_login_session_jti (non_empty cookies.login_session) s1 in
      revoke_all user (revoke_current_refresh (non_empty cookies.refresh) s2)
