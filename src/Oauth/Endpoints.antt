-- ===== src/Oauth/Endpoints.antt =====
-- The endpoints oauth2/revoke and oauth2/introspect of apps/portal/src/app/api. The credentials are what
-- `resolveClientCredentials` answers. `written` says whether the database takes the revocation of the
-- refresh token: where it fails, the answer is the same. That it fails elsewhere, where both endpoints
-- answer as if the token were unknown, is not modelled.
pub mod Revoked
pub mod Foreign
use auth_sso.Base.{
  ℕ, String, Bool, true, false, not, ◌&&◌, Option, none, some, List, ◌==◌, ltb, if◌then◌else◌, find,
  truthy_text, nat_eq,
}
use auth_sso.Errors.{Result, ok, err}
use auth_sso.Session.Jti.{JtiStore, revoke_jti}
use auth_sso.Tokens.Rows.{RefreshToken, is_revoked, revoke_refresh_token_by_token_hash}
use auth_sso.Tokens.Keys.{KeyStore}
use auth_sso.Tokens.Verify.{Jose, PortalJwtClaims, verify_access_token}
use auth_sso.Authz.Identity.{access_token_typ}
use auth_sso.Oauth.Clients.{
  ClientCredentials, ClientRow, Hashing, non_empty, authenticate_oauth_client,
}

pub record OauthServices : Type 0 where
  pub jose : Jose
  pub hashing : Hashing
  pub hash_token : String → String
  pub clients : List ClientRow
  pub written : Bool

pub record OauthState : Type 0 where
  pub tokens : List RefreshToken
  pub jtis : JtiStore
  pub keys : KeyStore

-- The client that is authenticated, or none.
unfoldable pub caller : OauthServices → Result ClientCredentials → Option String
caller sv (err e) = none
caller sv (ok creds) =
    elim (authenticate_oauth_client sv.hashing sv.clients creds.client_id creds.client_secret) [
      | ok _ ↦ some creds.client_id
      | err _ ↦ none
    ]

-- `claims?.client_id === creds.clientId`
abbrev pub is_own : String → PortalJwtClaims → Bool
is_own client c = elim c.client_id [ none ↦ false | some id ↦ id == client ]

-- Both the jti and the expiry are there, and truthy.
abbrev pub block_jti : ℕ → Option String → Option ℕ → JtiStore → JtiStore
block_jti now (some jti) (some exp) jtis =
    if truthy_text jti && not (nat_eq exp 0) then revoke_jti jti exp now jtis else jtis
block_jti now _ _ jtis = jtis

abbrev pub block_own : String → ℕ → Option PortalJwtClaims → JtiStore → JtiStore
block_own client now none jtis = jtis
block_own client now (some c) jtis =
    if is_own client c then block_jti now c.jti c.exp jtis else jtis

abbrev pub verified : OauthServices → String → ℕ → OauthState → Option PortalJwtClaims × KeyStore
verified sv token now s =
    verify_access_token sv.jose token none (some access_token_typ) now s.keys s.jtis

abbrev pub revoke_token : OauthServices → String → String → ℕ → OauthState → OauthState
revoke_token sv client token now s = record {
  tokens =
      if sv.written
      then revoke_refresh_token_by_token_hash (sv.hash_token token) (some client) now s.tokens
      else s.tokens;
  jtis = block_own client now (verified sv token now s).0 s.jtis;
  keys = (verified sv token now s).1;
}

pub data RevokeAnswer : Type 0 where
  invalid_client done : RevokeAnswer

abbrev pub revoke_given :
    OauthServices → String → Option String → ℕ → OauthState → RevokeAnswer × OauthState
revoke_given sv client none now s = (done, s)
revoke_given sv client (some token) now s = (done, revoke_token sv client token now s)

abbrev pub revoke_by :
    OauthServices → Option String → Option String → ℕ → OauthState → RevokeAnswer × OauthState
revoke_by sv none token now s = (invalid_client, s)
revoke_by sv (some client) token now s = revoke_given sv client (non_empty token) now s

-- POST /api/auth/oauth2/revoke
unfoldable pub revoke_endpoint :
    OauthServices
    → Result ClientCredentials
    → Option String
    → ℕ
    → OauthState
    → RevokeAnswer × OauthState
revoke_endpoint sv creds token now s = revoke_by sv (caller sv creds) token now s

-- The answers to an introspection: for a refresh token also whether it is active.
pub data Introspection : Type 0 where
  refused : Introspection
  unknown : Introspection
  access : PortalJwtClaims → Introspection
  refresh : Bool → RefreshToken → Introspection

abbrev pub is_active : Introspection → Bool
is_active refused = false
is_active unknown = false
is_active (access c) = true
is_active (refresh active row) = active

abbrev pub by_row : ℕ → Option RefreshToken → Introspection
by_row now none = unknown
by_row now (some row) = refresh (not (is_revoked row) && not (ltb row.expires_at now)) row

abbrev find_own : String → String → List RefreshToken → Option RefreshToken
find_own hash client = find (λ row. row.token_hash == hash && row.client_id == client)

abbrev pub introspect_claims :
    OauthServices → String → String → ℕ → List RefreshToken → Option PortalJwtClaims → Introspection
introspect_claims sv client token now rows none =
    by_row now (find_own (sv.hash_token token) client rows)
introspect_claims sv client token now rows (some c) =
    if is_own client c then access c else by_row now (find_own (sv.hash_token token) client rows)

abbrev pub introspect_given :
    OauthServices → String → Option String → ℕ → OauthState → Introspection × OauthState
introspect_given sv client none now s = (unknown, s)
introspect_given sv client (some token) now s = (
  introspect_claims sv client token now s.tokens (verified sv token now s).0,
  record s { keys = (verified sv token now s).1 },
)

abbrev pub introspect_by :
    OauthServices → Option String → Option String → ℕ → OauthState → Introspection × OauthState
introspect_by sv none token now s = (refused, s)
introspect_by sv (some client) token now s = introspect_given sv client (non_empty token) now s

-- POST /api/auth/oauth2/introspect
unfoldable pub introspect_endpoint :
    OauthServices
    → Result ClientCredentials
    → Option String
    → ℕ
    → OauthState
    → Introspection × OauthState
introspect_endpoint sv creds token now s = introspect_by sv (caller sv creds) token now s
