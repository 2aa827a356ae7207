-- ===== src/Oauth/AuthRequests.antt =====
-- The data of apps/portal/src/app/api/auth/oauth2/authorize/route.ts, the requests that
-- lib/session/auth-request-store.ts keeps in Redis, and the clients that may ask. The columns `id` and
-- `state` of a code, which nothing reads, are left out.
use auth_sso.Base.{
  ℕ, ◌+◌, ◌*◌, String, Option, none, some, List, ◌==◌, ltb, if◌then◌else◌, find, lookup, insert,
  remove,
}
use auth_sso.Contracts.{UserStatus, EntityStatus}
use auth_sso.Errors.{DomainError, Result, ok, err, invalid_client_error}
use auth_sso.Domain.Auth.Authorize.{AuthorizeRole, AuthorizationErrorCode}
use auth_sso.Domain.Auth.OauthClient.{validate_client_active}
use auth_sso.Session.Jti.{JtiStore}
use auth_sso.Tokens.Codes.{AuthorizationCode}
use auth_sso.Tokens.Keys.{KeyStore}
use auth_sso.Tokens.Verify.{Jose}

pub record StoredAuthRequest : Type 0 where
  pub client_id : String
  pub redirect_uri : String
  pub scope : String
  pub state : String
  pub nonce : Option String
  pub code_challenge : String
  pub code_challenge_method : String
  pub binding : String

pub record AuthClient : Type 0 where
  pub client_id : String
  pub status : EntityStatus
  pub redirect_uris : List String
  pub scopes : String

pub record UserWithRoleClients : Type 0 where
  pub status : UserStatus
  pub roles : List AuthorizeRole

pub record AuthorizeServices : Type 0 where
  pub jose : Jose
  pub hash_token : String → String
  pub clients : List AuthClient
  pub users : String → Option UserWithRoleClients

pub record StoredEntry : Type 0 where
  pub request : StoredAuthRequest
  pub deadline : ℕ

pub record AuthorizeState : Type 0 where
  pub codes : List AuthorizationCode
  pub requests : List (String × StoredEntry)
  pub jtis : JtiStore
  pub keys : KeyStore

-- What the generators draw: the code, a session id and a binding; and the time.
pub record AuthorizeDraws : Type 0 where
  pub code : String
  pub session_id : String
  pub binding : String
  pub now : ℕ

pub record BrowserCookies : Type 0 where
  pub login_session : Option String
  pub jwt : Option String
  pub binding : Option String

pub data DeniedBy : Type 0 where
  by_error : DomainError → DeniedBy
  no_user : DeniedBy
  by_access : AuthorizationErrorCode → String → DeniedBy

-- A page of the portal that shows an error, the login page with the binding that its cookie gets, a
-- redirection to the client with an error, and one with a code; these two carry the state.
pub data AuthorizeAnswer : Type 0 where
  invalid_request : AuthorizeAnswer
  session_expired : AuthorizeAnswer
  error_page : DomainError → AuthorizeAnswer
  login_page : String → Option String → AuthorizeAnswer
  denied : String → DeniedBy → String → AuthorizeAnswer
  code_sent : String → String → String → AuthorizeAnswer

abbrev pub auth_request_ttl : ℕ
auth_request_ttl = 300

abbrev pub code_ttl : ℕ
code_ttl = 5 * 60 * 1000

abbrev pub portal_aud : String
portal_aud = "auth-sso"

abbrev pub login_session_typ : String
login_session_typ = "login+jwt"

unfoldable pub store_auth_request : String → StoredAuthRequest → ℕ → AuthorizeState → AuthorizeState
store_auth_request id request now s = record s {
  requests =
      insert id (record { request = request; deadline = now + auth_request_ttl * 1000 }) s.requests;
}

abbrev pub live_request : ℕ → Option StoredEntry → Option StoredAuthRequest
live_request now none = none
live_request now (some e) = if ltb now e.deadline then some e.request else none

-- GETDEL
unfoldable pub get_stored_auth_request :
    String → ℕ → AuthorizeState → Option StoredAuthRequest × AuthorizeState
get_stored_auth_request id now s =
    (live_request now (lookup id s.requests), record s { requests = remove id s.requests })

abbrev pub checked_client : Option AuthClient → Result AuthClient
checked_client none = elim (validate_client_active none) [
  | ok _ ↦ err (invalid_client_error "该应用系统已停用或不存在，请联系管理员。")
  | err e ↦ err e
]
checked_client (some c) = elim (validate_client_active (some c.status)) [
  | ok _ ↦ ok c
  | err e ↦ err e
]

abbrev pub active_client : List AuthClient → String → Result AuthClient
active_client clients id = checked_client (find (λ c. c.client_id == id) clients)
