-- ===== src/Oauth/Authorization.antt =====
-- GET of apps/portal/src/app/api/auth/oauth2/authorize/route.ts. The query's
-- parameters are an argument, none where zod refuses them, and what data.ts reads of a user is a
-- parameter. Where Redis fails, the handler answers with an error page and issues no code; that is
-- not modelled.
pub mod Issued
pub mod Consumed
use auth_sso.Base.{
  ℕ, ◌+◌, ◌*◌, String, Bool, true, false, not, Option, none, some, List, [], ◌∷◌, ◌++◌, ◌==◌, ltb,
  if◌then◌else◌, find, truthy_text, same_text, lookup, insert, remove,
}
use auth_sso.Contracts.{UserStatus, EntityStatus, portal_client_id}
use auth_sso.Errors.{DomainError, Result, ok, err, Checked, invalid_client_error}
use auth_sso.Domain.Auth.Authorize.{
  AuthorizeRole, AuthorizationErrorCode, AuthorizationResult, allowed, refused, parse_scopes,
  validate_requested_scopes, validate_authorization,
}
use auth_sso.Domain.Auth.OauthClient.{validate_client_active, validate_redirect_uri}
use auth_sso.Session.Jti.{JtiStore}
use auth_sso.Tokens.Codes.{AuthorizationCode}
use auth_sso.Tokens.Keys.{KeyStore}
use auth_sso.Tokens.Verify.{Jose, PortalJwtClaims, verify_access_token}
use auth_sso.Authz.Identity.{access_token_typ}
use auth_sso.Oauth.Clients.{non_empty}
use auth_sso.Oauth.AuthRequests.{
  StoredAuthRequest, AuthClient, UserWithRoleClients, AuthorizeServices, StoredEntry,
  AuthorizeState, AuthorizeDraws, BrowserCookies, DeniedBy, AuthorizeAnswer, auth_request_ttl,
  code_ttl, portal_aud, login_session_typ, store_auth_request, live_request,
  get_stored_auth_request, checked_client, active_client, by_error, no_user, by_access,
  invalid_request, session_expired, error_page, login_page, denied, code_sent,
}

module _ (sv : AuthorizeServices) (d : AuthorizeDraws) where
  unfoldable pub code_row : StoredAuthRequest → AuthClient → String → AuthorizationCode
  code_row p client user = record {
    code = sv.hash_token d.code;
    client_id = client.client_id;
    user_id = user;
    redirect_uri = p.redirect_uri;
    scope = p.scope;
    nonce = non_empty p.nonce;
    code_challenge = some p.code_challenge;
    code_challenge_method = some p.code_challenge_method;
    expires_at = d.now + code_ttl;
    used = some false;
    created_at = d.now;
  }

  abbrev pub after_access :
      StoredAuthRequest
      → String
      → AuthClient
      → AuthorizeState
      → AuthorizationResult
      → AuthorizeAnswer × AuthorizeState
  after_access p user client s (refused code message) =
      (denied p.redirect_uri (by_access code message) p.state, s)
  after_access p user client s allowed = (
    code_sent p.redirect_uri d.code p.state,
    record s { codes = s.codes ++ code_row p client user ∷ [] },
  )

  abbrev pub after_user :
      StoredAuthRequest
      → String
      → AuthClient
      → AuthorizeState
      → Option UserWithRoleClients
      → AuthorizeAnswer × AuthorizeState
  after_user p user client s none = (denied p.redirect_uri no_user p.state, s)
  after_user p user client s (some u) =
      after_access p user client s (validate_authorization client.client_id u.status u.roles)

  abbrev pub after_scopes :
      StoredAuthRequest
      → String
      → AuthClient
      → AuthorizeState
      → Checked
      → AuthorizeAnswer × AuthorizeState
  after_scopes p user client s (err e) = (denied p.redirect_uri (by_error e) p.state, s)
  after_scopes p user client s (ok _) = after_user p user client s (sv.users user)

  abbrev pub requested_check : StoredAuthRequest → AuthClient → Checked
  requested_check p client =
      validate_requested_scopes (parse_scopes p.scope) (parse_scopes client.scopes)

  abbrev pub after_uri :
      StoredAuthRequest
      → String
      → AuthClient
      → AuthorizeState
      → Checked
      → AuthorizeAnswer × AuthorizeState
  after_uri p user client s (err e) = (error_page e, s)
  after_uri p user client s (ok _) = after_scopes p user client s (requested_check p client)

  abbrev pub after_client :
      StoredAuthRequest
      → String
      → AuthorizeState
      → Result AuthClient
      → AuthorizeAnswer × AuthorizeState
  after_client p user s (err e) = (error_page e, s)
  after_client p user s (ok client) =
      after_uri p user client s (validate_redirect_uri client.redirect_uris p.redirect_uri)

  unfoldable pub issue_code_and_redirect :
      StoredAuthRequest → String → AuthorizeState → AuthorizeAnswer × AuthorizeState
  issue_code_and_redirect p user s = after_client p user s (active_client sv.clients p.client_id)

  -- The request that the session id has consumed.
  abbrev pub with_stored :
      String → String → Option StoredAuthRequest × AuthorizeState → AuthorizeAnswer × AuthorizeState
  with_stored cookie user (none, s) = (session_expired, s)
  with_stored cookie user (some p, s) =
      if p.binding == cookie then issue_code_and_redirect p user s else (session_expired, s)

  abbrev pub with_binding :
      String → String → Option String → AuthorizeState → AuthorizeAnswer × AuthorizeState
  with_binding id user none s = (session_expired, s)
  with_binding id user (some cookie) s =
      with_stored cookie user (get_stored_auth_request id d.now s)

  abbrev pub with_session :
      String
      → Option String
      → Option PortalJwtClaims × KeyStore
      → AuthorizeState
      → AuthorizeAnswer × AuthorizeState
  with_session id binding (none, keys) s = (login_page id none, record s { keys = keys })
  with_session id binding (some c, keys) s =
      if same_text c.sid (some id)
      then with_binding id c.sub binding (record s { keys = keys })
      else (session_expired, record s { keys = keys })

  abbrev pub verified_login : String → AuthorizeState → Option PortalJwtClaims × KeyStore
  verified_login token s =
      verify_access_token sv.jose token (some portal_aud) (some login_session_typ) d.now s.keys
        s.jtis

  abbrev pub with_login :
      String → Option String → Option String → AuthorizeState → AuthorizeAnswer × AuthorizeState
  with_login id binding none s = (login_page id none, s)
  with_login id binding (some token) s = with_session id binding (verified_login token s) s

  unfoldable pub handle_session_id_branch :
      BrowserCookies → String → AuthorizeState → AuthorizeAnswer × AuthorizeState
  handle_session_id_branch cookies id s =
      with_login id (non_empty cookies.binding) (non_empty cookies.login_session) s

  -- The login session before the access token, each for its audience and type.
  abbrev existing_session :
      Option String → Option String → AuthorizeState → Option PortalJwtClaims × KeyStore
  existing_session (some login) jwt s = verified_login login s
  existing_session none (some jwt) s =
      verify_access_token sv.jose jwt (some portal_client_id) (some access_token_typ) d.now s.keys
        s.jtis
  existing_session none none s = (none, s.keys)

  abbrev store_and_log_in :
      StoredAuthRequest → AuthClient → AuthorizeState → Checked → AuthorizeAnswer × AuthorizeState
  store_and_log_in p client s (err e) = (denied p.redirect_uri (by_error e) p.state, s)
  store_and_log_in p client s (ok _) = (
    login_page d.session_id (some d.binding),
    store_auth_request d.session_id (record p { nonce = non_empty p.nonce; binding = d.binding })
        d.now s,
  )

  abbrev store_for :
      StoredAuthRequest → AuthClient → AuthorizeState → Checked → AuthorizeAnswer × AuthorizeState
  store_for p client s (err e) = (error_page e, s)
  store_for p client s (ok _) = store_and_log_in p client s (requested_check p client)

  abbrev store_request :
      StoredAuthRequest → AuthorizeState → Result AuthClient → AuthorizeAnswer × AuthorizeState
  store_request p s (err e) = (error_page e, s)
  store_request p s (ok client) =
      store_for p client s (validate_redirect_uri client.redirect_uris p.redirect_uri)

  abbrev by_session :
      StoredAuthRequest
      → AuthorizeState
      → Option PortalJwtClaims × KeyStore
      → AuthorizeAnswer × AuthorizeState
  by_session p s (some c, keys) = issue_code_and_redirect p c.sub (record s { keys = keys })
  by_session p s (none, keys) =
      store_request p (record s { keys = keys }) (active_client sv.clients p.client_id)

  -- The binding of the parameters is drawn, whatever the argument has.
  unfoldable pub handle_full_params_branch :
      BrowserCookies → Option StoredAuthRequest → AuthorizeState → AuthorizeAnswer × AuthorizeState
  handle_full_params_branch cookies none s = (invalid_request, s)
  handle_full_params_branch cookies (some p) s =
      by_session p s (existing_session (non_empty cookies.login_session) (non_empty cookies.jwt) s)

  abbrev by_session_id :
      BrowserCookies
      → Option StoredAuthRequest
      → Option String
      → AuthorizeState
      → AuthorizeAnswer × AuthorizeState
  by_session_id cookies params none s = handle_full_params_branch cookies params s
  by_session_id cookies params (some id) s = handle_session_id_branch cookies id s

  unfoldable pub authorize_endpoint :
      BrowserCookies
      → Option String
      → Option StoredAuthRequest
      → AuthorizeState
      → AuthorizeAnswer × AuthorizeState
  authorize_endpoint cookies id params s = by_session_id cookies params (non_empty id) s
