-- ===== src/Tests/Authorizations.antt =====
-- Authorization requests, on the return from the login page.
use auth_sso.Base.{
  String, true, false≢true, eq_iff, ◌≡◌, ◌≢◌, refl, none, some, [], ◌∷◌, All, Among, lookup, insert,
  remove,
}
use auth_sso.Contracts.{UserStatus, EntityStatus, entity_is_active}
use auth_sso.Contracts.Authorization.{is_admin_role}
use auth_sso.Permissions.{dedup_from}
use auth_sso.Domain.Auth.Authorize.{
  AuthorizeRole, words, parse_scopes, validate_requested_scopes, validate_authorization,
  check_user_client_access,
}
use auth_sso.Domain.Auth.OauthClient.{validate_client_active, validate_redirect_uri}
use auth_sso.Session.Jti.{is_jti_revoked}
use auth_sso.Tokens.Keys.{get_signing_key_by_kid, get_cached_key, create_and_cache_entry}
use auth_sso.Tokens.Verify.{Jose, PortalJwtClaims, verify_access_token}
use auth_sso.Oauth.Clients.{non_empty}
use auth_sso.Oauth.AuthRequests.{
  StoredAuthRequest, AuthClient, AuthorizeServices, AuthorizeState, AuthorizeDraws, BrowserCookies,
  code_sent, login_page, get_stored_auth_request,
}
use auth_sso.Oauth.Authorization.{
  issue_code_and_redirect, handle_session_id_branch, handle_full_params_branch, authorize_endpoint,
  verified_login,
}
use auth_sso.Oauth.Authorization.Issued.{IsAllowed, code_needs_authorization}
use auth_sso.Oauth.Authorization.Consumed.{
  Elsewhere, Consumes, code_needs_bound_login, request_consumed_once,
}
use auth_sso.Tests.Data.{empty_jtis, key_store, import_same, toy_claims}

abbrev login_claims : PortalJwtClaims
login_claims = record toy_claims { sid = some "s1" }

-- Every text is a login session for s1.
abbrev login_jose : Jose
login_jose = record {
  decode_header = λ text. some (record { kid = some "k1"; typ = some "login+jwt" });
  decode_payload = λ text. some login_claims;
  import_jwk = import_same;
  jwt_verify = λ text pk audience now. some login_claims;
}

abbrev shop : AuthClient
shop = record {
  client_id = "shop";
  status = EntityStatus.active;
  redirect_uris = "https://shop/cb" ∷ [];
  scopes = "openid profile";
}

abbrev admin : AuthorizeRole
admin = record {
  id = "r1";
  code = "SUPER_ADMIN";
  status = EntityStatus.active;
  client_ids = "shop" ∷ [];
}

abbrev sv : AuthorizeServices
sv = record {
  jose = login_jose;
  hash_token = λ t. t;
  clients = shop ∷ [];
  users = λ u. some (record { status = UserStatus.active; roles = admin ∷ [] });
}

abbrev asked : StoredAuthRequest
asked = record {
  client_id = "shop";
  redirect_uri = "https://shop/cb";
  scope = "openid";
  state = "st";
  nonce = none;
  code_challenge = "ch";
  code_challenge_method = "S256";
  binding = "rb_1";
}

abbrev stored : AuthorizeState
stored = record {
  codes = [];
  requests = ("s1", record { request = asked; deadline = 300000 }) ∷ [];
  jtis = empty_jtis;
  keys = key_store;
}

abbrev d : AuthorizeDraws
d = record { code = "auth_code_1"; session_id = "s2"; binding = "rb_2"; now = 5000 }

abbrev browser : BrowserCookies
browser = record { login_session = some "ls"; jwt = none; binding = some "rb_1" }

code_needs_authorization_example :
    (client : AuthClient) × Among client sv.clients
    × (client.client_id ≡ "shop")
    × (entity_is_active client.status ≡ true)
    × Among "https://shop/cb" client.redirect_uris
    × All (λ scope. Among scope (parse_scopes client.scopes)) (parse_scopes "openid")
    × IsAllowed sv d asked "alice" stored client (issue_code_and_redirect sv d asked "alice" stored)
unfolding issue_code_and_redirect validate_client_active validate_redirect_uri
    validate_requested_scopes parse_scopes words dedup_from validate_authorization
    check_user_client_access is_admin_role
code_needs_authorization_example =
    code_needs_authorization sv d asked "alice" stored "https://shop/cb" "auth_code_1" "st" refl

code_needs_bound_login_example :
    (token : String) × (c : PortalJwtClaims) × (non_empty browser.login_session ≡ some token)
    × ((verified_login sv d token stored).0 ≡ some c)
    × (c.sid ≡ some "s1")
    × Consumes sv d "s1" "https://shop/cb" "auth_code_1" "st"
        (record stored { keys = (verified_login sv d token stored).1 })
        (non_empty browser.binding)
        c.sub
        (handle_session_id_branch sv d browser "s1" stored)
unfolding handle_session_id_branch verify_access_token get_signing_key_by_kid get_cached_key
    create_and_cache_entry lookup remove insert is_jti_revoked get_stored_auth_request
    issue_code_and_redirect validate_client_active validate_redirect_uri validate_requested_scopes
    parse_scopes words dedup_from validate_authorization check_user_client_access is_admin_role
code_needs_bound_login_example =
    code_needs_bound_login sv d "s1" "https://shop/cb" "auth_code_1" "st" browser stored refl

-- Another visit has stored a request of its own since.
abbrev visited : AuthorizeState
visited = record (handle_session_id_branch sv d browser "s1" stored).1 {
  requests =
      insert "s2" (record { request = asked; deadline = 400000 })
        (handle_session_id_branch sv d browser "s1" stored).1.requests;
}

request_consumed_once_example :
    (handle_session_id_branch sv d browser "s1" visited).0
    ≢ code_sent "https://shop/cb" "auth_code_1" "st"
unfolding handle_session_id_branch verify_access_token get_signing_key_by_kid get_cached_key
    create_and_cache_entry lookup remove insert is_jti_revoked get_stored_auth_request
    issue_code_and_redirect validate_client_active validate_redirect_uri validate_requested_scopes
    parse_scopes words dedup_from validate_authorization check_user_client_access is_admin_role
request_consumed_once_example =
    request_consumed_once sv d d "s1" "https://shop/cb" "auth_code_1" "st" "https://shop/cb"
      "auth_code_1" "st" browser browser stored visited refl
      (Elsewhere.stores "s2" (record { request = asked; deadline = 400000 }) Elsewhere.done
        (λ e. false≢true ((eq_iff "s2" "s1").1 e)))

-- A browser that no one is logged in with is sent to the login page, with a fresh binding.
not_logged_in :
    (authorize_endpoint sv d (record browser { login_session = none }) none (some asked) stored).0
    ≡ login_page "s2" (some "rb_2")
unfolding authorize_endpoint handle_full_params_branch validate_client_active validate_redirect_uri
    validate_requested_scopes parse_scopes words dedup_from
not_logged_in = refl
