-- ===== src/Oauth/Authorization/Issued.antt =====
-- What stands behind a code that is sent.
use auth_sso.Base.{
  ◌+◌, false, String, true, ◌≡◌, refl, Option, none, some, [], ◌∷◌, ◌++◌, ◌==◌, find-eq-some, Among,
  eq_iff, arith, All,
}
use auth_sso.Contracts.{entity_is_active}
use auth_sso.Errors.{Result, ok, err, Checked}
use auth_sso.Domain.Auth.Authorize.{
  AuthorizationResult, allowed, refused, parse_scopes, validate_authorization,
}
use auth_sso.Domain.Auth.Authorize.Scopes.{requested_scopes_iff}
use auth_sso.Domain.Auth.OauthClient.{validate_client_active, redirect_uri_exact}
use auth_sso.Oauth.Clients.{non_empty}
use auth_sso.Oauth.AuthRequests.{
  StoredAuthRequest, AuthClient, UserWithRoleClients, AuthorizeServices, AuthorizeState,
  AuthorizeDraws, AuthorizeAnswer, code_sent, checked_client, active_client,
}
use auth_sso.Oauth.Authorization.{
  code_row, after_access, after_user, requested_check, after_scopes, after_uri, after_client,
  issue_code_and_redirect,
}

checked_client-ok :
    (o : Option AuthClient) (client : AuthClient)
    → checked_client o ≡ ok client
    → (o ≡ some client) × (entity_is_active client.status ≡ true)
unfolding validate_client_active
checked_client-ok none client h = cc
checked_client-ok (some c) client h = ground arith

module _ (sv : AuthorizeServices) (d : AuthorizeDraws) (p : StoredAuthRequest) (user : String)
    (s : AuthorizeState) where
  -- Whom the code is for, and what is written.
  abbrev pub IsAllowed : AuthClient → AuthorizeAnswer × AuthorizeState → Type 0
  IsAllowed client r =
      (u : UserWithRoleClients) × (sv.users user ≡ some u)
      × (validate_authorization client.client_id u.status u.roles ≡ allowed)
      × (r ≡ (
        code_sent p.redirect_uri d.code p.state,
        record s {
          codes =
              s.codes
              ++ record {
                code = sv.hash_token d.code;
                client_id = client.client_id;
                user_id = user;
                redirect_uri = p.redirect_uri;
                scope = p.scope;
                nonce = non_empty p.nonce;
                code_challenge = some p.code_challenge;
                code_challenge_method = some p.code_challenge_method;
                expires_at = d.now + 300000;
                used = some false;
                created_at = d.now;
              }
                ∷ [];
        },
      ))

  after_access-sent :
      (client : AuthClient) (a : AuthorizationResult) (uri code state : String)
      → (after_access sv d p user client s a).0 ≡ code_sent uri code state
      → (a ≡ allowed)
        × (after_access sv d p user client s a ≡ (
          code_sent p.redirect_uri d.code p.state,
          record s { codes = s.codes ++ code_row sv d p client user ∷ [] },
        ))
  after_access-sent client (refused c m) uri code state h = cc
  after_access-sent client allowed uri code state h = (refl, refl)

  after_user-sent :
      (client : AuthClient) (o : Option UserWithRoleClients) (uri code state : String)
      → sv.users user ≡ o
      → (after_user sv d p user client s o).0 ≡ code_sent uri code state
      → IsAllowed client (after_user sv d p user client s o)
  unfolding code_row
  after_user-sent client none uri code state row h = cc
  after_user-sent client (some u) uri code state row h =
      let (a, same) = after_access-sent client _ uri code state h in (u, row, a, same)

  after_scopes-sent :
      (client : AuthClient) (c : Checked) (uri code state : String)
      → (after_scopes sv d p user client s c).0 ≡ code_sent uri code state
      → (c ≡ ok tt) × IsAllowed client (after_scopes sv d p user client s c)
  after_scopes-sent client (err e) uri code state h = cc
  after_scopes-sent client (ok t) uri code state h =
      (refl, after_user-sent client (sv.users user) uri code state refl h)

  after_uri-sent :
      (client : AuthClient) (c : Checked) (uri code state : String)
      → (after_uri sv d p user client s c).0 ≡ code_sent uri code state
      → (c ≡ ok tt)
        × (requested_check sv d p client ≡ ok tt)
        × IsAllowed client (after_uri sv d p user client s c)
  after_uri-sent client (err e) uri code state h = cc
  after_uri-sent client (ok t) uri code state h =
      let (q, a) = after_scopes-sent client (requested_check sv d p client) uri code state h in
      (refl, q, a)

  -- A code is sent only to a redirect URI that an active client of that id has registered as such a
  -- text, for scopes that are all the client's, and for a user who is allowed to use the client; it
  -- goes where the parameters say, with their state, and the only change is one new row, unused, with
  -- the hash of the code, of that client, user, URI, scope and challenge, that expires five minutes
  -- (300,000 milliseconds) later.
  pub code_needs_authorization :
      (uri code state : String)
      → (issue_code_and_redirect sv d p user s).0 ≡ code_sent uri code state
      → (client : AuthClient) × Among client sv.clients
        × (client.client_id ≡ p.client_id)
        × (entity_is_active client.status ≡ true)
        × Among p.redirect_uri client.redirect_uris
        × All (λ scope. Among scope (parse_scopes client.scopes)) (parse_scopes p.scope)
        × IsAllowed client (issue_code_and_redirect sv d p user s)
  unfolding issue_code_and_redirect
  code_needs_authorization uri code state h =
      by_client (active_client sv.clients p.client_id) refl h
    where
      by_client :
          (r : Result AuthClient)
          → active_client sv.clients p.client_id ≡ r
          → (after_client sv d p user s r).0 ≡ code_sent uri code state
          → (client : AuthClient) × Among client sv.clients
            × (client.client_id ≡ p.client_id)
            × (entity_is_active client.status ≡ true)
            × Among p.redirect_uri client.redirect_uris
            × All (λ scope. Among scope (parse_scopes client.scopes)) (parse_scopes p.scope)
            × IsAllowed client (after_client sv d p user s r)
      by_client (err e) found q = cc
      by_client (ok client) found q =
          let (row, active) = checked_client-ok _ client found in
          let (same, among) =
            find-eq-some (λ c. c.client_id == p.client_id) sv.clients client row in
          let (registered, scopes, a) = after_uri-sent client _ uri code state q in
          (
            client,
            among,
            (eq_iff client.client_id p.client_id).0 same,
            active,
            (redirect_uri_exact client.redirect_uris p.redirect_uri).0 registered,
            (requested_scopes_iff (parse_scopes p.scope) (parse_scopes client.scopes)).0 scopes,
            a,
          )
