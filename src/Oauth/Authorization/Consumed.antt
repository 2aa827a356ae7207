-- ===== src/Oauth/Authorization/Consumed.antt =====
-- A code that is sent on the return from the login page: what it needs, and that it is sent once.
use auth_sso.Base.{
  String, ◌≡◌, ◌≢◌, refl, sym, ap, ◌∙◌, Option, none, some, ◌==◌, eq_iff, eq_refl, same_text,
  same_text_iff, if_cases, if_true, List, lookup, insert, lookup-insert, remove, lookup-remove,
  arith,
}
use auth_sso.Tokens.Keys.{KeyStore}
use auth_sso.Tokens.Verify.{PortalJwtClaims}
use auth_sso.Oauth.Clients.{non_empty}
use auth_sso.Oauth.AuthRequests.{
  StoredEntry, StoredAuthRequest, AuthorizeServices, AuthorizeState, AuthorizeDraws,
  AuthorizeAnswer, code_sent, BrowserCookies, live_request, get_stored_auth_request,
}
use auth_sso.Oauth.Authorization.{
  issue_code_and_redirect, with_stored, with_binding, with_session, with_login, verified_login,
  handle_session_id_branch,
}
use auth_sso.Oauth.Authorization.Issued.{code_needs_authorization}

module _ (sv : AuthorizeServices) (d : AuthorizeDraws) (id uri code state : String) where
  with_stored-sent :
      (cookie user : String) (r : Option StoredAuthRequest × AuthorizeState)
      → (with_stored sv d cookie user r).0 ≡ code_sent uri code state
      → (p : StoredAuthRequest) × (r.0 ≡ some p)
        × (p.binding ≡ cookie)
        × (with_stored sv d cookie user r ≡ issue_code_and_redirect sv d p user r.1)
  with_stored-sent cookie user (none, s) h = cc
  with_stored-sent cookie user (some p, s) h =
      if_cases
        (λ (x : AuthorizeAnswer × AuthorizeState).
          x.0 ≡ code_sent uri code state
          → (q : StoredAuthRequest) × (some p ≡ some q)
            × (q.binding ≡ cookie)
            × (x ≡ issue_code_and_redirect sv d q user s))
        (p.binding == cookie) (λ same q. (p, refl, (eq_iff p.binding cookie).0 same, refl))
        (λ _ q. cc) h

  -- The stored request that the session id and the binding cookie name, and what is done with it.
  abbrev pub Consumes :
      AuthorizeState → Option String → String → AuthorizeAnswer × AuthorizeState → Type 0
  Consumes s binding user r =
      (p : StoredAuthRequest) × (live_request d.now (lookup id s.requests) ≡ some p)
      × (binding ≡ some p.binding)
      × (r ≡ issue_code_and_redirect sv d p user (record s { requests = remove id s.requests }))

  with_binding-sent :
      (user : String) (binding : Option String) (s : AuthorizeState)
      → (with_binding sv d id user binding s).0 ≡ code_sent uri code state
      → Consumes s binding user (with_binding sv d id user binding s)
  unfolding get_stored_auth_request
  with_binding-sent user none s h = cc
  with_binding-sent user (some cookie) s h =
      let (p, stored, same, issued) = with_stored-sent cookie user _ h in
      (p, stored, ap some (sym same), issued)

  with_session-sent :
      (binding : Option String) (r : Option PortalJwtClaims × KeyStore) (s : AuthorizeState)
      → (with_session sv d id binding r s).0 ≡ code_sent uri code state
      → (c : PortalJwtClaims) × (r.0 ≡ some c)
        × (c.sid ≡ some id)
        × Consumes (record s { keys = r.1 }) binding c.sub (with_session sv d id binding r s)
  with_session-sent binding (none, keys) s h = cc
  with_session-sent binding (some c, keys) s h =
      if_cases
        (λ (x : AuthorizeAnswer × AuthorizeState).
          x.0 ≡ code_sent uri code state
          → (b : PortalJwtClaims) × (some c ≡ some b)
            × (b.sid ≡ some id)
            × Consumes (record s { keys = keys }) binding b.sub x)
        (same_text c.sid (some id))
        (λ same q. (
          c,
          refl,
          (same_text_iff c.sid (some id)).0 same,
          with_binding-sent c.sub binding (record s { keys = keys }) q,
        ))
        (λ _ q. cc) h

  -- On the return with a session id, a code is sent only if the login session of the cookie verifies,
  -- for the portal and as one, and names that very session id; and the request that is stored under it
  -- has not expired and has the binding of this browser's cookie. The code is then issued for the stored
  -- parameters and the subject of the login session, and the stored request is removed.
  pub code_needs_bound_login :
      (cookies : BrowserCookies) (s : AuthorizeState)
      → (handle_session_id_branch sv d cookies id s).0 ≡ code_sent uri code state
      → (token : String) × (c : PortalJwtClaims) × (non_empty cookies.login_session ≡ some token)
        × ((verified_login sv d token s).0 ≡ some c)
        × (c.sid ≡ some id)
        × Consumes
            (record s { keys = (verified_login sv d token s).1 })
            (non_empty cookies.binding)
            c.sub
            (handle_session_id_branch sv d cookies id s)
  unfolding handle_session_id_branch
  code_needs_bound_login cookies s h = by_login (non_empty cookies.login_session) refl h
    where
      by_login :
          (o : Option String)
          → non_empty cookies.login_session ≡ o
          → (with_login sv d id (non_empty cookies.binding) o s).0 ≡ code_sent uri code state
          → (token : String) × (c : PortalJwtClaims) × (non_empty cookies.login_session
              ≡ some token)
            × ((verified_login sv d token s).0 ≡ some c)
            × (c.sid ≡ some id)
            × Consumes
                (record s { keys = (verified_login sv d token s).1 })
                (non_empty cookies.binding)
                c.sub
                (with_login sv d id (non_empty cookies.binding) o s)
      by_login none given q = cc
      by_login (some token) given q =
          let (c, verified, named, used) =
            with_session-sent (non_empty cookies.binding) (verified_login sv d token s) s q in
          (token, c, given, verified, named, used)

  requests_after :
      (cookies : BrowserCookies) (s : AuthorizeState)
      → (handle_session_id_branch sv d cookies id s).0 ≡ code_sent uri code state
      → lookup id (handle_session_id_branch sv d cookies id s).1.requests ≡ none
  requests_after cookies s h =
      let (token, c, _, _, _, used) = code_needs_bound_login cookies s h in
      let (p, _, _, issued) = used in
      let from : AuthorizeState = record s {
        requests = remove id s.requests;
        keys = (verified_login sv d token s).1;
      } in
      let (_, _, _, _, _, _, allowed) =
        code_needs_authorization sv d p c.sub from uri code state
          (sym (ap (λ (r : AuthorizeAnswer × AuthorizeState). r.0) issued) ∙ h) in
      let (_, _, _, written) = allowed in
      ap (λ (r : AuthorizeAnswer × AuthorizeState). lookup id r.1.requests) (issued ∙ written)
      ∙ lookup-remove id id s.requests
      ∙ if_true (id == id) _ (eq_refl id)

-- What other visits make of the stored requests: they store some under ids other than this one, and take
-- any.
pub data Elsewhere (id : String) (m : List (String × StoredEntry))
    : List (String × StoredEntry) → Type 0 where
  done : Elsewhere id m m
  stores :
      {n : List (String × StoredEntry)} (other : String) (p : StoredEntry)
      → Elsewhere id m n
      → other ≢ id
      → Elsewhere id m (insert other p n)
  takes :
      {n : List (String × StoredEntry)} (other : String)
      → Elsewhere id m n
      → Elsewhere id m (remove other n)

lookup-Elsewhere :
    (id : String) {m n : List (String × StoredEntry)}
    → Elsewhere id m n
    → lookup id m ≡ none
    → lookup id n ≡ none
lookup-Elsewhere id done h = h
lookup-Elsewhere id (stores {n} other p e ne) h =
    ground (arith, lookup-Elsewhere id e h, lookup-insert other id p n, eq_iff other id, ne)
lookup-Elsewhere id (takes {n} other e) h =
    ground (arith, lookup-Elsewhere id e h, lookup-remove other id n)

-- A stored request gives at most one code: when one was sent for a session id, and other visits have
-- since stored requests under other ids, and taken any, in any order, then no return with that id
-- gets a code, whatever the cookies, the keys, the codes and the blocklist are then.
pub request_consumed_once :
    (sv : AuthorizeServices) (d later : AuthorizeDraws)
    (id uri code state uri' code' state' : String) (cookies other : BrowserCookies)
    (s t : AuthorizeState)
    → (handle_session_id_branch sv d cookies id s).0 ≡ code_sent uri code state
    → Elsewhere id (handle_session_id_branch sv d cookies id s).1.requests t.requests
    → (handle_session_id_branch sv later other id t).0 ≢ code_sent uri' code' state'
request_consumed_once sv d later id uri code state uri' code' state' cookies other s t h since
      again =
    let (_, _, _, _, _, used) =
      code_needs_bound_login sv later id uri' code' state' other t again in
    let (p, live, _, _) = used in
    none-not_live p (
      sym (
        ap (live_request later.now)
          (lookup-Elsewhere id since (requests_after sv d id uri code state cookies s h)))
      ∙ live)
  where
    none-not_live : (q : StoredAuthRequest) → none ≢ some q
    none-not_live q e = cc
