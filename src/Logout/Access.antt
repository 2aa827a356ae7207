-- ===== src/Logout/Access.antt =====
-- What a logout does to the access token of its cookie, and to the tokens of its user.
use auth_sso.Base.{
  arith, ℕ, suc, ◌≤◌, String, true, ◌≡◌, ◌≢◌, refl, sym, ap, ◌∙◌, subst, ◌⊎◌, inl, inr, if_cases,
  false, List, Option, none, some, ◌==◌, lookup, Distinct, truthy_text, if_true, some_inj,
}
use auth_sso.Contracts.{portal_client_id}
use auth_sso.Session.Jti.{JtiStore, user_entries, live_entries}
use auth_sso.Session.Jti.Later.{NotEarlier, JtiWrites, done, more, revokes, JtiWrites-revoked}
use auth_sso.Tokens.Rows.{RefreshToken}
use auth_sso.Tokens.Rows.Revoked.{RevokedWhere, revoke_user-RevokedWhere}
use auth_sso.Tokens.Keys.{KeyStore}
use auth_sso.Tokens.Verify.{PortalJwtClaims, verify_access_token}
use auth_sso.Tokens.Verify.Verified.{verify_access_token-Passed}
use auth_sso.Authz.Identity.{access_token_typ}
use auth_sso.Oauth.Clients.{non_empty}
use auth_sso.Oauth.Endpoints.{OauthState, block_jti}
use auth_sso.Oauth.Endpoints.Revoked.{JoseLaws}
use auth_sso.Logout.{
  AuthCookies, LogoutServices, revoke_claims, verified_cookie, revoke_access_jwt, block_decoded,
  revoke_login_session_jti, revoke_current_refresh, revoke_all_user_tokens, revoke_all,
  perform_revocation,
}
use auth_sso.Logout.Blocked.{
  JtiWrites-trans, block_jti-JtiWrites, block_jti-own, blocked-refused, block_jti-users,
}

module _ (sv : LogoutServices) (now : ℕ) where
  claims-known :
      (r : Option PortalJwtClaims × KeyStore) (c : PortalJwtClaims) (s : OauthState)
      → r.0 ≡ some c
      → truthy_text c.sub ≡ true
      → revoke_claims sv now r s
        ≡ (some c.sub, record s { jtis = block_jti now c.jti c.exp s.jtis; keys = r.1 })
  claims-known (none, keys) c s e t = cc
  claims-known (some b, keys) c s e t =
      subst
        (λ (x : PortalJwtClaims).
          revoke_claims sv now (some x, keys) s
          ≡ (some c.sub, record s { jtis = block_jti now c.jti c.exp s.jtis; keys = keys }))
        (sym (some_inj e)) (if_true (truthy_text c.sub) _ t)

  -- The login session's jti is another.
  abbrev IsOtherJti : Option String → String → Type 0
  IsOtherJti o jti =
      (text : String) (d : PortalJwtClaims)
      → o ≡ some text
      → sv.jose.decode_payload text ≡ some d
      → d.jti ≢ some jti

  decoded-JtiWrites :
      (exp : ℕ) (jti : String) (o : Option PortalJwtClaims) (s : JtiStore)
      → ((d : PortalJwtClaims) → o ≡ some d → d.jti ≢ some jti)
      → JtiWrites jti exp s (block_decoded sv now o s)
        × ((block_decoded sv now o s).users ≡ s.users)
  decoded-JtiWrites exp jti none s other = (done, refl)
  decoded-JtiWrites exp jti (some d) s other = (
    block_jti-JtiWrites jti exp now d.jti d.exp s (other d refl),
    block_jti-users now d.jti d.exp s,
  )

  login-JtiWrites :
      (exp : ℕ) (jti : String) (o : Option String) (s : OauthState)
      → IsOtherJti o jti
      → JtiWrites jti exp s.jtis (revoke_login_session_jti sv now o s).jtis
        × ((revoke_login_session_jti sv now o s).jtis.users ≡ s.jtis.users)
  login-JtiWrites exp jti none s other = (done, refl)
  login-JtiWrites exp jti (some text) s other =
      decoded-JtiWrites exp jti (sv.jose.decode_payload text) s.jtis (λ d. other text d refl)

  refresh-jtis :
      (o : Option String) (s : OauthState) → (revoke_current_refresh sv now o s).jtis ≡ s.jtis
  refresh-jtis none s = refl
  refresh-jtis (some token) s =
      if_cases (λ (r : OauthState). r.jtis ≡ s.jtis) sv.current_written (λ _. refl) (λ _. refl)

  -- Every refresh token of the user is revoked, where the database has taken that.
  abbrev pub TokensRevoked : String → List RefreshToken → Type 0
  TokensRevoked user rows = (sv.all_written ≡ false) ⊎ RevokedWhere (λ r. r.user_id == user) rows

  all-TokensRevoked :
      (user : String) (s : OauthState)
      → TokensRevoked user (revoke_all sv now (some user) s).1.tokens
  unfolding revoke_all_user_tokens
  all-TokensRevoked user s =
      if_cases (TokensRevoked user) sv.all_written
        (λ _. inr (revoke_user-RevokedWhere user now s.tokens)) (λ down. inl down)

  -- The revocations that follow once the claims of the access token are known.
  abbrev rest : String → AuthCookies → OauthState → OauthState
  rest user cookies s =
      (revoke_all sv now (some user) (
        revoke_current_refresh sv now (non_empty cookies.refresh)
          (revoke_login_session_jti sv now (non_empty cookies.login_session) s))).1

  rest-JtiWrites :
      (exp : ℕ) (jti user : String) (cookies : AuthCookies) (s : OauthState)
      → Distinct (user_entries user now s.jtis)
      → NotEarlier exp (lookup jti (user_entries user now s.jtis))
      → IsOtherJti (non_empty cookies.login_session) jti
      → JtiWrites jti exp s.jtis (rest user cookies s).jtis
  unfolding revoke_all_user_tokens
  rest-JtiWrites exp jti user cookies s d tracked other =
      let login = non_empty cookies.login_session in
      let (writes, same) = login-JtiWrites exp jti login s other in
      let after = revoke_login_session_jti sv now login s in
      let end = revoke_current_refresh sv now (non_empty cookies.refresh) after in
      let jtis = refresh-jtis (non_empty cookies.refresh) after in
      let entries : user_entries user now s.jtis ≡ user_entries user now end.jtis =
        ap (λ us. live_entries now (lookup user us)) (sym same)
        ∙ ap (λ (t : JtiStore). user_entries user now t) (sym jtis) in
      more (subst (JtiWrites jti exp s.jtis) (sym jtis) writes) (
        revokes user now end.jtis (subst Distinct entries d)
          (subst (λ es. NotEarlier exp (lookup jti es)) entries tracked))

  -- Let a logout, with Redis there, recognise its user by the access token of the request's cookie, one
  -- with a jti and an expiry. Then every refresh token of the user is revoked, unless the database fails
  -- in that; and if jose answers only the claims that a text holds and none that have expired, the access
  -- token is not accepted at any later time, whatever the keys, the audience and the type, and whatever
  -- is written to Redis after the logout (`JtiWrites`), as long as nothing blocks its jti until an earlier
  -- expiry than its own. This needs that the jti, if it is tracked for the user, is tracked with no
  -- earlier expiry, and that the login session's cookie does not carry the same jti: its payload is
  -- not verified, and blocking that jti anew could shorten the time for which it is blocked.
  pub logout_ends_session :
      (laws : JoseLaws sv.jose) (cookies : AuthCookies) (token jti : String) (exp : ℕ)
      (c d : PortalJwtClaims) (s : OauthState) (later : ℕ) (keys : KeyStore) (jtis : JtiStore)
      (audience typ : Option String)
      → s.jtis.up ≡ true
      → non_empty cookies.jwt ≡ some token
      → (verified_cookie sv now token s).0 ≡ some c
      → truthy_text c.sub ≡ true
      → c.jti ≡ some jti
      → truthy_text jti ≡ true
      → c.exp ≡ some (suc exp)
      → Distinct (user_entries c.sub now s.jtis)
      → NotEarlier (suc exp) (lookup jti (user_entries c.sub now s.jtis))
      → IsOtherJti (non_empty cookies.login_session) jti
      → now ≤ later
      → JtiWrites jti (suc exp) (perform_revocation sv now cookies s).1.jtis jtis
      → TokensRevoked c.sub (perform_revocation sv now cookies s).1.tokens
        × ((verify_access_token sv.jose token audience typ later keys jtis).0 ≢ some d)
  unfolding perform_revocation
  logout_ends_session laws cookies token jti exp c d s later keys jtis audience typ up given
        verified t j tj x distinct tracked other le writes =
      let known =
        ap (λ o. revoke_access_jwt sv now o s) given
        ∙ claims-known (verified_cookie sv now token s) c s verified t
        ∙ ap
            (λ o. (
              some c.sub,
              record s {
                jtis = block_jti now o c.exp s.jtis;
                keys = (verified_cookie sv now token s).1;
              },
            ))
            j
        ∙ ap
            (λ o. (
              some c.sub,
              record s {
                jtis = block_jti now (some jti) o s.jtis;
                keys = (verified_cookie sv now token s).1;
              },
            ))
            x in
      let start : OauthState = record s {
        jtis = block_jti now (some jti) (some (suc exp)) s.jtis;
        keys = (verified_cookie sv now token s).1;
      } in
      let entries =
        ap (λ us. live_entries now (lookup c.sub us))
          (sym (block_jti-users now (some jti) (some (suc exp)) s.jtis)) in
      let end : (r : Option String × OauthState) → Option (String × String) × OauthState = λ r.
        revoke_all sv now r.0 (
          revoke_current_refresh sv now (non_empty cookies.refresh)
            (revoke_login_session_jti sv now (non_empty cookies.login_session) r.1)) in
      let all : JtiWrites jti (suc exp) start.jtis jtis =
        JtiWrites-trans
          (rest-JtiWrites (suc exp) jti c.sub cookies start (subst Distinct entries distinct)
            (subst (λ es. NotEarlier (suc exp) (lookup jti es)) entries tracked) other)
          (subst (λ r. JtiWrites jti (suc exp) (end r).1.jtis jtis) known writes) in
      let (_, _, (pk, valid)) =
        verify_access_token-Passed sv.jose token (some portal_client_id) (some access_token_typ) now
          s.keys s.jtis c verified in
      (
        subst (λ r. TokensRevoked c.sub (end r).1.tokens) (sym known)
            (all-TokensRevoked c.sub (
              revoke_current_refresh sv now (non_empty cookies.refresh)
                (revoke_login_session_jti sv now (non_empty cookies.login_session) start))),
        blocked-refused sv.jose laws token pk jti (some portal_client_id) audience typ now later
            (suc exp) keys jtis c d valid j tj x
            (λ lives.
              let (blocked, there) = block_jti-own now later exp jti s.jtis tj up le lives in
              JtiWrites-revoked jti (suc exp) later (omega arith) there blocked all),
      )
