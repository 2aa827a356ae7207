-- ===== src/Logout/Ended.antt =====
-- What a logout does to the refresh token of its cookie.
use auth_sso.Base.{
  ℕ, String, Bool, true, false, ◌≡◌, refl, sym, subst, Option, none, some, ◌==◌, false≢true,
  some_inj, ltb, ◌∙◌, List, truthy_text, if_true, if_cases,
}
use auth_sso.Session.Jti.{JtiStore}
use auth_sso.Permissions.{PermissionCache}
use auth_sso.Tokens.Rows.{
  RefreshToken, is_revoked, find_by_hash, revoke_refresh_token_by_token_hash,
  revoke_user_refresh_tokens,
}
use auth_sso.Tokens.Rows.Growth.{
  Grows, Grows-refl, Grows-trans, Grows-revoke_where, find_by_hash-Grows,
}
use auth_sso.Tokens.Rotation.Writes.{Writes, Grows-Writes}
use auth_sso.Tokens.Keys.{KeyStore}
use auth_sso.Tokens.Verify.{PortalJwtClaims}
use auth_sso.Tokens.Rows.Revoked.{
  RevokedWhere, revoke_hash-RevokedWhere, revoke_user-keeps_hash, found-IsRevoked,
}
use auth_sso.Tokens.Rotation.{
  Services, Draws, AuthState, rotate_refresh_token, rotate_transaction, rotate_row, rotate_checked,
  wrong_client, finish_rotation,
}
use auth_sso.Oauth.Clients.{non_empty}
use auth_sso.Oauth.Endpoints.{OauthState}
use auth_sso.Logout.{
  AuthCookies, LogoutServices, revoke_claims, verified_cookie, revoke_access_jwt,
  revoke_login_session_jti, revoke_current_refresh, revoke_all_user_tokens, revoke_all,
  perform_revocation,
}

-- A rotation of a token whose row is revoked gives nothing.
revoked-not-rotated :
    (rs : Services) (written : Bool) (token : String) (expected : Option String) (d : Draws)
    (s : AuthState)
    → ((r : RefreshToken)
        → find_by_hash (rs.hash_token token) s.tokens ≡ some r
        → is_revoked r ≡ true)
    → (rotate_refresh_token rs written token expected d s).0 ≡ none
unfolding rotate_refresh_token rotate_transaction finish_rotation
revoked-not-rotated rs written token expected d s h =
    by_row (find_by_hash (rs.hash_token token) s.tokens) h
  where
    by_row :
        (o : Option RefreshToken)
        → ((r : RefreshToken) → o ≡ some r → is_revoked r ≡ true)
        → (finish_rotation rs written
            (rotate_row rs o expected d s.tokens).0
            d
            (record s { tokens = (rotate_row rs o expected d s.tokens).1 })).0
          ≡ none
    by_row none k = refl
    by_row (some r) k = checked (is_revoked r) (k r refl)
      where
        checked :
            (b : Bool)
            → b ≡ true
            → (finish_rotation rs written
                (rotate_checked rs b
                  (ltb r.expires_at d.now)
                  (wrong_client expected r)
                  r
                  d
                  s.tokens).0
                d
                (record s {
                  tokens =
                      (rotate_checked rs b
                        (ltb r.expires_at d.now)
                        (wrong_client expected r)
                        r
                        d
                        s.tokens).1;
                })).0
              ≡ none
        checked true q = refl
        checked false q = absurd (false≢true q)

module _ (sv : LogoutServices) (now : ℕ) where
  current-hash :
      (token : String) (o : Option String) (s : OauthState)
      → sv.current_written ≡ true
      → o ≡ some token
      → RevokedWhere
          (λ r. r.token_hash == sv.hash_token token)
          (revoke_current_refresh sv now o s).tokens
  current-hash token none s up e = cc
  current-hash token (some other) s up e =
      subst
        (λ t.
          RevokedWhere (λ r. r.token_hash == sv.hash_token t)
            (revoke_current_refresh sv now (some other) s).tokens)
        (some_inj e)
        (subst
          (λ (r : OauthState). RevokedWhere (λ x. x.token_hash == sv.hash_token other) r.tokens)
          (sym (if_true sv.current_written _ up))
          (revoke_hash-RevokedWhere (sv.hash_token other) now s.tokens))

  all-hash :
      (hash : String) (user : Option String) (s : OauthState)
      → RevokedWhere (λ r. r.token_hash == hash) s.tokens
      → RevokedWhere (λ r. r.token_hash == hash) (revoke_all sv now user s).1.tokens
  unfolding revoke_all_user_tokens
  all-hash hash none s h = h
  all-hash hash (some user) s h =
      if_cases (RevokedWhere (λ r. r.token_hash == hash)) sv.all_written
        (λ _. revoke_user-keeps_hash hash user now s.tokens h) (λ _. h)

  claims-tokens :
      (r : Option PortalJwtClaims × KeyStore) (s : OauthState)
      → (revoke_claims sv now r s).1.tokens ≡ s.tokens
  claims-tokens (none, keys) s = refl
  claims-tokens (some c, keys) s =
      if_cases (λ (x : Option String × OauthState). x.1.tokens ≡ s.tokens) (truthy_text c.sub)
        (λ _. refl) (λ _. refl)

  access-tokens :
      (o : Option String) (s : OauthState) → (revoke_access_jwt sv now o s).1.tokens ≡ s.tokens
  access-tokens none s = refl
  access-tokens (some token) s = claims-tokens (verified_cookie sv now token s) s

  login-tokens :
      (o : Option String) (s : OauthState) → (revoke_login_session_jti sv now o s).tokens ≡ s.tokens
  login-tokens none s = refl
  login-tokens (some token) s = refl

  current-Grows :
      (o : Option String) (s : OauthState)
      → Grows s.tokens (revoke_current_refresh sv now o s).tokens
  unfolding revoke_refresh_token_by_token_hash
  current-Grows none s = Grows-refl s.tokens
  current-Grows (some token) s =
      if_cases (λ (r : OauthState). Grows s.tokens r.tokens) sv.current_written
        (λ _. Grows-revoke_where _ now s.tokens) (λ _. Grows-refl s.tokens)

  all-Grows :
      (user : Option String) (s : OauthState) → Grows s.tokens (revoke_all sv now user s).1.tokens
  unfolding revoke_all_user_tokens revoke_user_refresh_tokens
  all-Grows none s = Grows-refl s.tokens
  all-Grows (some user) s =
      if_cases (Grows s.tokens) sv.all_written (λ _. Grows-revoke_where _ now s.tokens)
        (λ _. Grows-refl s.tokens)

  perform-Grows :
      (cookies : AuthCookies) (s : OauthState)
      → Grows s.tokens (perform_revocation sv now cookies s).1.tokens
  unfolding perform_revocation
  perform-Grows cookies s =
      let known = revoke_access_jwt sv now (non_empty cookies.jwt) s in
      let after = revoke_login_session_jti sv now (non_empty cookies.login_session) known.1 in
      let current = revoke_current_refresh sv now (non_empty cookies.refresh) after in
      subst (λ rows. Grows rows (revoke_all sv now known.0 current).1.tokens)
        (login-tokens (non_empty cookies.login_session) known.1
          ∙ access-tokens (non_empty cookies.jwt) s)
        (Grows-trans after.tokens current.tokens (revoke_all sv now known.0 current).1.tokens
          (current-Grows (non_empty cookies.refresh) after) (all-Grows known.0 current))

  -- After a logout whose database takes the revocation of the cookie's refresh token, and which may or
  -- may not recognise its user, that token, if the table has it, is never rotated again: whatever
  -- requests write to the table afterwards (`Writes`), a rotation of it gives nothing. This is for code
  -- that hashes tokens the same way.
  pub logout_ends_refresh :
      (cookies : AuthCookies) (token : String) (rt : RefreshToken) (s : OauthState) (rs : Services)
      (written : Bool) (expected : Option String) (d : Draws) (rows : List RefreshToken)
      (cache : PermissionCache) (jtis : JtiStore)
      → sv.current_written ≡ true
      → non_empty cookies.refresh ≡ some token
      → rs.hash_token token ≡ sv.hash_token token
      → find_by_hash (sv.hash_token token) s.tokens ≡ some rt
      → Writes rs (perform_revocation sv now cookies s).1.tokens rows
      → (rotate_refresh_token rs written token expected d
          (record { tokens = rows; jtis = jtis; cache = cache })).0
        ≡ none
  unfolding perform_revocation
  logout_ends_refresh cookies token rt s rs written expected d rows cache jtis up given same listed
        writes =
      let hash = sv.hash_token token in
      let end = (perform_revocation sv now cookies s).1.tokens in
      let revoked = all-hash hash _ _ (current-hash token (non_empty cookies.refresh) _ up given) in
      let (u, found, _) =
        find_by_hash-Grows hash s.tokens end rt (perform-Grows cookies s) listed in
      let (v, found', later) = find_by_hash-Grows hash end rows u (Grows-Writes rs writes) found in
      let spent = later.stays_revoked (found-IsRevoked hash end u revoked found) in
      revoked-not-rotated rs written token expected d _ (λ r e.
        subst (λ (x : RefreshToken). is_revoked x ≡ true)
          (some_inj (sym found' ∙ subst (λ h. find_by_hash h rows ≡ some r) same e)) spent)
