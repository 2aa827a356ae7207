-- ===== src/Refresh/Skipped.antt =====
-- When the refresh endpoint leaves the refresh token unrotated.
use auth_sso.Base.{ℕ, ◌+◌, ◌-◌, ◌<◌, String, Bool, ◌≡◌, refl, ap, Option, none, some, arith}
use auth_sso.Contracts.{portal_client_id}
use auth_sso.Session.Jti.{seconds}
use auth_sso.Tokens.Rotation.{Draws, AuthState, RefreshTokenResult}
use auth_sso.Tokens.Verify.{PortalJwtClaims, verify_access_token}
use auth_sso.Authz.Identity.{access_token_typ}
use auth_sso.Oauth.Clients.{non_empty}
use auth_sso.Refresh.{
  RefreshRequest, RefreshServices, RefreshState, skipped, refresh_threshold, lasting, still_valid,
  answer_rotation, unless_valid, current_claims, with_refresh, refresh_endpoint,
}

lasting-some :
    (now : ℕ) (o : Option ℕ) (exp : ℕ)
    → lasting now o ≡ some exp
    → (o ≡ some exp) × (refresh_threshold + seconds now < exp)
lasting-some now none exp h = cc
lasting-some now (some e) exp h = ground arith

still_valid-some :
    (now : ℕ) (o : Option PortalJwtClaims) (exp : ℕ)
    → still_valid now o ≡ some exp
    → (c : PortalJwtClaims) × (o ≡ some c)
      × (c.exp ≡ some exp)
      × (refresh_threshold + seconds now < exp)
still_valid-some now none exp h = cc
still_valid-some now (some c) exp h = let (e, lt) = lasting-some now c.exp exp h in (c, refl, e, lt)

module _ (sv : RefreshServices) (req : RefreshRequest) (written : Bool) (d : Draws) where
  answer_rotation-not_skipped :
      (claims : Option PortalJwtClaims) (s : RefreshState)
      (r : Option RefreshTokenResult × AuthState) (n : ℕ)
      → (answer_rotation sv req written d claims s r).0 ≡ skipped n
      → ⊥
  answer_rotation-not_skipped claims s (none, auth) n h = cc
  answer_rotation-not_skipped claims s (some res, auth) n h = cc

  unless_valid-skipped :
      (token : String) (claims : Option PortalJwtClaims) (s : RefreshState) (o : Option ℕ) (n : ℕ)
      → (unless_valid sv req written d token claims s o).0 ≡ skipped n
      → (exp : ℕ) × (o ≡ some exp)
        × (n ≡ exp - seconds d.now)
        × ((unless_valid sv req written d token claims s o).1 ≡ s)
  unless_valid-skipped token claims s none n h = absurd (answer_rotation-not_skipped claims s _ n h)
  unless_valid-skipped token claims s (some exp) n h = (exp, refl, cc, refl)

  current_claims-some :
      (o : Option String) (s : RefreshState) (c : PortalJwtClaims)
      → (current_claims sv req written d o s).0 ≡ some c
      → (jwt : String) × (o ≡ some jwt)
        × ((verify_access_token sv.jose jwt
              (some portal_client_id)
              (some access_token_typ)
              d.now
              s.keys
              s.auth.jtis).0
            ≡ some c)
  current_claims-some none s c h = cc
  current_claims-some (some jwt) s c h = (jwt, refl, h)

  -- A refresh is skipped only for an access token of the cookie that verifies for the portal now, with
  -- more than the threshold of five minutes to live, which is the time that the answer tells; and then no
  -- token is rotated, revoked or issued.
  skip_needs_valid_token :
      (s : RefreshState) (n : ℕ)
      → (refresh_endpoint sv req written d s).0 ≡ skipped n
      → ((jwt : String) × (c : PortalJwtClaims) × (exp : ℕ) × (non_empty req.jwt ≡ some jwt)
          × ((verify_access_token sv.jose jwt
                (some portal_client_id)
                (some access_token_typ)
                d.now
                s.keys
                s.auth.jtis).0
              ≡ some c)
          × (c.exp ≡ some exp)
          × (n ≡ exp - seconds d.now)
          × (300 < n))
        × ((refresh_endpoint sv req written d s).1.auth ≡ s.auth)
  unfolding refresh_endpoint
  skip_needs_valid_token s n h = by_cookie (non_empty req.refresh) h
    where
      by_cookie :
          (o : Option String)
          → (with_refresh sv req written d o s).0 ≡ skipped n
          → ((jwt : String) × (c : PortalJwtClaims) × (exp : ℕ) × (non_empty req.jwt ≡ some jwt)
              × ((verify_access_token sv.jose jwt
                    (some portal_client_id)
                    (some access_token_typ)
                    d.now
                    s.keys
                    s.auth.jtis).0
                  ≡ some c)
              × (c.exp ≡ some exp)
              × (n ≡ exp - seconds d.now)
              × (300 < n))
            × ((with_refresh sv req written d o s).1.auth ≡ s.auth)
      by_cookie none q = cc
      by_cookie (some token) q =
          let r = current_claims sv req written d (non_empty req.jwt) s in
          let (exp, valid, told, same) =
            unless_valid-skipped token r.0 (record s { keys = r.1 }) (still_valid d.now r.0) n q in
          let (c, known, e, lt) = still_valid-some d.now r.0 exp valid in
          let (jwt, given, verified) = current_claims-some (non_empty req.jwt) s c known in
          (
            (jwt, c, exp, given, verified, e, told, omega (arith, told, lt)),
            ap (λ (t : RefreshState). t.auth) same,
          )
