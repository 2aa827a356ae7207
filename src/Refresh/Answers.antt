-- ===== src/Refresh/Answers.antt =====
-- What the answers of the refresh endpoint mean.
use auth_sso.Base.{
  ℕ, ◌≤◌, String, Bool, true, false, ◌≡◌, refl, sym, ap, ◌∙◌, ◌⊎◌, inl, inr, Option, none, some,
  eq_iff, if_cases, codes, parse_int, arith, some_inj,
}
use auth_sso.Contracts.{portal_client_id}
use auth_sso.Crypto.{hex_to_bytes}
use auth_sso.Session.Jti.{seconds}
use auth_sso.Tokens.Rows.{RefreshToken, find_by_hash, is_revoked}
use auth_sso.Tokens.Rotation.{
  Draws, AuthState, RefreshTokenResult, wrong_client, rotate_refresh_token,
}
use auth_sso.Tokens.Rotation.Grants.{rotation_grants}
use auth_sso.Tokens.Keys.{KeyStore}
use auth_sso.Tokens.Verify.{PortalJwtClaims}
use auth_sso.Authz.Identity.{within_window, verify_signature, header_text}
use auth_sso.Authz.Identity.Proven.{verify_given-true, header_text-some}
use auth_sso.Oauth.Clients.{non_empty}
use auth_sso.Refresh.{
  RefreshRequest, RefreshServices, RefreshState, rotated, refresh_payload, still_valid, signed_call,
  is_refresh_call_from_gateway, body_of, answer_rotation, unless_valid, current_claims, with_claims,
  with_refresh, refresh_endpoint,
}

-- The call carries the gateway's signature of its own timestamp, within the window.
abbrev pub IsGatewayCall : RefreshServices → RefreshRequest → ℕ → Type 0
IsGatewayCall sv req now =
    (key ts sig : String) × (sv.secret ≡ some key)
    × (non_empty req.timestamp ≡ some ts)
    × (non_empty req.signature ≡ some sig)
    × (within_window sv.window (seconds now) (parse_int 10 (codes ts)) ≡ true)
    × (hex_to_bytes (codes sig) ≡ hex_to_bytes (codes (sv.hmac key (refresh_payload ts))))

portal_row :
    (rt : RefreshToken)
    → wrong_client (some portal_client_id) rt ≡ false
    → rt.client_id ≡ portal_client_id
portal_row rt h = (eq_iff rt.client_id portal_client_id).0 (ground arith)

module _ (sv : RefreshServices) (req : RefreshRequest) (written : Bool) (d : Draws) where
  signed_call-true :
      (t g : Option String)
      → signed_call sv req written d t g ≡ true
      → (key ts sig : String) × (sv.secret ≡ some key)
        × (t ≡ some ts)
        × (g ≡ some sig)
        × (within_window sv.window (seconds d.now) (parse_int 10 (codes ts)) ≡ true)
        × (hex_to_bytes (codes sig) ≡ hex_to_bytes (codes (sv.hmac key (refresh_payload ts))))
  unfolding verify_signature
  signed_call-true none g h = cc
  signed_call-true (some t) none h = cc
  signed_call-true (some t) (some g) h =
      let (key, ts, sig, k, a, b, w, m) =
        verify_given-true sv.hmac sv.window d.now (refresh_payload t) (header_text sv.secret)
          (header_text (some t)) (header_text (some g)) h in
      let same : t ≡ ts = some_inj (header_text-some (some t) ts a) in
      (
        key,
        ts,
        sig,
        header_text-some sv.secret key k,
        ap some same,
        header_text-some (some g) sig b,
        w,
        m ∙ ap (λ x. hex_to_bytes (codes (sv.hmac key (refresh_payload x)))) same,
      )

  -- The rotation behind an answer with tokens.
  abbrev IsRotation : RefreshState → Option (String × String) → RefreshTokenResult → String → Type 0
  IsRotation s body res token =
      ((rotate_refresh_token sv.rotation written token (some portal_client_id) d s.auth).0
        ≡ some res)
      × (body ≡ body_of sv req written d res)

  answer_rotation-rotated :
      (claims : Option PortalJwtClaims) (s : RefreshState)
      (r : Option RefreshTokenResult × AuthState) (body : Option (String × String))
      (res : RefreshTokenResult)
      → (answer_rotation sv req written d claims s r).0 ≡ rotated body res
      → (r.0 ≡ some res) × (body ≡ body_of sv req written d res)
  answer_rotation-rotated claims s (none, auth) body res h = cc
  answer_rotation-rotated claims s (some x, auth) body res h =
      let same : x ≡ res = cc in
      let shown : body_of sv req written d x ≡ body = cc in
      (ap some same, sym shown ∙ ap (body_of sv req written d) same)

  unless_valid-rotated :
      (token : String) (claims : Option PortalJwtClaims) (s : RefreshState) (o : Option ℕ)
      (body : Option (String × String)) (res : RefreshTokenResult)
      → (unless_valid sv req written d token claims s o).0 ≡ rotated body res
      → IsRotation s body res token
  unless_valid-rotated token claims s (some exp) body res h = cc
  unless_valid-rotated token claims s none body res h =
      answer_rotation-rotated claims s _ body res h

  with_claims-rotated :
      (token : String) (s : RefreshState) (r : Option PortalJwtClaims × KeyStore)
      (body : Option (String × String)) (res : RefreshTokenResult)
      → (with_claims sv req written d token s r).0 ≡ rotated body res
      → IsRotation s body res token
  with_claims-rotated token s (claims, keys) body res h =
      unless_valid-rotated token claims _ (still_valid d.now claims) body res h

  -- An answer with tokens has rotated the refresh token of the cookie: the row of its hash was neither
  -- revoked nor expired, and was issued to the portal itself. And if the body shows the tokens, then they
  -- are those of the cookies, and the call carries the gateway's HMAC of its own timestamp, by the shared
  -- secret and within the window of time.
  pub refresh_shows_gateway_only :
      (s : RefreshState) (body : Option (String × String)) (res : RefreshTokenResult)
      → (refresh_endpoint sv req written d s).0 ≡ rotated body res
      → ((token : String) × (rt : RefreshToken) × (non_empty req.refresh ≡ some token)
          × (find_by_hash (sv.rotation.hash_token token) s.auth.tokens ≡ some rt)
          × (is_revoked rt ≡ false)
          × (d.now ≤ rt.expires_at)
          × (rt.client_id ≡ portal_client_id))
        × ((body ≡ none)
            ⊎ ((body ≡ some (res.access_token, res.refresh_token)) × IsGatewayCall sv req d.now))
  unfolding refresh_endpoint is_refresh_call_from_gateway
  refresh_shows_gateway_only s body res h = by_cookie (non_empty req.refresh) refl h
    where
      shown :
          body ≡ body_of sv req written d res
          → (body ≡ none)
            ⊎ ((body ≡ some (res.access_token, res.refresh_token)) × IsGatewayCall sv req d.now)
      shown e =
          if_cases
            (λ o.
              body ≡ o
              → (body ≡ none)
                ⊎ ((body ≡ some (res.access_token, res.refresh_token))
                    × IsGatewayCall sv req d.now))
            (is_refresh_call_from_gateway sv req written d)
            (λ signed q.
              inr (q, signed_call-true (non_empty req.timestamp) (non_empty req.signature) signed))
            (λ _ q. inl q) e

      by_cookie :
          (o : Option String)
          → non_empty req.refresh ≡ o
          → (with_refresh sv req written d o s).0 ≡ rotated body res
          → ((token : String) × (rt : RefreshToken) × (non_empty req.refresh ≡ some token)
              × (find_by_hash (sv.rotation.hash_token token) s.auth.tokens ≡ some rt)
              × (is_revoked rt ≡ false)
              × (d.now ≤ rt.expires_at)
              × (rt.client_id ≡ portal_client_id))
            × ((body ≡ none)
                ⊎ ((body ≡ some (res.access_token, res.refresh_token))
                    × IsGatewayCall sv req d.now))
      by_cookie none given q = cc
      by_cookie (some token) given q =
          let (issued, same) =
            with_claims-rotated token s (current_claims sv req written d (non_empty req.jwt) s) body
              res q in
          let g =
            rotation_grants sv.rotation written token (some portal_client_id) d s.auth res issued in
          (
            (token, g.rt, given, g.listed, g.unrevoked, g.unexpired, portal_row g.rt g.owned),
            shown same,
          )
