-- ===== src/Authz/Identity/Proven.antt =====
-- What proves an identity that `resolveIdentity` answers.
use auth_sso.Base.{
  ℕ, String, ◌≡◌, refl, sym, ◌∙◌, subst, ◌⊎◌, inl, inr, Bool, true, false, Option, none, some,
  arith, codes, parse_int, if◌then◌else◌, some_inj, ap,
}
use auth_sso.Contracts.{portal_client_id}
use auth_sso.Crypto.{hex_to_bytes, same_bytes-eq}
use auth_sso.Session.Jti.{JtiStore, seconds}
use auth_sso.Tokens.Keys.{KeyStore}
use auth_sso.Tokens.Verify.{Jose, PortalJwtClaims, verify_access_token}
use auth_sso.Authz.Identity.{
  GatewayHeaders, ResolvedIdentity, within_window, header_text, access_token_typ, verify_given,
  verify_signature, signed_payload, or_empty, is_request_from_trusted_gateway, to_identity,
  gateway_claims, decoded, verified_identity, self_verified, identity_of, resolve_identity,
}

pub header_text-some : (o : Option String) (s : String) → header_text o ≡ some s → o ≡ some s
header_text-some none s h = cc
header_text-some (some t) s h = ground arith

-- The headers carry the gateway's signature, by the shared secret, of their own timestamp, user
-- and jti, and the timestamp lies within the window.
abbrev IsSigned :
    (String → String → String) → Option String → ℕ → ℕ → GatewayHeaders → String → Type 0
IsSigned hmac secret window now h user =
    (key ts signature : String) × (secret ≡ some key)
    × (h.timestamp ≡ some ts)
    × (h.signature ≡ some signature)
    × (within_window window (seconds now) (parse_int 10 (codes ts)) ≡ true)
    × (hex_to_bytes (codes signature)
        ≡ hex_to_bytes (codes (hmac key (signed_payload ts user (or_empty h.user_jti)))))

module _ (hmac : String → String → String) (window now : ℕ) where
  pub verify_given-true :
      (payload : String) (secret ts signature : Option String)
      → verify_given hmac window now payload secret ts signature ≡ true
      → (key t sig : String) × (secret ≡ some key)
        × (ts ≡ some t)
        × (signature ≡ some sig)
        × (within_window window (seconds now) (parse_int 10 (codes t)) ≡ true)
        × (hex_to_bytes (codes sig) ≡ hex_to_bytes (codes (hmac key payload)))
  verify_given-true payload (some key) (some t) (some sig) h =
      (key, t, sig, refl, refl, refl, ground (arith, h), same_bytes-eq _ _ (ground (arith, h)))
  verify_given-true payload none ts signature h = cc
  verify_given-true payload (some key) none signature h = cc
  verify_given-true payload (some key) (some t) none h = cc

  trusted-IsSigned :
      (secret : Option String) (h : GatewayHeaders) (user : String)
      → is_request_from_trusted_gateway hmac secret window now h user ≡ true
      → IsSigned hmac secret window now h user
  unfolding is_request_from_trusted_gateway verify_signature
  trusted-IsSigned secret h user e =
      let (key, ts, sig, s, t, g, w, m) =
        verify_given-true _ (header_text secret) (header_text h.timestamp) (header_text h.signature)
          e in
      let stamped = header_text-some h.timestamp ts t in
      (
        key,
        ts,
        sig,
        header_text-some secret key s,
        stamped,
        header_text-some h.signature sig g,
        w,
        m
            ∙ ap
                (λ o.
                  hex_to_bytes
                    (codes (hmac key (signed_payload (or_empty o) user (or_empty h.user_jti)))))
                stamped,
      )

-- The user of a gateway's header, or the subject of a token that verifies for the portal as an
-- access token.
abbrev pub IsProven :
    Jose
    → (String → String → String)
    → Option String
    → ℕ
    → GatewayHeaders
    → ℕ
    → KeyStore
    → JtiStore
    → ResolvedIdentity
    → Type 0
IsProven jose hmac secret window h now keys jtis i =
    ((h.user_id ≡ some i.user_id) × IsSigned hmac secret window now h i.user_id)
    ⊎ ((token : String) × (c : PortalJwtClaims) × (h.token ≡ some token)
        × ((verify_access_token jose token (some portal_client_id) (some access_token_typ) now keys
              jtis).0
            ≡ some c)
        × (i ≡ to_identity c.sub c))

verified_identity-some :
    (v : Option PortalJwtClaims × KeyStore) (i : ResolvedIdentity)
    → (verified_identity v).0 ≡ some i
    → (c : PortalJwtClaims) × (v.0 ≡ some c) × (i ≡ to_identity c.sub c)
verified_identity-some (none, keys) i h = cc
verified_identity-some (some c, keys) i h = (c, refl, sym (some_inj h))

gateway_claims-user :
    (user : String) (o : Option PortalJwtClaims) → (gateway_claims user o).user_id ≡ user
gateway_claims-user user none = refl
gateway_claims-user user (some c) = ground arith

module _ (jose : Jose) (hmac : String → String → String) (secret : Option String) (window : ℕ)
    (h : GatewayHeaders) (now : ℕ) (keys : KeyStore) (jtis : JtiStore) where
  self_verified-IsProven :
      (o : Option String) (i : ResolvedIdentity)
      → ((token : String) → o ≡ some token → h.token ≡ some token)
      → (self_verified jose o now keys jtis).0 ≡ some i
      → IsProven jose hmac secret window h now keys jtis i
  self_verified-IsProven none i from e = cc
  self_verified-IsProven (some token) i from e =
      let (c, v, same) = verified_identity-some _ i e in inr (token, c, from token refl, v, same)

  -- Every identity that a request resolves to is proven: either it is the user of the gateway's
  -- header, and the headers carry the gateway's HMAC of the timestamp, that user and the jti, by the
  -- shared secret and within the window of time, or it is the subject of the request's token, which
  -- verifies as an access token for the portal. Without a shared secret, then, only a token proves one.
  pub resolve_identity-IsProven :
      (i : ResolvedIdentity)
      → (resolve_identity jose hmac secret window h now keys jtis).0 ≡ some i
      → IsProven jose hmac secret window h now keys jtis i
  unfolding resolve_identity
  resolve_identity-IsProven i e = by_user (header_text h.user_id) (header_text-some h.user_id) e
    where
      trusted : String → Bool
      trusted user = is_request_from_trusted_gateway hmac secret window now h user

      by_user :
          (o : Option String)
          → ((user : String) → o ≡ some user → h.user_id ≡ some user)
          → (identity_of jose trusted h now keys jtis o).0 ≡ some i
          → IsProven jose hmac secret window h now keys jtis i
      by_user none from q = self_verified-IsProven _ i (header_text-some h.token) q
      by_user (some user) from q = by_trust (trusted user) refl q
        where
          by_trust :
              (b : Bool)
              → trusted user ≡ b
              → (if b
                  then (some (gateway_claims user (decoded jose (header_text h.token))), keys)
                  else self_verified jose (header_text h.token) now keys jtis).0
                ≡ some i
              → IsProven jose hmac secret window h now keys jtis i
          by_trust true t r =
              let same =
                sym (gateway_claims-user user (decoded jose (header_text h.token)))
                ∙ ap (λ (j : ResolvedIdentity). j.user_id) (some_inj r) in
              inl (
                subst (λ u. (h.user_id ≡ some u) × IsSigned hmac secret window now h u) same
                  (from user refl, trusted-IsSigned hmac window now secret h user t))
          by_trust false t r = self_verified-IsProven _ i (header_text-some h.token) r
