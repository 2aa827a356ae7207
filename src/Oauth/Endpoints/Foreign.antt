-- ===== src/Oauth/Endpoints/Foreign.antt =====
-- What a revocation by one client leaves alone.
use auth_sso.Base.{
  ℕ, String, Bool, true, false, ◌≡◌, ◌≢◌, refl, ap, ◌∙◌, Option, none, some, ◌==◌, keep,
  truthy_text, ◌⊎◌, inl, inr, eq_iff, if◌then◌else◌, if_cases,
}
use auth_sso.Errors.{Result}
use auth_sso.Tokens.Rows.{RefreshToken}
use auth_sso.Tokens.Rows.Owned.{keep-other_client}
use auth_sso.Tokens.Verify.{PortalJwtClaims}
use auth_sso.Oauth.Clients.{ClientCredentials}
use auth_sso.Oauth.Endpoints.{
  OauthServices, OauthState, RevokeAnswer, caller, is_own, block_own, block_jti, verified,
  revoke_endpoint,
}
use auth_sso.Oauth.Endpoints.Revoked.{revoke_endpoint-own}

is_own-true :
    (client : String) (o : Option String)
    → elim o [ none ↦ false | some id ↦ id == client ] ≡ true
    → o ≡ some client
is_own-true client none h = cc
is_own-true client (some id) h = ap some ((eq_iff id client).0 h)

block_own-cases :
    (client : String) (now : ℕ) (o : Option PortalJwtClaims) (s : OauthState)
    → (block_own client now o s.jtis ≡ s.jtis)
      ⊎ ((c : PortalJwtClaims) × (o ≡ some c) × (c.client_id ≡ some client))
block_own-cases client now none s = inl refl
block_own-cases client now (some c) s = by_owner (is_own client c) refl
  where
    by_owner :
        (b : Bool)
        → is_own client c ≡ b
        → ((if b then block_jti now c.jti c.exp s.jtis else s.jtis) ≡ s.jtis)
          ⊎ ((d : PortalJwtClaims) × (some c ≡ some d) × (d.client_id ≡ some client))
    by_owner true e = inr (c, refl, is_own-true client c.client_id e)
    by_owner false e = inl refl

-- A revocation by a client with an id that is not empty leaves the refresh tokens of every other
-- client as they are, and it leaves the blocklist as it is unless the token verifies as an access
-- token that was issued to that very client.
pub revocation_spares_others :
    (sv : OauthServices) (creds : Result ClientCredentials) (client other token : String) (now : ℕ)
    (s : OauthState)
    → caller sv creds ≡ some client
    → truthy_text client ≡ true
    → truthy_text token ≡ true
    → other ≢ client
    → (keep
          (λ (row : RefreshToken). row.client_id == other)
          (revoke_endpoint sv creds (some token) now s).1.tokens
        ≡ keep (λ (row : RefreshToken). row.client_id == other) s.tokens)
      × (((revoke_endpoint sv creds (some token) now s).1.jtis ≡ s.jtis)
          ⊎ ((c : PortalJwtClaims) × ((verified sv token now s).0 ≡ some c)
              × (c.client_id ≡ some client)))
revocation_spares_others sv creds client other token now s who named given ne =
    let revoked = revoke_endpoint-own sv creds client token now s who given in
    (
      ap
            (λ (r : RevokeAnswer × OauthState).
              keep (λ (row : RefreshToken). row.client_id == other) r.1.tokens)
            revoked
          ∙ if_cases
              (λ rows.
                keep (λ (row : RefreshToken). row.client_id == other) rows
                ≡ keep (λ (row : RefreshToken). row.client_id == other) s.tokens)
              sv.written
              (λ _. keep-other_client (sv.hash_token token) client other now s.tokens named ne)
              (λ _. refl),
      elim (block_own-cases client now (verified sv token now s).0 s) [
        | inl same ↦ inl (ap (λ (r : RevokeAnswer × OauthState). r.1.jtis) revoked ∙ same)
        | inr own ↦ inr own
      ],
    )
