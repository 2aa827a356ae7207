-- ===== src/Tokens/Access.antt =====
-- `signAccessToken` of apps/portal/src/lib/auth/token.ts: the claims that it signs, and the record
-- of the jti that it leaves for revocation. The signing itself (`getActiveSigningKey` and jose) is
-- a parameter: from claims to the text of the token, or `none` when it throws.
use auth_sso.Base.{ℕ, ◌+◌, ◌≤◌, String, ◌≡◌, Option, none, some, if◌then◌else◌, truthy_text, arith}
use auth_sso.Tokens.Ttl.{
  JsNumber, access_token_ttl, access_bounds, clamp_token_ttl, clamp_token_ttl_bounds,
}
use auth_sso.Session.Jti.{JtiStore, seconds, track_user_jti}

pub record AccessClaims : Type 0 where
  pub sub : String
  pub client_id : String
  pub scope : Option String
  pub sid : Option String
  pub iat : ℕ
  pub aud : String
  pub jti : String
  pub exp : ℕ

pub record SignedToken : Type 0 where
  pub token : String
  pub jti : String
  pub expires_in : ℕ

-- `...(s ? { claim: s } : {})`
abbrev pub claim_of : Option String → Option String
claim_of none = none
claim_of (some s) = if truthy_text s then some s else none

-- A request to sign, with the random jti and the time in milliseconds.
pub record AccessRequest : Type 0 where
  pub user_id : String
  pub client_id : String
  pub scope : Option String
  pub client_ttl : Option JsNumber
  pub session_id : Option String
  pub jti : String
  pub now : ℕ

abbrev ttl_of : AccessRequest → ℕ
ttl_of r = clamp_token_ttl r.client_ttl access_token_ttl access_bounds

unfoldable pub access_claims : AccessRequest → AccessClaims
access_claims r = record {
  sub = r.user_id;
  client_id = r.client_id;
  scope = claim_of r.scope;
  sid = claim_of r.session_id;
  iat = seconds r.now;
  aud = r.client_id;
  jti = r.jti;
  exp = seconds r.now + ttl_of r;
}

-- A failure to sign throws before the jti is recorded; recording it cannot fail the call.
unfoldable pub sign_access_token :
    (AccessClaims → Option String) → AccessRequest → JtiStore → Option SignedToken × JtiStore
sign_access_token sign r s = elim (sign (access_claims r)) [
  | none ↦ (none, s)
  | some token ↦ (
    some (record { token = token; jti = r.jti; expires_in = ttl_of r }),
    track_user_jti r.user_id r.jti (ttl_of r) r.now s,
  )
]

-- The lifetime that the response promises is the one of the token, and lies within a minute and a
-- day, whatever the client configured.
pub access_token_lifetime :
    (sign : AccessClaims → Option String) (r : AccessRequest) (s : JtiStore) (t : SignedToken)
    → (sign_access_token sign r s).0 ≡ some t
    → ((access_claims r).exp ≡ (access_claims r).iat + t.expires_in)
      × (60 ≤ t.expires_in)
      × (t.expires_in ≤ 86400)
unfolding sign_access_token access_claims
access_token_lifetime sign r s t h =
    ground (arith, clamp_token_ttl_bounds r.client_ttl access_token_ttl access_bounds)
