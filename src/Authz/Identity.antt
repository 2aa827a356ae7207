-- ===== src/Authz/Identity.antt =====
-- apps/portal/src/lib/auth/verify-jwt.ts and gateway-hmac.ts: who sends a request. The headers are a
-- record; the token that `getJwtFromRequest` reads from a header or the cookie is one of its
-- fields. The HMAC in hexadecimal digits is a parameter, and jose is that of `verifyAccessToken`.
pub mod Proven
use auth_sso.Base.{
  ℕ, ◌-◌, ◌*◌, ◌+◌, String, Bool, true, false, not, ◌&&◌, ◌||◌, Option, none, some, List, [], ◌∷◌,
  ◌==◌, ltb, nat_eq, if◌then◌else◌, truthy_text, codes, parse_int, to_uint8, ℤ, pos, negsuc, length,
}
use auth_sso.Contracts.{portal_client_id}
use auth_sso.Crypto.{hex_to_bytes, same_bytes}
use auth_sso.Session.Jti.{JtiStore, seconds}
use auth_sso.Tokens.Keys.{KeyStore}
use auth_sso.Tokens.Verify.{Jose, PortalJwtClaims, Audience, verify_access_token}
use Prim.Native.String

pub record GatewayHeaders : Type 0 where
  pub user_id : Option String
  pub user_jti : Option String
  pub signature : Option String
  pub timestamp : Option String
  pub token : Option String

pub record ResolvedIdentity : Type 0 where
  pub user_id : String
  pub expires_at : Option ℕ
  pub issued_at : Option ℕ

-- Math.abs(now - ts) > window
abbrev is_out_of_window : ℕ → ℕ → ℤ → Bool
is_out_of_window window now (pos ts) = ltb window ((now - ts) + (ts - now))
is_out_of_window window now (negsuc n) = ltb window (now + n + 1)

abbrev pub within_window : ℕ → ℕ → Option ℤ → Bool
within_window window now none = false
within_window window now (some ts) = not (is_out_of_window window now ts)

-- `if (s)` on a header, with its text.
abbrev pub header_text : Option String → Option String
header_text none = none
header_text (some s) = if truthy_text s then some s else none

-- The names of claims and headers that the types of the source carry.
abbrev pub access_token_typ : String
access_token_typ = "at+jwt"

abbrev pub signed_payload : String → String → String → String
signed_payload ts user jti =
    String.◌++◌ ts (String.◌++◌ ":" (String.◌++◌ user (String.◌++◌ ":" jti)))

abbrev pub or_empty : Option String → String
or_empty none = ""
or_empty (some s) = s

module _ (hmac : String → String → String) where
  abbrev signature_matches : String → String → String → Bool
  signature_matches secret payload signature =
      same_bytes (hex_to_bytes (codes signature)) (hex_to_bytes (codes (hmac secret payload)))

  abbrev pub verify_given : ℕ → ℕ → String → Option String → Option String → Option String → Bool
  verify_given window now payload (some secret) (some ts) (some signature) =
      within_window window (seconds now) (parse_int 10 (codes ts))
      && signature_matches secret payload signature
  verify_given window now payload _ _ _ = false

  unfoldable pub verify_signature :
      Option String → String → Option String → Option String → ℕ → ℕ → Bool
  verify_signature secret payload ts signature window now =
      verify_given window now payload (header_text secret) (header_text ts) (header_text signature)

  unfoldable pub is_request_from_trusted_gateway :
      Option String → ℕ → ℕ → GatewayHeaders → String → Bool
  is_request_from_trusted_gateway secret window now h user =
      verify_signature secret (signed_payload (or_empty h.timestamp) user (or_empty h.user_jti))
        h.timestamp h.signature window now

abbrev pub to_identity : String → PortalJwtClaims → ResolvedIdentity
to_identity user c = record { user_id = user; expires_at = c.exp; issued_at = c.iat }

abbrev has_portal_audience : Audience → Bool
has_portal_audience (Audience.one aud) = aud == portal_client_id
has_portal_audience (Audience.several auds) = false

-- A gateway that is trusted: the times are those of a token for the portal, if there is one.
abbrev pub gateway_claims : String → Option PortalJwtClaims → ResolvedIdentity
gateway_claims user none = record { user_id = user; expires_at = none; issued_at = none }
gateway_claims user (some c) =
    if has_portal_audience c.aud
    then to_identity user c
    else record { user_id = user; expires_at = none; issued_at = none }

abbrev pub decoded : Jose → Option String → Option PortalJwtClaims
decoded jose none = none
decoded jose (some token) = jose.decode_payload token

abbrev pub verified_identity :
    Option PortalJwtClaims × KeyStore → Option ResolvedIdentity × KeyStore
verified_identity (none, keys) = (none, keys)
verified_identity (some c, keys) = (some (to_identity c.sub c), keys)

-- By the token alone.
abbrev pub self_verified :
    Jose → Option String → ℕ → KeyStore → JtiStore → Option ResolvedIdentity × KeyStore
self_verified jose none now keys jtis = (none, keys)
self_verified jose (some token) now keys jtis =
    verified_identity
      (verify_access_token jose token (some portal_client_id) (some access_token_typ) now keys jtis)

abbrev pub identity_of :
    Jose
    → (String → Bool)
    → GatewayHeaders
    → ℕ
    → KeyStore
    → JtiStore
    → Option String
    → Option ResolvedIdentity × KeyStore
identity_of jose trusted h now keys jtis none =
    self_verified jose (header_text h.token) now keys jtis
identity_of jose trusted h now keys jtis (some user) =
    if trusted user
    then (some (gateway_claims user (decoded jose (header_text h.token))), keys)
    else self_verified jose (header_text h.token) now keys jtis

unfoldable pub resolve_identity :
    Jose
    → (String → String → String)
    → Option String
    → ℕ
    → GatewayHeaders
    → ℕ
    → KeyStore
    → JtiStore
    → Option ResolvedIdentity × KeyStore
resolve_identity jose hmac secret window h now keys jtis =
    identity_of jose (is_request_from_trusted_gateway hmac secret window now h) h now keys jtis
      (header_text h.user_id)
