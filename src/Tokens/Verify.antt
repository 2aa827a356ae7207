-- ===== src/Tokens/Verify.antt =====
-- `verifyAccessToken` of apps/portal/src/lib/auth/token.ts, over the keys of signing-keys.ts and the
-- blocklist of jtis. What jose does with the text of a token is a parameter.
pub mod Verified
use auth_sso.Base.{
  ℕ, String, Bool, true, false, ◌&&◌, Option, none, some, List, ◌==◌, if◌then◌else◌, truthy_text,
}
use auth_sso.Session.Jti.{JtiStore, is_jti_revoked}
use auth_sso.Tokens.Keys.{CachedSigningKey, KeyStore, get_signing_key_by_kid}

pub data Audience : Type 0 where
  one : String → Audience
  several : List String → Audience

pub record PortalJwtClaims : Type 0 where
  pub sub : String
  pub iss : String
  pub aud : Audience
  pub client_id : Option String
  pub jti : Option String
  pub sid : Option String
  pub scope : Option String
  pub exp : Option ℕ
  pub iat : Option ℕ

pub record JwtHeader : Type 0 where
  pub kid : Option String
  pub typ : Option String

-- decodeProtectedHeader, decodeJwt, the import of a stored key, and jwtVerify of a text by a key for an
-- audience (`none` skips its check) at a time; each is `none` where it throws.
pub record Jose : Type 0 where
  pub decode_header : String → Option JwtHeader
  pub decode_payload : String → Option PortalJwtClaims
  pub import_jwk : String → Option String
  pub jwt_verify : String → String → Option String → ℕ → Option PortalJwtClaims

abbrev is_typ : Option String → String → Bool
is_typ none expected = false
is_typ (some typ) expected = typ == expected

-- Not so where `expectedTyp && header.typ !== expectedTyp`.
abbrev pub typ_fits : Option String → Option String → Bool
typ_fits none typ = true
typ_fits (some expected) typ = if truthy_text expected then is_typ typ expected else true

-- `payload.jti && await isJtiRevoked(payload.jti)`
abbrev pub jti_revoked : ℕ → JtiStore → Option String → Bool
jti_revoked now jtis none = false
jti_revoked now jtis (some jti) = truthy_text jti && is_jti_revoked jti now jtis

abbrev pub unless_revoked : ℕ → JtiStore → Option PortalJwtClaims → Option PortalJwtClaims
unless_revoked now jtis none = none
unless_revoked now jtis (some c) = if jti_revoked now jtis c.jti then none else some c

module _ (jose : Jose) (token : String) (audience : Option String) where
  abbrev pub with_key :
      ℕ → JtiStore → Option CachedSigningKey × KeyStore → Option PortalJwtClaims × KeyStore
  with_key now jtis (none, keys) = (none, keys)
  with_key now jtis (some key, keys) =
      (unless_revoked now jtis (jose.jwt_verify token key.public_key audience now), keys)

  abbrev pub with_kid : ℕ → KeyStore → JtiStore → Option String → Option PortalJwtClaims × KeyStore
  with_kid now keys jtis none = (none, keys)
  with_kid now keys jtis (some kid) =
      if truthy_text kid
      then with_key now jtis (get_signing_key_by_kid jose.import_jwk kid now keys)
      else (none, keys)

  abbrev pub with_header :
      Option String → ℕ → KeyStore → JtiStore → Option JwtHeader → Option PortalJwtClaims × KeyStore
  with_header expected now keys jtis none = (none, keys)
  with_header expected now keys jtis (some h) =
      if typ_fits expected h.typ then with_kid now keys jtis h.kid else (none, keys)

  -- The tests of the kid and of the type, of which the source makes the former first, have the
  -- same outcome.
  unfoldable pub verify_access_token :
      Option String → ℕ → KeyStore → JtiStore → Option PortalJwtClaims × KeyStore
  verify_access_token expected now keys jtis =
      with_header expected now keys jtis (jose.decode_header token)
