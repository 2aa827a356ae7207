-- ===== src/Tests/Keys.antt =====
-- Signing keys, and the tokens that they verify.
use auth_sso.Base.{
  String, ◌≡◌, refl, ◌==◌, if◌then◌else◌, none, some, [], ◌∷◌, Among, lookup, insert, remove, arith,
  parse_int,
}
use auth_sso.Session.Jti.{is_jti_revoked}
use auth_sso.Tokens.Access.{AccessRequest, access_claims}
use auth_sso.Tokens.Ttl.{clamp_token_ttl}
use auth_sso.Tokens.Keys.{
  CachedSigningKey, KeyStore, NewPair, published_kids, get_active_signing_key,
  get_signing_key_by_kid, renew_under_lock, newest, row_of, generate_and_persist_key_pair,
  create_and_cache_entry, get_cached_key,
}
use auth_sso.Tokens.Keys.Sound.{IsSound}
use auth_sso.Tokens.Keys.Published.{KeyStep, KeySteps, signing_key_stays_published}
use auth_sso.Tokens.Verify.{JwtHeader, verify_access_token}
use auth_sso.Tokens.Verify.Verified.{Accepted, verify_access_token_sound}
use auth_sso.Authz.Identity.{
  GatewayHeaders, resolve_identity, is_request_from_trusted_gateway, verify_signature,
}
use auth_sso.Authz.Identity.Proven.{IsProven, resolve_identity-IsProven}
use auth_sso.Crypto.{hex_to_bytes, same_bytes}
use auth_sso.Tests.Data.{empty_jtis, toy_jose, toy_claims, key_store, import_same}

abbrev no_keys : KeyStore
no_keys = record { rows = []; cache = [] }

no_keys-IsSound : IsSound import_same no_keys
unfolding lookup
no_keys-IsSound k e found = cc

key_store-IsSound : IsSound import_same key_store
unfolding lookup
key_store-IsSound k e found = cc

abbrev pair : NewPair
pair = record {
  id = "id-2";
  kid = "k2";
  private_key = "private";
  public_key = "public";
  public_jwk = "public";
  stored_private = "private";
}

abbrev entry : CachedSigningKey
entry = record {
  key_id = "k2";
  private_key = "private";
  public_key = "public";
  public_jwk = "public";
  fetched_at = 2000;
}

abbrev asked : AccessRequest
asked = record {
  user_id = "alice";
  client_id = "portal";
  scope = none;
  client_ttl = none;
  session_id = none;
  jti = "j1";
  now = 3000;
}

-- A key of the first request is published as long as the token lasts, after a restart too.
signing_key_stays_published_example : Among "k2" (
    published_kids 60000
      (record (get_active_signing_key import_same 1000 2000 pair no_keys no_keys).1 {
        cache = [];
      }).rows)
unfolding get_active_signing_key renew_under_lock newest row_of generate_and_persist_key_pair
    create_and_cache_entry insert clamp_token_ttl access_claims
signing_key_stays_published_example =
    signing_key_stays_published import_same 1000 2000 60000 pair no_keys no_keys _ entry asked
      no_keys-IsSound KeySteps.here (omega arith) refl
      (KeySteps.next KeySteps.here (KeyStep.restarted _)) (omega arith) (omega arith)

-- The table is written once.
one_row : (renew_under_lock import_same 86402000 2000 pair no_keys).1.rows ≡ row_of 2000 pair ∷ []
unfolding renew_under_lock newest row_of generate_and_persist_key_pair create_and_cache_entry
one_row = refl

verify_access_token_sound_example :
    (h : JwtHeader) × (kid : String) × Accepted toy_jose "at"
      (some "portal")
      (some "at+jwt")
      5000
      empty_jtis
      (verify_access_token toy_jose "at"
        (some "portal")
        (some "at+jwt")
        5000
        key_store
        empty_jtis).1.rows
      toy_claims
      h
      kid
unfolding verify_access_token get_signing_key_by_kid get_cached_key create_and_cache_entry lookup
    remove is_jti_revoked
verify_access_token_sound_example =
    verify_access_token_sound toy_jose "at" (some "portal") (some "at+jwt") 5000 key_store
      empty_jtis toy_claims key_store-IsSound refl

-- A token with no type is refused.
no_typ_refused :
    (verify_access_token toy_jose "old" (some "portal") (some "at+jwt") 5000 key_store empty_jtis).0
    ≡ none
unfolding verify_access_token
no_typ_refused = refl

abbrev signed_headers : GatewayHeaders
signed_headers = record {
  user_id = some "alice";
  user_jti = some "j1";
  signature = some "0aff";
  timestamp = some "100";
  token = none;
}

abbrev toy_hmac : String → String → String
toy_hmac secret payload = if payload == "100:alice:j1" then "0AFF" else "00"

resolve_identity-IsProven_example :
    IsProven toy_jose toy_hmac
      (some "shared")
      30
      signed_headers
      110000
      key_store
      empty_jtis
      (record { user_id = "alice"; expires_at = none; issued_at = none })
unfolding resolve_identity is_request_from_trusted_gateway verify_signature hex_to_bytes same_bytes
    parse_int
resolve_identity-IsProven_example =
    resolve_identity-IsProven toy_jose toy_hmac (some "shared") 30 signed_headers 110000 key_store
      empty_jtis (record { user_id = "alice"; expires_at = none; issued_at = none }) refl

-- The signature of another user's headers proves nothing.
forged_user :
    (resolve_identity toy_jose toy_hmac
      (some "shared")
      30
      (record signed_headers { user_id = some "root" })
      110000
      key_store
      empty_jtis).0
    ≡ none
unfolding resolve_identity is_request_from_trusted_gateway verify_signature hex_to_bytes same_bytes
    parse_int
forged_user = refl

-- Nor do headers that were signed 31 seconds ago.
stale_headers :
    (resolve_identity toy_jose toy_hmac
      (some "shared")
      30
      signed_headers
      131000
      key_store
      empty_jtis).0
    ≡ none
unfolding resolve_identity is_request_from_trusted_gateway verify_signature hex_to_bytes same_bytes
    parse_int
stale_headers = refl
