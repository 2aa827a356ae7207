-- ===== src/Tests/Clients.antt =====
-- Clients at the endpoints of OAuth.
use auth_sso.Base.{
  String, ℕ, true, false, ◌≡◌, ◌⊎◌, ◌<◌, refl, inr, ◌==◌, Option, none, some, List, [], ◌∷◌, ◌++◌,
  Among, lookup, remove, keep, arith, parse_int, eq_iff, false≢true,
}
use auth_sso.Errors.{Result, ok, err, invalid_client_error}
use auth_sso.Contracts.{EntityStatus, entity_is_active}
use auth_sso.Domain.Auth.OauthClient.{validate_client_active}
use auth_sso.Session.Jti.{JtiStore, is_jti_revoked, track_user_jti, seconds}
use auth_sso.Session.Jti.Later.{JtiWrite, JtiWrites}
use auth_sso.Tokens.Rows.{RefreshToken, revoke_where, revoke_refresh_token_by_token_hash}
use auth_sso.Tokens.Rotation.Writes.{Write, Writes}
use auth_sso.Tokens.Keys.{get_signing_key_by_kid, get_cached_key, create_and_cache_entry}
use auth_sso.Tokens.Verify.{PortalJwtClaims, verify_access_token}
use auth_sso.Crypto.{hex_to_bytes, same_bytes}
use auth_sso.Oauth.Clients.{
  ClientCredentials, ClientRow, Hashing, authenticate_oauth_client, resolve_active_client,
  validate_client_secret, resolve_client_credentials,
}
use auth_sso.Oauth.Clients.Authenticated.{ShowsSecret, authenticated_client}
use auth_sso.Oauth.Endpoints.{
  OauthServices, OauthState, RevokeAnswer, caller, verified, revoke_token, revoke_endpoint,
  introspect_endpoint, is_active,
}
use auth_sso.Oauth.Endpoints.Revoked.{JoseLaws, revoked_is_inactive}
use auth_sso.Oauth.Endpoints.Foreign.{revocation_spares_others}
use auth_sso.Tests.Data.{empty_jtis, toy_jose, toy_claims, toy_verify, key_store, token, services}

abbrev hashing : Hashing
hashing = record {
  bcrypt_compare = λ secret hash. secret == "s3cret";
  sha256_hex = λ secret. "0aff";
}

abbrev portal_row : ClientRow
portal_row = record {
  client_id = "portal";
  client_secret = some "$2b$12$x";
  status = EntityStatus.active;
}

abbrev old_row : ClientRow
old_row = record { client_id = "old"; client_secret = some "0AFF"; status = EntityStatus.disabled }

abbrev clients : List ClientRow
clients = old_row ∷ portal_row ∷ []

authenticated_client_example :
    Among portal_row clients
    × (portal_row.client_id ≡ "portal")
    × (entity_is_active portal_row.status ≡ true)
    × ShowsSecret hashing portal_row.client_secret (some "s3cret")
unfolding authenticate_oauth_client resolve_active_client validate_client_secret
    validate_client_active
authenticated_client_example =
    authenticated_client hashing clients "portal" (some "s3cret") portal_row refl

-- The client that is disabled has the right secret in vain.
disabled_client :
    authenticate_oauth_client hashing clients "old" (some "any")
    ≡ err (invalid_client_error "该应用系统已停用或不存在，请联系管理员。")
unfolding authenticate_oauth_client resolve_active_client validate_client_active
disabled_client = refl

digest_in_capitals : validate_client_secret hashing (some "0AFF") (some "any") ≡ ok tt
unfolding validate_client_secret hex_to_bytes same_bytes parse_int
digest_in_capitals = refl

contradicting_bodies :
    resolve_client_credentials
      (ok (some (record { client_id = "portal"; client_secret = some "s3cret" })))
      (some "other")
      none
    ≡ err (invalid_client_error "client_id 在 Basic 头与请求体中不一致")
unfolding resolve_client_credentials
contradicting_bodies = refl

abbrev oauth : OauthServices
oauth = record {
  jose = toy_jose;
  hashing = hashing;
  hash_token = λ t. t;
  clients = clients;
  written = true;
}

abbrev before : OauthState
before = record { tokens = token ∷ []; jtis = empty_jtis; keys = key_store }

abbrev creds : Result ClientCredentials
creds = ok (record { client_id = "portal"; client_secret = some "s3cret" })

toy_verify-claims :
    (text pk : String) (audience : Option String) (now : ℕ) (c : PortalJwtClaims)
    → toy_verify text pk audience now ≡ some c
    → toy_jose.decode_payload text ≡ some c
toy_verify-claims text pk audience now c h = ground arith

toy_verify-unexpired :
    (text pk : String) (audience : Option String) (now exp : ℕ) (c : PortalJwtClaims)
    → toy_verify text pk audience now ≡ some c
    → c.exp ≡ some exp
    → seconds now < exp
toy_verify-unexpired text pk audience now exp c h e = ground arith

pub toy_jose-JoseLaws : JoseLaws toy_jose
toy_jose-JoseLaws = record { same_claims = toy_verify-claims; unexpired = toy_verify-unexpired }

-- What others have written since: another access token is tracked.
abbrev jtis_later : JtiStore
jtis_later = track_user_jti "bob" "j9" 60 5500 (revoke_token oauth "portal" "at" 5000 before).jtis

abbrev rows_later : List RefreshToken
rows_later = (revoke_endpoint oauth creds (some "at") 5000 before).1.tokens ++ token ∷ []

-- An access token that verifies before it is revoked.
revoked_is_inactive_example :
    ((revoke_endpoint oauth creds (some "at") 5000 before).0 ≡ RevokeAnswer.done)
    × (is_active
          (introspect_endpoint oauth creds
            (some "at")
            6000
            (record { tokens = rows_later; jtis = jtis_later; keys = key_store })).0
        ≡ false)
unfolding caller authenticate_oauth_client resolve_active_client validate_client_secret
    validate_client_active verify_access_token get_signing_key_by_kid get_cached_key
    create_and_cache_entry lookup remove is_jti_revoked revoke_endpoint
    revoke_refresh_token_by_token_hash revoke_where
revoked_is_inactive_example =
    revoked_is_inactive oauth toy_jose-JoseLaws services "portal" "at" 5000 6000 (omega arith)
      before rows_later jtis_later key_store creds refl refl refl refl
      (inr (
        toy_claims,
        "j1",
        3599,
        refl,
        refl,
        refl,
        refl,
        refl,
        JtiWrites.more JtiWrites.done (
            JtiWrite.tracks "bob" "j9" 60 5500 (revoke_token oauth "portal" "at" 5000 before).jtis),
      ))
      (inr refl)
      (Writes.more Writes.done
        (Write.issue token (revoke_endpoint oauth creds (some "at") 5000 before).1.tokens))

active_before : is_active (introspect_endpoint oauth creds (some "at") 5000 before).0 ≡ true
unfolding introspect_endpoint caller authenticate_oauth_client resolve_active_client
    validate_client_secret validate_client_active verify_access_token get_signing_key_by_kid
    get_cached_key create_and_cache_entry lookup remove is_jti_revoked
active_before = refl

revocation_spares_others_example :
    (keep
        (λ (row : RefreshToken). row.client_id == "other")
        (revoke_endpoint oauth creds (some "rt_1") 5000 before).1.tokens
      ≡ keep (λ (row : RefreshToken). row.client_id == "other") before.tokens)
    × (((revoke_endpoint oauth creds (some "rt_1") 5000 before).1.jtis ≡ before.jtis)
        ⊎ ((c : PortalJwtClaims) × ((verified oauth "rt_1" 5000 before).0 ≡ some c)
            × (c.client_id ≡ some "portal")))
unfolding caller authenticate_oauth_client resolve_active_client validate_client_secret
    validate_client_active
revocation_spares_others_example =
    revocation_spares_others oauth creds "portal" "other" "rt_1" 5000 before refl refl refl
      (λ e. false≢true ((eq_iff "other" "portal").1 e))
