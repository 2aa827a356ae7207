-- ===== src/Tests/Logouts.antt =====
-- Logouts, and refreshes by the cookie.
use auth_sso.Base.{
  List, ◌++◌, String, true, false, ◌≡◌, ◌≢◌, ◌≤◌, ◌⊎◌, refl, Option, none, some, [], ◌∷◌, ◌==◌,
  lookup, insert, remove, parse_int, arith, if◌then◌else◌, subst, sym, some_inj,
}
use auth_sso.Session.Jti.{JtiStore, is_jti_revoked, track_user_jti}
use auth_sso.Session.Jti.Later.{JtiWrite, JtiWrites}
use auth_sso.Permissions.{
  get_user_permission_context, resolve_issuance_permission, query_users, store_context, context_of,
  active_roles, active_codes, all_codes, dedup_from, dept_ids_of, role_refs,
}
use auth_sso.Tokens.Rows.{RefreshToken, find_by_hash, is_revoked}
use auth_sso.Tokens.Rotation.Writes.{Write, Writes}
use auth_sso.Tokens.Rotation.{rotate_refresh_token, rotate_transaction, finish_rotation}
use auth_sso.Tokens.Keys.{get_signing_key_by_kid, get_cached_key, create_and_cache_entry}
use auth_sso.Tokens.Verify.{PortalJwtClaims, verify_access_token}
use auth_sso.Authz.Identity.{verify_signature}
use auth_sso.Crypto.{hex_to_bytes, same_bytes}
use auth_sso.Oauth.Clients.{non_empty}
use auth_sso.Oauth.Endpoints.{OauthState}
use auth_sso.Logout.{AuthCookies, LogoutServices, perform_revocation}
use auth_sso.Logout.Ended.{logout_ends_refresh}
use auth_sso.Logout.Access.{TokensRevoked, logout_ends_session}
use auth_sso.Refresh.{
  RefreshRequest, RefreshServices, RefreshState, refresh_endpoint, is_refresh_call_from_gateway,
}
use auth_sso.Refresh.Answers.{IsGatewayCall, refresh_shows_gateway_only}
use auth_sso.Tests.Data.{
  empty_cache, empty_jtis, services, draws, token, start, toy_jose, toy_claims, key_store,
}
use auth_sso.Tests.Clients.{toy_jose-JoseLaws}
use auth_sso.Tests.Rotations.{granted}
use auth_sso.Tokens.Access.{sign_access_token, access_claims}
use auth_sso.Tokens.Ttl.{clamp_token_ttl}

abbrev logout_services : LogoutServices
logout_services = record {
  jose = toy_jose;
  hash_token = λ t. t;
  usernames = λ user. some "Alice";
  current_written = true;
  all_written = true;
}

abbrev cookies : AuthCookies
cookies = record { jwt = some "at"; login_session = some "ls"; refresh = some "rt_1" }

abbrev signed_in : OauthState
signed_in = record { tokens = token ∷ []; jtis = empty_jtis; keys = key_store }

-- The table after the logout, once another token has been issued.
abbrev rows_later : List RefreshToken
rows_later = (perform_revocation logout_services 5000 cookies signed_in).1.tokens ++ token ∷ []

logout_ends_refresh_example :
    (rotate_refresh_token services true "rt_1"
      (some "portal")
      draws
      (record { tokens = rows_later; jtis = empty_jtis; cache = empty_cache })).0
    ≡ none
unfolding find_by_hash
logout_ends_refresh_example =
    logout_ends_refresh logout_services 5000 cookies "rt_1" token signed_in services true
      (some "portal") draws rows_later empty_cache empty_jtis refl refl refl refl
      (Writes.more Writes.done
        (Write.issue token (perform_revocation logout_services 5000 cookies signed_in).1.tokens))

login_session_opaque : (d : PortalJwtClaims) → toy_jose.decode_payload "ls" ≢ some d
login_session_opaque d h = cc

-- Redis after the logout, once another access token has been tracked.
abbrev jtis_later : JtiStore
jtis_later =
    track_user_jti "bob" "j9" 60 5500
      (perform_revocation logout_services 5000 cookies signed_in).1.jtis

logout_ends_session_example :
    TokensRevoked logout_services 5000 "alice"
      (perform_revocation logout_services 5000 cookies signed_in).1.tokens
    × ((verify_access_token toy_jose "at" none none 6000 key_store jtis_later).0 ≢ some toy_claims)
unfolding verify_access_token get_signing_key_by_kid get_cached_key create_and_cache_entry lookup
    remove is_jti_revoked
logout_ends_session_example =
    logout_ends_session logout_services 5000 toy_jose-JoseLaws cookies "at" "j1" 3599 toy_claims
      toy_claims signed_in 6000 key_store jtis_later none none refl refl refl refl refl refl refl tt
      tt
      (λ text d e found. absurd (
        login_session_opaque d
          (subst (λ t. toy_jose.decode_payload t ≡ some d) (sym (some_inj e)) found)))
      (omega arith)
      (JtiWrites.more JtiWrites.done (
        JtiWrite.tracks "bob" "j9" 60 5500
          (perform_revocation logout_services 5000 cookies signed_in).1.jtis))

abbrev toy_hmac : String → String → String
toy_hmac secret payload = if payload == "refresh:5" then "0AFF" else "00"

abbrev refresh_services : RefreshServices
refresh_services = record {
  rotation = services;
  jose = toy_jose;
  hmac = toy_hmac;
  secret = some "shared";
  window = 30;
}

abbrev by_gateway : RefreshRequest
by_gateway = record {
  refresh = some "rt_1";
  jwt = none;
  ip = none;
  timestamp = some "5";
  signature = some "0aff";
}

abbrev before_refresh : RefreshState
before_refresh = record { auth = start; keys = key_store; logs = [] }

abbrev shown : Option (String × String)
shown = some ("jwt", "rt_2")

refresh_shows_gateway_only_example :
    ((text : String) × (rt : RefreshToken) × (non_empty by_gateway.refresh ≡ some text)
      × (find_by_hash (refresh_services.rotation.hash_token text) before_refresh.auth.tokens
          ≡ some rt)
      × (is_revoked rt ≡ false)
      × (draws.now ≤ rt.expires_at)
      × (rt.client_id ≡ "portal"))
    × ((shown ≡ none)
        ⊎ ((shown ≡ some (granted.access_token, granted.refresh_token))
            × IsGatewayCall refresh_services by_gateway draws.now))
unfolding refresh_endpoint is_refresh_call_from_gateway verify_signature hex_to_bytes same_bytes
    parse_int rotate_refresh_token rotate_transaction find_by_hash finish_rotation
    resolve_issuance_permission get_user_permission_context query_users store_context context_of
    active_roles active_codes all_codes dedup_from dept_ids_of role_refs sign_access_token
    access_claims track_user_jti clamp_token_ttl lookup insert
refresh_shows_gateway_only_example =
    refresh_shows_gateway_only refresh_services by_gateway true draws before_refresh shown granted
      refl

abbrev by_browser : RefreshRequest
by_browser = record by_gateway { jwt = some "at"; signature = none }
