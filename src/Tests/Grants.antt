-- ===== src/Tests/Grants.antt =====
-- Exchanges of authorization codes.
use auth_sso.Base.{◌≡◌, ◌≢◌, refl, false, none, some, [], ◌∷◌, Among, lookup, insert}
use auth_sso.Session.Jti.{track_user_jti}
use auth_sso.Permissions.{
  resolve_issuance_permission, get_user_permission_context, query_users, store_context, context_of,
  active_roles, active_codes, all_codes, dedup_from, dept_ids_of, role_refs,
}
use auth_sso.Tokens.Access.{sign_access_token, access_claims}
use auth_sso.Tokens.Ttl.{clamp_token_ttl}
use auth_sso.Tokens.Rows.Updates.{FamilyRevoked}
use auth_sso.Tokens.Codes.{AuthorizationCode, mark_used, use_where, claim_authorization_code}
use auth_sso.Tokens.Pkce.{constant_time_equal, verify_pkce}
use auth_sso.Tokens.Grant.{
  AuthorizationCodeExchange, GrantServices, GrantDraws, GrantState, OauthTokenResponse, issued,
  replayed, exchange_authorization_code, id_claims,
}
use auth_sso.Tokens.Grant.Writes.{done}
use auth_sso.Tokens.Grant.Once.{IsClaimable, code_exchanged_once}
use auth_sso.Tokens.Grant.Issued.{IsIssued, exchange_issues}
use auth_sso.Domain.Auth.Authorize.{parse_scopes, words}
use auth_sso.Tests.Data.{services, start, token}

-- A digest that is one byte, and a decoding that keeps the characters.
abbrev grant_services : GrantServices
grant_services = record {
  base = services;
  digest = λ v. 65 ∷ [];
  atob = λ bytes. some bytes;
  sign_id = λ c. some "id";
}

abbrev fresh_code : AuthorizationCode
fresh_code = record {
  code = "c1";
  client_id = "portal";
  user_id = "alice";
  redirect_uri = "https://portal/cb";
  scope = "openid offline_access";
  nonce = none;
  code_challenge = some "A";
  code_challenge_method = some "S256";
  expires_at = 60000;
  used = some false;
  created_at = 1000;
}

abbrev exchange : AuthorizationCodeExchange
exchange = record {
  code = "c1";
  client_id = "portal";
  access_token_ttl = none;
  refresh_token_ttl = none;
  redirect_uri = "https://portal/cb";
  code_verifier = "v";
}

abbrev misdirected : AuthorizationCodeExchange
misdirected = record exchange { redirect_uri = "https://evil/cb" }

abbrev grant_draws : GrantDraws
grant_draws = record {
  now = 5000;
  session_id = "row-2";
  refresh_token = "rt_2";
  jti = "j1";
  id_jti = "j2";
  read_jitter = 0;
  fill_jitter = 1;
}

abbrev before : GrantState
before = record { codes = fresh_code ∷ []; auth = start }

abbrev after : GrantState
after = record { codes = mark_used fresh_code ∷ []; auth = start }

code_exchanged_once_example :
    ((t : OauthTokenResponse)
      → (exchange_authorization_code grant_services exchange grant_draws after).0 ≢ issued t)
    × (exchange.client_id ≡ exchange.client_id
        → ((exchange_authorization_code grant_services exchange grant_draws after).0 ≡ replayed)
          × FamilyRevoked "alice" "portal"
              (exchange_authorization_code grant_services exchange grant_draws after).1.auth.tokens)
unfolding claim_authorization_code use_where
code_exchanged_once_example =
    code_exchanged_once grant_services exchange exchange 4000 grant_draws (fresh_code ∷ [])
      (mark_used fresh_code) after (refl, tt) refl done refl

abbrev tokens : OauthTokenResponse
tokens = record {
  access_token = "jwt";
  expires_in = 3600;
  refresh_token = some "rt_2";
  id_token = some "id";
  scope = "openid offline_access";
}

exchange_issues_example :
    (row : AuthorizationCode) × Among row (fresh_code ∷ [])
    × IsClaimable "c1" "portal" "https://portal/cb" 5000 row
    × IsIssued grant_services exchange grant_draws row tokens
        (token ∷ [])
        (exchange_authorization_code grant_services exchange grant_draws before).1.auth.tokens
unfolding exchange_authorization_code claim_authorization_code use_where verify_pkce
    constant_time_equal resolve_issuance_permission get_user_permission_context query_users
    store_context context_of active_roles active_codes all_codes dedup_from dept_ids_of role_refs
    sign_access_token access_claims track_user_jti clamp_token_ttl lookup insert parse_scopes words
    id_claims
exchange_issues_example = exchange_issues grant_services exchange grant_draws before tokens refl
