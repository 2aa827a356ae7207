-- ===== src/Tokens/Grant.antt =====
-- apps/portal/src/lib/auth/oauth-grant.ts, with `signIdToken` and `issueRefreshToken` of token.ts: an authorization code is exchanged for tokens. Each
-- statement on the table of codes is atomic; none of them is rolled back by a later failure.
pub mod Writes
pub mod Once
pub mod Issued
pub mod Refused
use auth_sso.Base.{
  ℕ, ◌+◌, ◌*◌, String, Bool, true, false, not, ◌&&◌, ◌||◌, Option, none, some, List, [], ◌∷◌, ◌++◌,
  ◌==◌, ltb, nat_eq, if◌then◌else◌, truthy, truthy_text, same_text, find, includes, length, map,
  or_else,
}
use auth_sso.Permissions.{IssuancePermission, allowed, refused, resolve_issuance_permission}
use auth_sso.Tokens.Ttl.{
  JsNumber, access_token_ttl, refresh_token_ttl, refresh_bounds, clamp_token_ttl,
}
use auth_sso.Session.Jti.{seconds}
use auth_sso.Tokens.Access.{AccessRequest, SignedToken, claim_of, sign_access_token}
use auth_sso.Tokens.Rows.{RefreshToken, revoke_refresh_token_family}
use auth_sso.Tokens.Rotation.{Services, AuthState}
use auth_sso.Domain.Auth.Authorize.{parse_scopes}
use auth_sso.Tokens.Codes.{AuthorizationCode, claim_authorization_code, find_consumed_code}
use auth_sso.Tokens.Pkce.{verify_pkce}

pub record AuthorizationCodeExchange : Type 0 where
  pub code : String
  pub client_id : String
  pub access_token_ttl : Option JsNumber
  pub refresh_token_ttl : Option JsNumber
  pub redirect_uri : String
  pub code_verifier : String

pub record IdTokenParams : Type 0 where
  pub user_id : String
  pub client_id : String
  pub nonce : Option String
  pub auth_time : ℕ

pub record IdClaims : Type 0 where
  pub sub : String
  pub aud : String
  pub auth_time : ℕ
  pub nonce : Option String
  pub iat : ℕ
  pub jti : String
  pub exp : ℕ

pub record OauthTokenResponse : Type 0 where
  pub access_token : String
  pub expires_in : ℕ
  pub refresh_token : Option String
  pub id_token : Option String
  pub scope : String

-- `thrown`: an exception leaves the function, of `verifyPKCE` or of the signing.
pub data ExchangeResult : Type 0 where
  issued : OauthTokenResponse → ExchangeResult
  replayed : ExchangeResult
  invalid_grant : String → ExchangeResult
  thrown : ExchangeResult

-- What the code calls besides: SHA-256 on a text's bytes, `atob`, and the signing of ID tokens.
pub record GrantServices : Type 0 where
  pub base : Services
  pub digest : String → List ℕ
  pub atob : List ℕ → Option (List ℕ)
  pub sign_id : IdClaims → Option String

-- The time in milliseconds, and what the random generator gives.
pub record GrantDraws : Type 0 where
  pub now : ℕ
  pub session_id : String
  pub refresh_token : String
  pub jti : String
  pub id_jti : String
  pub read_jitter : ℕ
  pub fill_jitter : ℕ

pub record GrantState : Type 0 where
  pub codes : List AuthorizationCode
  pub auth : AuthState

abbrev id_token_ttl : ℕ
id_token_ttl = access_token_ttl

-- The claims that `signIdToken` signs.
unfoldable pub id_claims : IdTokenParams → String → ℕ → IdClaims
id_claims params jti now = record {
  sub = params.user_id;
  aud = params.client_id;
  auth_time = seconds params.auth_time;
  nonce = claim_of params.nonce;
  iat = seconds now;
  jti = jti;
  exp = seconds now + id_token_ttl;
}

abbrev pub offline : AuthorizationCode → Bool
offline row = includes (parse_scopes row.scope) "offline_access"

abbrev pub open_id : AuthorizationCode → Bool
open_id row = includes (parse_scopes row.scope) "openid"

abbrev grant_request : AuthorizationCode → AuthorizationCodeExchange → GrantDraws → AccessRequest
grant_request row input d = record {
  user_id = row.user_id;
  client_id = input.client_id;
  scope = some row.scope;
  client_ttl = input.access_token_ttl;
  session_id = if offline row then some d.session_id else none;
  jti = d.jti;
  now = d.now;
}

abbrev id_params : AuthorizationCode → AuthorizationCodeExchange → IdTokenParams
id_params row input = record {
  user_id = row.user_id;
  client_id = input.client_id;
  nonce = row.nonce;
  auth_time = row.created_at;
}

-- The response, by whether a refresh token is issued.
abbrev pub response :
    SignedToken → Bool → Option String → AuthorizationCode → GrantDraws → ExchangeResult
response t refresh id_token row d = issued (record {
  access_token = t.token;
  expires_in = t.expires_in;
  refresh_token = if refresh then some d.refresh_token else none;
  id_token = id_token;
  scope = row.scope;
})

abbrev pub answer_id : Option String → SignedToken → AuthorizationCode → GrantDraws → ExchangeResult
answer_id none t row d = thrown
answer_id (some id_token) t row d = response t (offline row) (some id_token) row d

abbrev pub has_challenge : AuthorizationCode → Bool
has_challenge row = truthy row.code_challenge && same_text row.code_challenge_method (some "S256")

module _ (sv : GrantServices) where
  -- The row that `issueRefreshToken` inserts.
  abbrev pub refresh_row : AuthorizationCode → AuthorizationCodeExchange → GrantDraws → RefreshToken
  refresh_row row input d = record {
    id = d.session_id;
    token_hash = sv.base.hash_token d.refresh_token;
    user_id = row.user_id;
    client_id = input.client_id;
    scopes = row.scope;
    revoked = none;
    expires_at =
        d.now + clamp_token_ttl input.refresh_token_ttl refresh_token_ttl refresh_bounds * 1000;
    created_at = d.now;
  }

  -- The ID token is the last to be signed.
  abbrev pub answer_open_id :
      Bool
      → SignedToken
      → AuthorizationCode
      → AuthorizationCodeExchange
      → GrantDraws
      → ExchangeResult
  answer_open_id true t row input d =
      answer_id (sv.sign_id (id_claims (id_params row input) d.id_jti d.now)) t row d
  answer_open_id false t row input d = response t (offline row) none row d

  abbrev pub insert_refresh :
      Bool
      → AuthorizationCode
      → AuthorizationCodeExchange
      → GrantDraws
      → List RefreshToken
      → List RefreshToken
  insert_refresh true row input d rows = rows ++ refresh_row row input d ∷ []
  insert_refresh false row input d rows = rows

  abbrev pub answer_access :
      Option SignedToken
      → AuthorizationCode
      → AuthorizationCodeExchange
      → GrantDraws
      → GrantState
      → ExchangeResult × GrantState
  answer_access none row input d s = (thrown, s)
  answer_access (some t) row input d s = (
    answer_open_id (open_id row) t row input d,
    record s {
      auth = record s.auth { tokens = insert_refresh (offline row) row input d s.auth.tokens };
    },
  )

  abbrev pub answer_permission :
      IssuancePermission
      → AuthorizationCode
      → AuthorizationCodeExchange
      → GrantDraws
      → GrantState
      → ExchangeResult × GrantState
  answer_permission (refused _) row input d s = (invalid_grant "用户不可用", s)
  answer_permission (allowed _) row input d s =
      let (signed, jtis) = sign_access_token sv.base.sign (grant_request row input d) s.auth.jtis in
      answer_access signed row input d (record s { auth = record s.auth { jtis = jtis } })

  abbrev pub answer_pkce :
      Bool
      → AuthorizationCode
      → AuthorizationCodeExchange
      → GrantDraws
      → GrantState
      → ExchangeResult × GrantState
  answer_pkce false row input d s = (thrown, s)
  answer_pkce true row input d s =
      let (permission, cache) =
        resolve_issuance_permission sv.base.users row.user_id d.read_jitter d.fill_jitter d.now
          s.auth.cache in
      answer_permission permission row input d (record s { auth = record s.auth { cache = cache } })

  abbrev pub answer_challenge :
      Bool
      → AuthorizationCode
      → AuthorizationCodeExchange
      → GrantDraws
      → GrantState
      → ExchangeResult × GrantState
  answer_challenge false row input d s = (invalid_grant "授权码缺少 PKCE code_challenge", s)
  answer_challenge true row input d s =
      answer_pkce
        (verify_pkce sv.digest sv.atob input.code_verifier (or_else row.code_challenge "")) row
        input d s

  abbrev pub answer_consumed :
      Option AuthorizationCode → GrantDraws → GrantState → ExchangeResult × GrantState
  answer_consumed none d s = (invalid_grant "授权码无效、已使用、已过期或 redirect_uri 不匹配", s)
  answer_consumed (some row) d s = (
    replayed,
    record s {
      auth = record s.auth {
        tokens = revoke_refresh_token_family row.user_id row.client_id d.now s.auth.tokens;
      };
    },
  )

  abbrev pub answer_claim :
      Option AuthorizationCode
      → AuthorizationCodeExchange
      → GrantDraws
      → GrantState
      → ExchangeResult × GrantState
  answer_claim none input d s =
      answer_consumed (find_consumed_code (sv.base.hash_token input.code) input.client_id s.codes) d
        s
  answer_claim (some row) input d s = answer_challenge (has_challenge row) row input d s

  unfoldable pub exchange_authorization_code :
      AuthorizationCodeExchange → GrantDraws → GrantState → ExchangeResult × GrantState
  exchange_authorization_code input d s =
      let (claimed, rows) =
        claim_authorization_code (sv.base.hash_token input.code) input.client_id input.redirect_uri
          d.now s.codes in
      answer_claim claimed input d (record s { codes = rows })
