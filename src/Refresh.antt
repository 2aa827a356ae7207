-- ===== src/Refresh.antt =====
-- POST of apps/portal/src/app/api/auth/refresh/route.ts. The two cookies and the headers of a request
-- are a record; the answer tells the tokens that the cookies get, and those that the body shows. A
-- write of the log that fails is not modelled.
pub mod Answers
pub mod Skipped
use auth_sso.Base.{
  ℕ, ◌+◌, ◌-◌, ◌*◌, String, Bool, true, false, Option, none, some, List, [], ◌∷◌, ◌++◌, ltb,
  if◌then◌else◌, truthy_text, nat_eq, or_else,
}
use auth_sso.Contracts.{portal_client_id}
use auth_sso.Session.Jti.{seconds}
use auth_sso.Tokens.Rotation.{Services, Draws, AuthState, RefreshTokenResult, rotate_refresh_token}
use auth_sso.Tokens.Keys.{KeyStore}
use auth_sso.Tokens.Verify.{Jose, PortalJwtClaims, verify_access_token}
use auth_sso.Authz.Identity.{access_token_typ, verify_signature}
use auth_sso.Oauth.Clients.{non_empty}
use Prim.Native.String

pub record RefreshRequest : Type 0 where
  pub refresh : Option String
  pub jwt : Option String
  pub ip : Option String
  pub timestamp : Option String
  pub signature : Option String

pub record RefreshServices : Type 0 where
  pub rotation : Services
  pub jose : Jose
  pub hmac : String → String → String
  pub secret : Option String
  pub window : ℕ

pub data RefreshEvent : Type 0 where
  token_refresh token_refresh_failed : RefreshEvent

pub record RefreshLog : Type 0 where
  pub event : RefreshEvent
  pub user_id : Option String
  pub username : String
  pub ip : Option String

pub record RefreshState : Type 0 where
  pub auth : AuthState
  pub keys : KeyStore
  pub logs : List RefreshLog

-- The tokens of the body, if it shows them, and those of the cookies.
pub data RefreshAnswer : Type 0 where
  token_missing : RefreshAnswer
  skipped : ℕ → RefreshAnswer
  token_invalid : RefreshAnswer
  rotated : Option (String × String) → RefreshTokenResult → RefreshAnswer

abbrev pub refresh_threshold : ℕ
refresh_threshold = 5 * 60

abbrev pub refresh_payload : String → String
refresh_payload ts = String.◌++◌ "refresh:" ts

abbrev sub_of : Option PortalJwtClaims → Option String
sub_of none = none
sub_of (some c) = some c.sub

-- `atPayload?.sub || 'unknown'`
abbrev username_of : Option PortalJwtClaims → String
username_of claims = or_else (non_empty (sub_of claims)) "unknown"

-- The expiry, where it is further off than the threshold.
abbrev pub lasting : ℕ → Option ℕ → Option ℕ
lasting now none = none
lasting now (some exp) = if ltb (refresh_threshold + seconds now) exp then some exp else none

abbrev pub still_valid : ℕ → Option PortalJwtClaims → Option ℕ
still_valid now none = none
still_valid now (some c) = lasting now c.exp

module _ (sv : RefreshServices) (req : RefreshRequest) (written : Bool) (d : Draws) where
  abbrev pub signed_call : Option String → Option String → Bool
  signed_call (some ts) (some sig) =
      verify_signature sv.hmac sv.secret (refresh_payload ts) (some ts) (some sig) sv.window d.now
  signed_call _ _ = false

  unfoldable pub is_refresh_call_from_gateway : Bool
  is_refresh_call_from_gateway = signed_call (non_empty req.timestamp) (non_empty req.signature)

  abbrev pub body_of : RefreshTokenResult → Option (String × String)
  body_of res =
      if is_refresh_call_from_gateway then some (res.access_token, res.refresh_token) else none

  abbrev pub logged : RefreshEvent → Option PortalJwtClaims → RefreshState → RefreshState
  logged event claims s = record s {
    logs =
        s.logs
        ++ record {
          event = event;
          user_id = sub_of claims;
          username = username_of claims;
          ip = req.ip;
        }
          ∷ [];
  }

  abbrev pub answer_rotation :
      Option PortalJwtClaims
      → RefreshState
      → Option RefreshTokenResult × AuthState
      → RefreshAnswer × RefreshState
  answer_rotation claims s (none, auth) =
      (token_invalid, logged RefreshEvent.token_refresh_failed claims (record s { auth = auth }))
  answer_rotation claims s (some res, auth) = (
    rotated (body_of res) res,
    logged RefreshEvent.token_refresh claims (record s { auth = auth }),
  )

  abbrev pub unless_valid :
      String → Option PortalJwtClaims → RefreshState → Option ℕ → RefreshAnswer × RefreshState
  unless_valid token claims s (some exp) = (skipped (exp - seconds d.now), s)
  unless_valid token claims s none =
      answer_rotation claims s
        (rotate_refresh_token sv.rotation written token (some portal_client_id) d s.auth)

  abbrev pub current_claims : Option String → RefreshState → Option PortalJwtClaims × KeyStore
  current_claims none s = (none, s.keys)
  current_claims (some token) s =
      verify_access_token sv.jose token (some portal_client_id) (some access_token_typ) d.now s.keys
        s.auth.jtis

  abbrev pub with_claims :
      String → RefreshState → Option PortalJwtClaims × KeyStore → RefreshAnswer × RefreshState
  with_claims token s (claims, keys) =
      unless_valid token claims (record s { keys = keys }) (still_valid d.now claims)

  abbrev pub with_refresh : Option String → RefreshState → RefreshAnswer × RefreshState
  with_refresh none s = (token_missing, s)
  with_refresh (some token) s = with_claims token s (current_claims (non_empty req.jwt) s)

  unfoldable pub refresh_endpoint : RefreshState → RefreshAnswer × RefreshState
  refresh_endpoint s = with_refresh (non_empty req.refresh) s
