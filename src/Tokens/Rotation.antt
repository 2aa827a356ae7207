-- ===== src/Tokens/Rotation.antt =====
-- `rotateRefreshToken` of apps/portal/src/lib/auth/token.ts: the transaction on the table, which
-- locks the row, and the steps after its commit with their compensation. A transaction that the
-- database aborts changes nothing and is not modelled; that the compensating write fails is.
pub mod Writes
pub mod OneTime
pub mod Family
pub mod Grants
pub mod Failure
use auth_sso.Base.{
  ℕ, ◌+◌, ◌*◌, String, Bool, true, false, not, ◌&&◌, Option, none, some, List, [], ◌∷◌, ◌++◌, ◌==◌,
  ltb, if◌then◌else◌, truthy, truthy_text,
}
use auth_sso.Session.Jti.{JtiStore}
use auth_sso.Permissions.{
  PermissionCache, Users, IssuancePermission, allowed, refused, resolve_issuance_permission,
}
use auth_sso.Tokens.Ttl.{
  JsNumber, finite_nonneg, access_token_ttl, refresh_token_ttl, access_bounds, refresh_bounds,
  clamp_token_ttl,
}
use auth_sso.Tokens.Access.{AccessClaims, AccessRequest, SignedToken, sign_access_token}
use auth_sso.Tokens.Rows.{
  RefreshToken, is_revoked, revoke_refresh_token_by_id, revoke_refresh_token_family, find_by_hash,
}

pub record ClientTtls : Type 0 where
  pub access_token_ttl : Option JsNumber
  pub refresh_token_ttl : Option JsNumber

-- What the code calls: the SHA-256 of a token's text, jose, the rows of the clients and users.
pub record Services : Type 0 where
  pub hash_token : String → String
  pub sign : AccessClaims → Option String
  pub clients : String → Option ClientTtls
  pub users : Users

-- The time in milliseconds, and what the random generator gives.
pub record Draws : Type 0 where
  pub now : ℕ
  pub row_id : String
  pub refresh_token : String
  pub jti : String
  pub read_jitter : ℕ
  pub fill_jitter : ℕ

pub record AuthState : Type 0 where
  pub tokens : List RefreshToken
  pub jtis : JtiStore
  pub cache : PermissionCache

-- What a committed rotation hands to the steps after it.
pub record Rotated : Type 0 where
  pub rt : RefreshToken
  pub new_id : String
  pub new_token : String
  pub access_ttl : ℕ
  pub refresh_ttl : ℕ

pub record RefreshTokenResult : Type 0 where
  pub access_token : String
  pub refresh_token : String
  pub expires_in : ℕ
  pub refresh_expires_in : ℕ
  pub scope : String

-- `clientRow?.accessTokenTtl`
abbrev access_of : Option ClientTtls → Option JsNumber
access_of none = none
access_of (some c) = c.access_token_ttl

abbrev pub refresh_of : Option ClientTtls → Option JsNumber
refresh_of none = none
refresh_of (some c) = c.refresh_token_ttl

-- `expectedClientId && rt.clientId !== expectedClientId`
abbrev pub wrong_client : Option String → RefreshToken → Bool
wrong_client none rt = false
wrong_client (some client) rt = truthy_text client && not (rt.client_id == client)

module _ (sv : Services) where
  abbrev pub rotated : RefreshToken → Draws → Rotated
  rotated rt d = record {
    rt = rt;
    new_id = d.row_id;
    new_token = d.refresh_token;
    access_ttl =
        clamp_token_ttl (access_of (sv.clients rt.client_id)) access_token_ttl access_bounds;
    refresh_ttl =
        clamp_token_ttl (refresh_of (sv.clients rt.client_id)) refresh_token_ttl refresh_bounds;
  }

  -- The row that the transaction inserts.
  abbrev pub new_row : RefreshToken → Draws → RefreshToken
  new_row rt d = record {
    id = d.row_id;
    token_hash = sv.hash_token d.refresh_token;
    user_id = rt.user_id;
    client_id = rt.client_id;
    scopes = rt.scopes;
    revoked = none;
    expires_at = d.now + (rotated rt d).refresh_ttl * 1000;
    created_at = d.now;
  }

  -- The early returns of the transaction in their order, by the results of the three tests.
  abbrev pub rotate_checked :
      Bool
      → Bool
      → Bool
      → RefreshToken
      → Draws
      → List RefreshToken
      → Option Rotated × List RefreshToken
  rotate_checked true expired wrong rt d rows =
      (none, revoke_refresh_token_family rt.user_id rt.client_id d.now rows)
  rotate_checked false true wrong rt d rows = (none, rows)
  rotate_checked false false true rt d rows =
      (none, revoke_refresh_token_family rt.user_id rt.client_id d.now rows)
  rotate_checked false false false rt d rows =
      (some (rotated rt d), revoke_refresh_token_by_id rt.id d.now rows ++ new_row rt d ∷ [])

  -- The transaction, once the row has been read.
  abbrev pub rotate_row :
      Option RefreshToken
      → Option String
      → Draws
      → List RefreshToken
      → Option Rotated × List RefreshToken
  rotate_row none expected d rows = (none, rows)
  rotate_row (some rt) expected d rows =
      rotate_checked (is_revoked rt) (ltb rt.expires_at d.now) (wrong_client expected rt) rt d rows

  unfoldable pub rotate_transaction :
      String → Option String → Draws → List RefreshToken → Option Rotated × List RefreshToken
  rotate_transaction old expected d rows =
      rotate_row (find_by_hash (sv.hash_token old) rows) expected d rows

  -- The catch block; `written` says whether its own write works.
  abbrev compensate : Bool → Rotated → Draws → AuthState → AuthState
  compensate written g d s =
      if written
      then record s { tokens = revoke_refresh_token_by_id g.new_id d.now s.tokens }
      else s

  abbrev pub access_request : Rotated → Draws → AccessRequest
  access_request g d = record {
    user_id = g.rt.user_id;
    client_id = g.rt.client_id;
    scope = some g.rt.scopes;
    client_ttl = some (finite_nonneg g.access_ttl false);
    session_id = some g.new_id;
    jti = d.jti;
    now = d.now;
  }

  abbrev pub answer_signed :
      Option SignedToken
      → Bool
      → Rotated
      → Draws
      → AuthState
      → Option RefreshTokenResult × AuthState
  answer_signed none written g d s = (none, compensate written g d s)
  answer_signed (some t) written g d s = (
    some (record {
      access_token = t.token;
      refresh_token = g.new_token;
      expires_in = t.expires_in;
      refresh_expires_in = g.refresh_ttl;
      scope = g.rt.scopes;
    }),
    s,
  )

  abbrev pub sign_granted :
      IssuancePermission
      → Bool
      → Rotated
      → Draws
      → AuthState
      → Option RefreshTokenResult × AuthState
  sign_granted (refused _) written g d s = (none, compensate written g d s)
  sign_granted (allowed _) written g d s =
      let (signed, jtis) = sign_access_token sv.sign (access_request g d) s.jtis in
      answer_signed signed written g d (record s { jtis = jtis })

  -- The steps after the commit.
  unfoldable pub finish_rotation :
      Bool → Option Rotated → Draws → AuthState → Option RefreshTokenResult × AuthState
  finish_rotation written none d s = (none, s)
  finish_rotation written (some g) d s =
      let (permission, cache) =
        resolve_issuance_permission sv.users g.rt.user_id d.read_jitter d.fill_jitter d.now
          s.cache in
      sign_granted permission written g d (record s { cache = cache })

  unfoldable pub rotate_refresh_token :
      Bool → String → Option String → Draws → AuthState → Option RefreshTokenResult × AuthState
  rotate_refresh_token written old expected d s =
      let (outcome, rows) = rotate_transaction old expected d s.tokens in
      finish_rotation written outcome d (record s { tokens = rows })
