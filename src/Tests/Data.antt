-- ===== src/Tests/Data.antt =====
-- A user with one role, services that hash and sign by themselves, and a table with one token.
use auth_sso.Base.{ℕ, String, Option, none, some, [], ◌∷◌, true, ◌&&◌, ◌==◌, ltb, if◌then◌else◌}
use auth_sso.Contracts.{UserStatus, EntityStatus}
use auth_sso.Session.Jti.{JtiStore, seconds}
use auth_sso.Permissions.{PermissionRow, RoleRow, UserRow, PermissionCache}
use auth_sso.Tokens.Rows.{RefreshToken}
use auth_sso.Tokens.Rotation.{Services, Draws, AuthState}
use auth_sso.Tokens.Keys.{JwkRow, KeyStore}
use auth_sso.Tokens.Verify.{Jose, PortalJwtClaims, Audience}

abbrev pub read_users : PermissionRow
read_users = record { code = "user:read"; status = EntityStatus.active }

abbrev pub old_right : PermissionRow
old_right = record { code = "user:delete"; status = EntityStatus.disabled }

abbrev pub clerk : RoleRow
clerk = record {
  id = "r1";
  code = "CLERK";
  name = "clerk";
  dept_id = "d1";
  status = EntityStatus.active;
  permissions = some read_users ∷ some old_right ∷ none ∷ [];
}

abbrev pub alice : UserRow
alice = record {
  status = UserStatus.active;
  password_changed_at = some 1;
  roles = some clerk ∷ none ∷ [];
}

abbrev pub empty_cache : PermissionCache
empty_cache = record { up = true; contexts = []; nulls = []; unavailables = [] }

abbrev pub empty_jtis : JtiStore
empty_jtis = record { up = true; blocklist = []; users = [] }

abbrev pub services : Services
services = record {
  hash_token = λ t. t;
  sign = λ c. some "jwt";
  clients = λ c. none;
  users = some (λ u. some alice);
}

abbrev pub draws : Draws
draws = record {
  now = 5000;
  row_id = "row-2";
  refresh_token = "rt_2";
  jti = "j1";
  read_jitter = 0;
  fill_jitter = 1;
}

abbrev pub token : RefreshToken
token = record {
  id = "row-1";
  token_hash = "rt_1";
  user_id = "alice";
  client_id = "portal";
  scopes = "openid offline_access";
  revoked = none;
  expires_at = 900000;
  created_at = 1000;
}

abbrev pub start : AuthState
start = record { tokens = token ∷ []; jtis = empty_jtis; cache = empty_cache }

abbrev pub import_same : String → Option String
import_same text = some text

abbrev pub toy_claims : PortalJwtClaims
toy_claims = record {
  sub = "alice";
  iss = "sso";
  aud = Audience.one "portal";
  client_id = some "portal";
  jti = some "j1";
  sid = none;
  scope = none;
  exp = some 3600;
  iat = some 0;
}

abbrev pub toy_verify : String → String → Option String → ℕ → Option PortalJwtClaims
toy_verify text pk audience now =
    if text == "at" && ltb (seconds now) 3600 then some toy_claims else none

-- Two texts are tokens: one of the right type, and one of none that has no claims.
abbrev pub toy_jose : Jose
toy_jose = record {
  decode_header = λ text.
      if text == "at"
      then some (record { kid = some "k1"; typ = some "at+jwt" })
      else if text == "old"
      then some (record { kid = some "k1"; typ = none })
      else none;
  decode_payload = λ text. if text == "at" then some toy_claims else none;
  import_jwk = import_same;
  jwt_verify = toy_verify;
}

abbrev pub key_row : JwkRow
key_row = record {
  id = "id-1";
  kid = "k1";
  public_key = "public-1";
  private_key = "private-1";
  created_at = 0;
  expires_at = none;
}

abbrev pub key_store : KeyStore
key_store = record { rows = key_row ∷ []; cache = [] }
