-- ===== src/Oauth/Clients.antt =====
-- apps/portal/src/lib/auth/client-credentials.ts and oauth-helpers.ts, with the secrets of
-- domain/auth/oauth-client.ts: which client calls. What `parseBasicAuth` reads of the header is an
-- argument, an error where it throws; bcrypt's comparison and SHA-256 in hexadecimal digits are
-- parameters.
pub mod Authenticated
use auth_sso.Base.{
  String, Bool, true, false, not, ◌&&◌, ◌||◌, Option, none, some, List, ◌==◌, if◌then◌else◌, any,
  find, truthy_text, codes, starts_with, [], ◌∷◌,
}
use auth_sso.Contracts.{EntityStatus}
use auth_sso.Crypto.{hex_to_bytes, same_bytes}
use auth_sso.Domain.Auth.OauthClient.{validate_client_active}
use auth_sso.Errors.{Result, ok, err, Checked, throw_if, invalid_client_error}

pub record ClientCredentials : Type 0 where
  pub client_id : String
  pub client_secret : Option String

pub record ClientRow : Type 0 where
  pub client_id : String
  pub client_secret : Option String
  pub status : EntityStatus

pub record Hashing : Type 0 where
  pub bcrypt_compare : String → String → Bool
  pub sha256_hex : String → String

abbrev pub non_empty : Option String → Option String
non_empty none = none
non_empty (some s) = if truthy_text s then some s else none

-- `a && b && a !== b`
abbrev differ : Option String → Option String → Bool
differ (some a) (some b) = not (a == b)
differ _ _ = false

-- The credentials of the Basic header, if it has them, must not contradict those of the body.
abbrev agreed : Option ClientCredentials → Option String → Option String → Result ClientCredentials
agreed none none secret = err (invalid_client_error "缺少 client_id（Basic 头或请求体均未提供）")
agreed none (some id) secret = ok (record { client_id = id; client_secret = secret })
agreed (some basic) id secret =
    if differ id (some basic.client_id)
    then err (invalid_client_error "client_id 在 Basic 头与请求体中不一致")
    else if differ secret (non_empty basic.client_secret)
    then err (invalid_client_error "client_secret 在 Basic 头与请求体中不一致")
    else ok basic

unfoldable pub resolve_client_credentials :
    Result (Option ClientCredentials) → Option String → Option String → Result ClientCredentials
resolve_client_credentials (err e) id secret = err e
resolve_client_credentials (ok basic) id secret = agreed basic (non_empty id) (non_empty secret)

abbrev is_bcrypt : String → Bool
is_bcrypt hash = any (starts_with hash) ("$2a$" ∷ "$2b$" ∷ "$2y$" ∷ [])

abbrev pub secret_matches : Hashing → String → String → Bool
secret_matches hashing stored provided =
    if is_bcrypt stored
    then hashing.bcrypt_compare provided stored
    else same_bytes (hex_to_bytes (codes stored))
        (hex_to_bytes (codes (hashing.sha256_hex provided)))

abbrev pub check_secret : Hashing → Option String → Option String → Checked
check_secret hashing none provided = err (invalid_client_error "客户端密钥未配置")
check_secret hashing (some stored) none = err (invalid_client_error "客户端密钥缺失")
check_secret hashing (some stored) (some provided) =
    throw_if (not (secret_matches hashing stored provided)) (invalid_client_error "客户端密钥不匹配")

unfoldable pub validate_client_secret : Hashing → Option String → Option String → Checked
validate_client_secret hashing stored provided =
    check_secret hashing (non_empty stored) (non_empty provided)

-- A row that was found and is active, or the error.
abbrev pub active_row : Option ClientRow → Result ClientRow
active_row none = elim (validate_client_active none) [
  | ok _ ↦ err (invalid_client_error "该应用系统已停用或不存在，请联系管理员。")
  | err e ↦ err e
]
active_row (some row) = elim (validate_client_active (some row.status)) [
  | ok _ ↦ ok row
  | err e ↦ err e
]

unfoldable pub resolve_active_client : List ClientRow → String → Result ClientRow
resolve_active_client clients id = active_row (find (λ row. row.client_id == id) clients)

abbrev pub with_secret : Hashing → Option String → Result ClientRow → Result ClientRow
with_secret hashing provided (err e) = err e
with_secret hashing provided (ok row) =
    elim (validate_client_secret hashing row.client_secret provided) [
      | ok _ ↦ ok row
      | err e ↦ err e
    ]

unfoldable pub authenticate_oauth_client :
    Hashing → List ClientRow → String → Option String → Result ClientRow
authenticate_oauth_client hashing clients id provided =
    with_secret hashing provided (resolve_active_client clients id)
