-- ===== src/Domain/Auth/Authorize.antt =====
-- apps/portal/src/domain/auth/oauth-authorize.ts and login.ts. A role with no `clientIds` has an
-- empty list of them.
pub mod Access
pub mod Scopes
use auth_sso.Base.{
  is_space, ℕ, String, Bool, true, false, not, ◌&&◌, ◌||◌, Option, none, some, List, [], ◌∷◌, ◌++◌,
  ◌==◌, leb, nat_eq, if◌then◌else◌, truthy_text, truthy, keep, any, includes, map,
}
use auth_sso.Contracts.{UserStatus, user_is_active, EntityStatus, entity_is_active}
use auth_sso.Contracts.Authorization.{is_admin_role}
use auth_sso.Errors.{
  Checked, ok, err, throw_if, rule_violation, account_status_error, invalid_scope_error,
  account_locked, account_disabled,
}
use auth_sso.Permissions.{dedup_from}
use Prim.Native.Char.{code}
use Prim.Native.String

abbrev pub emit : String → List String → List String
emit word rest = if truthy_text word then word ∷ rest else rest

-- `input.trim().split(/\s+/).filter(Boolean)`, with the word begun so far.
unfoldable pub words : String → String → List String
words word String.[] = emit word []
words word (String.◌∷◌ c s) =
    let go_on = words (String.◌++◌ word (String.◌∷◌ c String.[])) s in
    let split = emit word (words "" s) in if is_space (code c) then split else go_on

unfoldable pub parse_scopes : String → List String
parse_scopes input = dedup_from [] (words "" input)

unfoldable pub validate_requested_scopes : List String → List String → Checked
validate_requested_scopes requested allowed =
    throw_if (any (λ scope. not (includes allowed scope)) requested) invalid_scope_error

pub record AuthorizeRole : Type 0 where
  pub id : String
  pub code : String
  pub status : EntityStatus
  pub client_ids : List String

pub data AuthorizationErrorCode : Type 0 where
  unauthorized_client no_roles user_inactive : AuthorizationErrorCode

pub data AuthorizationResult : Type 0 where
  allowed : AuthorizationResult
  refused : AuthorizationErrorCode → String → AuthorizationResult

abbrev pub role_codes : List AuthorizeRole → List String
role_codes [] = []
role_codes (r ∷ rs) = r.code ∷ role_codes rs

unfoldable pub check_user_client_access : String → List AuthorizeRole → AuthorizationResult
check_user_client_access client_id roles =
    if is_admin_role (role_codes roles)
    then allowed
    else if not (any (λ r. includes r.client_ids client_id) roles)
    then refused unauthorized_client "您没有访问该系统的权限，请联系管理员分配。"
    else allowed

abbrev pub live_roles : List AuthorizeRole → List AuthorizeRole
live_roles roles = keep (λ r. entity_is_active r.status) roles

abbrev pub authorize_with : String → List AuthorizeRole → AuthorizationResult
authorize_with client_id [] = refused no_roles "您的账号尚未分配任何有效角色，无法访问系统。"
authorize_with client_id (r ∷ rs) = check_user_client_access client_id (r ∷ rs)

unfoldable pub validate_authorization :
    String → UserStatus → List AuthorizeRole → AuthorizationResult
validate_authorization client_id status roles =
    if not (user_is_active status)
    then refused user_inactive "您的账号已被锁定或禁用，请联系管理员。"
    else authorize_with client_id (live_roles roles)

-- `validateLoginCredentials`, by the status and the hash of the row.
unfoldable pub validate_login_credentials : UserStatus → Option String → Checked
validate_login_credentials UserStatus.locked hash =
    err (account_status_error account_locked "账号已被锁定")
validate_login_credentials UserStatus.disabled hash =
    err (account_status_error account_disabled "账号已被禁用")
validate_login_credentials UserStatus.deleted hash =
    err (account_status_error account_locked "账号已注销")
validate_login_credentials UserStatus.active hash =
    throw_if (not (truthy hash)) (rule_violation "账号未设置密码")
