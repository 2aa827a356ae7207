-- ===== src/Authz/Check.antt =====
-- `checkPermission` of apps/portal/src/lib/auth/check-permission.ts. The identity that
-- `resolveIdentity` finds is an argument, a user or none; an absent list of the options is empty.
pub mod Decision
use auth_sso.Base.{
  ℕ, String, Bool, true, false, not, ◌&&◌, Option, none, some, List, [], ◌∷◌, if◌then◌else◌, any,
  all,
}
use auth_sso.Contracts.Authorization.{
  AuthorizationSubject, is_admin_role, has_role, can_any, can_all,
}
use auth_sso.Errors.{DomainError, forbidden_error, unauthenticated, password_change_error}
use auth_sso.Permissions.{
  RoleRef, UserPermissionContext, ContextResult, PermissionCache, Users,
  get_user_permission_context, to_permission_context_or_null,
}

pub record PermissionCheckOptions : Type 0 where
  pub permissions : List String
  pub roles : List String
  pub require_all : Bool
  pub allow_password_change_required : Bool

pub data PermissionCheckResult : Type 0 where
  authorized : String → PermissionCheckResult
  unauthorized : DomainError → PermissionCheckResult

abbrev ref_codes : List RoleRef → List String
ref_codes [] = []
ref_codes (r ∷ rs) = r.code ∷ ref_codes rs

-- With no context, no roles and no permissions.
abbrev pub subject_of : Option UserPermissionContext → AuthorizationSubject
subject_of none = record { role_codes = []; permission_codes = [] }
subject_of (some c) = record { role_codes = ref_codes c.roles; permission_codes = c.permissions }

-- Whether the required roles are the subject's: false where `missingRoleError` returns an error.
abbrev pub roles_suffice : AuthorizationSubject → Bool → List String → Bool
roles_suffice s require_all [] = true
roles_suffice s true (r ∷ rs) = all (has_role s) (r ∷ rs)
roles_suffice s false (r ∷ rs) = any (has_role s) (r ∷ rs)

-- The same of `missingPermissionError`.
abbrev pub permissions_suffice : AuthorizationSubject → Bool → List String → Bool
permissions_suffice s require_all [] = true
permissions_suffice s true (p ∷ ps) = can_all s (p ∷ ps)
permissions_suffice s false (p ∷ ps) = can_any s (p ∷ ps)

abbrev pub must_change : Option UserPermissionContext → Bool
must_change none = false
must_change (some c) = c.must_change_password

-- By the tests of the source in their order: the password, the roles, SUPER_ADMIN, the permissions.
abbrev pub decide : Bool → Bool → Bool → Bool → String → PermissionCheckResult
decide true roles admin permissions user = unauthorized password_change_error
decide false false admin permissions user = unauthorized (forbidden_error "角色权限不足")
decide false true true permissions user = authorized user
decide false true false true user = authorized user
decide false true false false user = unauthorized (forbidden_error "权限不足")

abbrev pub decide_context :
    PermissionCheckOptions → Option UserPermissionContext → String → PermissionCheckResult
decide_context options c user =
    decide (must_change c && not options.allow_password_change_required)
      (roles_suffice (subject_of c) options.require_all options.roles)
      (is_admin_role (subject_of c).role_codes)
      (permissions_suffice (subject_of c) options.require_all options.permissions) user

unfoldable pub check_permission :
    Users
    → PermissionCheckOptions
    → Option String
    → ℕ
    → ℕ
    → PermissionCache
    → PermissionCheckResult × PermissionCache
check_permission db options none jitter now s = (unauthorized unauthenticated, s)
check_permission db options (some user) jitter now s =
    let (result, s') = get_user_permission_context db user jitter now s in
    (decide_context options (to_permission_context_or_null result) user, s')
