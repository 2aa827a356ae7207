-- ===== src/Authz/Assignment.antt =====
-- apps/portal/src/lib/user-role-assignment.ts and role-permission-assignment.ts, over `withScopedRow`
-- of authz/write.ts: the transaction's writes are kept only where it returns. The convergence after
-- the commit is the list of the users that `revokeAndRefreshAuthorization` is called with.
pub mod Escalation
pub mod Removal
use auth_sso.Base.{
  String, Bool, true, false, not, ◌&&◌, ◌||◌, Option, none, some, List, [], ◌∷◌, ◌++◌, ◌==◌, nat_eq,
  leb, ℕ, if◌then◌else◌, length, keep, any, find, includes, truthy_text,
}
use auth_sso.Contracts.{entity_is_active}
use auth_sso.Errors.{
  ErrorCode, forbidden, validation_error, not_found, cannot_modify_system_role, Result, ok, err,
  Checked, forbidden_error,
}
use auth_sso.Authz.Directory.{
  UserRecord, RoleRecord, PermissionRecord, UserRole, RolePermission, AuditEntry, Directory,
  find_user, find_role, load_role_permission_codes,
}
use auth_sso.Authz.Scope.{UserScope, AccessTarget, resolve_scope, assert_within_scope}
use auth_sso.Authz.Operator.{
  OperatorAuthorization, load_operator_authorization, exceeds, assert_can_mutate_admin_target,
  assert_can_mutate_role_target,
}
use Prim.Native.String

pub data WriteResult : Type 0 where
  done : WriteResult
  rejected : ErrorCode → String → ℕ → WriteResult

pub record Outcome : Type 0 where
  pub result : Result WriteResult
  pub directory : Directory
  pub converged : List String

abbrev pub unchanged : Result WriteResult → Directory → Outcome
unchanged result d = record { result = result; directory = d; converged = [] }

abbrev pub select_roles : List String → Directory → List RoleRecord
select_roles ids d = keep (λ r. includes ids r.id) d.roles

-- `r.deptId !== userDeptId || r.status !== ENTITY_ACTIVE`
abbrev foreign : String → RoleRecord → Bool
foreign dept r = not (r.dept_id == dept) || not (entity_is_active r.status)

abbrev pub overreaching : OperatorAuthorization → Directory → RoleRecord → Bool
overreaching o d role = exceeds o (load_role_permission_codes d role.id)

abbrev refuse_overreach : Option RoleRecord → Result (Option String)
refuse_overreach none = ok none
refuse_overreach (some r) =
    err (forbidden_error (String.◌++◌ "不能分配超出自身权限的角色「" (String.◌++◌ r.name "」")))

-- By whether the operator is SUPER_ADMIN, and whether some role is a system role.
abbrev pub judge_grant : Bool → Bool → Option RoleRecord → Result (Option String)
judge_grant true system over = ok none
judge_grant false true over = err (forbidden_error "仅系统管理员可以分配系统内置角色")
judge_grant false false over = refuse_overreach over

abbrev pub judge_operator :
    Option OperatorAuthorization → Directory → List RoleRecord → Result (Option String)
judge_operator none d roles = err (forbidden_error "操作者账号不可用")
judge_operator (some o) d roles =
    judge_grant o.is_admin (any (λ r. r.is_system) roles) (find (overreaching o d) roles)

-- By the three tests on the roles, in their order.
abbrev pub judge_roles :
    Bool
    → Bool
    → Bool
    → Option OperatorAuthorization
    → Directory
    → List RoleRecord
    → Result (Option String)
judge_roles false complete alien o d roles = ok (some "该用户尚未分配部门，请先为用户分配部门后再分配角色")
judge_roles true false alien o d roles = ok (some "存在无效角色")
judge_roles true true true o d roles = ok (some "部分角色不属于该用户所属部门或已禁用，无法分配")
judge_roles true true false o d roles = judge_operator o d roles

abbrev dept_text : Option String → String
dept_text none = ""
dept_text (some dept) = dept

unfoldable pub validate_role_assignment :
    Directory → Option String → List String → String → Result (Option String)
validate_role_assignment d dept ids operator =
    judge_roles (truthy_text (dept_text dept)) (nat_eq (length (select_roles ids d)) (length ids))
      (any (foreign (dept_text dept)) (select_roles ids d)) (load_operator_authorization d operator)
      d (select_roles ids d)

abbrev pub bound_rows : String → List String → List UserRole
bound_rows user [] = []
bound_rows user (id ∷ ids) = record { user_id = user; role_id = id } ∷ bound_rows user ids

abbrev audited : String → String → String → List String → Directory → Directory
audited operator operation target params d = record d {
  audit =
      d.audit
      ++ record { user_id = operator; operation = operation; target = target; params = params }
        ∷ [];
}

unfoldable pub replace_user_roles : String → String → List String → Directory → Directory
replace_user_roles operator user ids d = audited operator "USER_ROLE_ASSIGN" user ids (record d {
  user_roles = keep (λ ur. not (ur.user_id == user)) d.user_roles ++ bound_rows user ids;
})

abbrev pub finish_assignment :
    Result (Option String) → String → String → List String → Directory → Outcome
finish_assignment (err e) operator user ids d = unchanged (err e) d
finish_assignment (ok (some message)) operator user ids d =
    unchanged (ok (rejected validation_error message 400)) d
finish_assignment (ok none) operator user ids d = record {
  result = ok done;
  directory = replace_user_roles operator user ids d;
  converged = user ∷ [];
}

-- `withScopedRow` up to the handler, and `assertCanMutateAdminTarget`: the first that throws.
abbrev pub guarded : Checked → Checked → Directory → Outcome → Outcome
guarded (err e) mutable d next = unchanged (err e) d
guarded (ok _) (err e) d next = unchanged (err e) d
guarded (ok _) (ok _) d next = next

abbrev pub scope_check : Directory → String → Option String → String → Checked
scope_check d operator dept message =
    assert_within_scope (resolve_scope d operator)
      (record { dept_id = dept; message = message } ∷ [])

abbrev pub own_roles : Directory → Outcome
own_roles d = unchanged (ok (rejected forbidden "不能修改自己的角色，请由其他管理员操作" 403)) d

abbrev pub assign_to : Option UserRecord → String → List String → Directory → Outcome
assign_to none operator ids d = unchanged (ok (rejected not_found "用户不存在" 404)) d
assign_to (some u) operator ids d =
    guarded (scope_check d operator u.dept_id "无权操作该用户")
      (assert_can_mutate_admin_target d operator u.id) d
      (finish_assignment (validate_role_assignment d u.dept_id ids operator) operator u.id ids d)

unfoldable pub assign_user_roles : String → String → List String → Directory → Outcome
assign_user_roles operator target ids d =
    if operator == target then own_roles d else assign_to (find_user target d) operator ids d

-- The role ids bound to the user.
unfoldable pub bound_roles : String → List UserRole → List String
bound_roles user [] = []
bound_roles user (ur ∷ urs) =
    let rest = bound_roles user urs in if ur.user_id == user then ur.role_id ∷ rest else rest

unfoldable pub unbind_role : String → String → String → Directory → Directory
unbind_role operator user role d = audited operator "USER_ROLE_ASSIGN" user (role ∷ []) (record d {
  user_roles = keep (λ ur. not (ur.user_id == user && ur.role_id == role)) d.user_roles;
})

-- `bound.length <= 1 && bound.some(...)`
abbrev pub last_role : List String → String → Bool
last_role bound role = leb (length bound) 1 && includes bound role

abbrev pub finish_removal : Bool → String → String → String → Directory → Outcome
finish_removal true operator user role d =
    unchanged (ok (rejected validation_error "用户至少需要保留一个角色；如需停用账号，请在用户详情使用「禁用账号」" 400)) d
finish_removal false operator user role d = record {
  result = ok done;
  directory = unbind_role operator user role d;
  converged = user ∷ [];
}

abbrev pub remove_from : Option UserRecord → String → String → Directory → Outcome
remove_from none operator role d = unchanged (ok (rejected not_found "用户不存在" 404)) d
remove_from (some u) operator role d =
    guarded (scope_check d operator u.dept_id "无权操作该用户")
      (assert_can_mutate_admin_target d operator u.id) d
      (finish_removal (last_role (bound_roles u.id d.user_roles) role) operator u.id role d)

unfoldable pub remove_user_role : String → String → String → Directory → Outcome
remove_user_role operator target role d =
    if operator == target then own_roles d else remove_from (find_user target d) operator role d
