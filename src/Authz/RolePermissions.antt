-- ===== src/Authz/RolePermissions.antt =====
-- `assignRolePermissions` of apps/portal/src/lib/role-permission-assignment.ts, with the conventions
-- of the assignment of roles.
pub mod Escalation
use auth_sso.Base.{
  String, Bool, true, false, not, ◌&&◌, Option, none, some, List, [], ◌∷◌, ◌++◌, ◌==◌, nat_eq,
  if◌then◌else◌, length, keep, any, includes,
}
use auth_sso.Contracts.{entity_is_active}
use auth_sso.Errors.{
  forbidden, validation_error, not_found, cannot_modify_system_role, Checked, ok, err,
}
use auth_sso.Authz.Directory.{
  RoleRecord, PermissionRecord, UserRole, RolePermission, AuditEntry, Directory, find_role,
}
use auth_sso.Authz.Operator.{
  OperatorAuthorization, load_operator_authorization, assert_can_mutate_role_target,
}
use auth_sso.Authz.Assignment.{Outcome, done, rejected, unchanged, scope_check}

-- The ACTIVE permissions with the ids: none if there are no ids, when the source does not ask.
abbrev pub found_permissions : List String → Directory → List PermissionRecord
found_permissions ids d = keep (λ p. includes ids p.id && entity_is_active p.status) d.permissions

abbrev pub bound_permissions : String → List String → List RolePermission
bound_permissions role [] = []
bound_permissions role (id ∷ ids) =
    record { role_id = role; permission_id = id } ∷ bound_permissions role ids

abbrev bound_users : String → List UserRole → List String
bound_users role [] = []
bound_users role (ur ∷ urs) =
    let rest = bound_users role urs in if ur.role_id == role then ur.user_id ∷ rest else rest

unfoldable pub replace_role_permissions : String → String → List String → Directory → Directory
replace_role_permissions operator role ids d = record d {
  role_permissions =
      keep (λ rp. not (rp.role_id == role)) d.role_permissions ++ bound_permissions role ids;
  audit =
      d.audit
      ++ record {
        user_id = operator;
        operation = "ROLE_PERMISSION_ASSIGN";
        target = role;
        params = ids;
      }
        ∷ [];
}

abbrev pub lacks : OperatorAuthorization → PermissionRecord → Bool
lacks o p = not (includes o.permissions p.code)

abbrev write_permissions : String → String → List String → Directory → Outcome
write_permissions operator role ids d = record {
  result = ok done;
  directory = replace_role_permissions operator role ids d;
  converged = bound_users role d.user_roles;
}

-- By whether the operator is SUPER_ADMIN, and whether he lacks some permission.
abbrev pub judge_lack : Bool → Bool → String → String → List String → Directory → Outcome
judge_lack false true operator role ids d =
    unchanged (ok (rejected forbidden "不能授予超出自身权限范围的权限" 403)) d
judge_lack _ _ operator role ids d = write_permissions operator role ids d

abbrev pub by_operator :
    Option OperatorAuthorization → String → String → List String → Directory → Outcome
by_operator none operator role ids d = unchanged (ok (rejected forbidden "操作者账号不可用" 403)) d
by_operator (some o) operator role ids d =
    judge_lack o.is_admin (any (lacks o) (found_permissions ids d)) operator role ids d

abbrev pub by_ids : Bool → String → String → List String → Directory → Outcome
by_ids false operator role ids d = unchanged (ok (rejected validation_error "存在无效或已停用的权限" 400)) d
by_ids true operator role ids d =
    by_operator (load_operator_authorization d operator) operator role ids d

abbrev pub by_target : Checked → String → String → List String → Directory → Outcome
by_target (err e) operator role ids d = unchanged (err e) d
by_target (ok _) operator role ids d =
    by_ids (nat_eq (length (found_permissions ids d)) (length ids)) operator role ids d

abbrev pub by_kind : Bool → String → String → List String → Directory → Outcome
by_kind true operator role ids d =
    unchanged (ok (rejected cannot_modify_system_role "系统内置角色禁止修改权限绑定" 400)) d
by_kind false operator role ids d =
    by_target (assert_can_mutate_role_target d operator role) operator role ids d

abbrev pub by_scope : Checked → RoleRecord → String → List String → Directory → Outcome
by_scope (err e) role operator ids d = unchanged (err e) d
by_scope (ok _) role operator ids d = by_kind role.is_system operator role.id ids d

abbrev pub assign_on : Option RoleRecord → String → List String → Directory → Outcome
assign_on none operator ids d = unchanged (ok (rejected not_found "角色不存在" 404)) d
assign_on (some role) operator ids d =
    by_scope (scope_check d operator (some role.dept_id) "无权操作该角色") role operator ids d

unfoldable pub assign_role_permissions : String → String → List String → Directory → Outcome
assign_role_permissions operator role ids d = assign_on (find_role role d) operator ids d
