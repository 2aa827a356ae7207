-- ===== src/Domain/Role.antt =====
-- apps/portal/src/domain/role/role.ts. A field of a patch is `none` when it is undefined, and a
-- nullable one holds an option inside.
use auth_sso.Base.{ℕ, String, ◌≡◌, Bool, false, not, ◌||◌, Option, ◌==◌, arith, eq_iff, or_else, ℤ}
use auth_sso.Contracts.{EntityStatus, entity_eq}
use auth_sso.Errors.{
  Checked, throw_if, rule_violation_as, ErrorCode, cannot_delete_system_role,
  cannot_modify_system_role,
}

pub record Role : Type 0 where
  pub id : String
  pub name : String
  pub code : String
  pub description : Option String
  pub dept_id : String
  pub is_system : Bool
  pub status : EntityStatus
  pub sort : ℤ
  pub created_at : ℕ

pub record CreateRoleInput : Type 0 where
  pub name : String
  pub code : String
  pub description : Option String
  pub dept_id : String
  pub sort : ℤ

pub record RolePatch : Type 0 where
  pub name : Option String
  pub description : Option (Option String)
  pub dept_id : Option String
  pub sort : Option ℤ
  pub status : Option EntityStatus

unfoldable create_role : CreateRoleInput → String → ℕ → Role
create_role input id now = record {
  id = id;
  name = input.name;
  code = input.code;
  description = input.description;
  dept_id = input.dept_id;
  is_system = false;
  status = EntityStatus.active;
  sort = input.sort;
  created_at = now;
}

unfoldable apply_role_update : Role → RolePatch → Role
apply_role_update role patch = record role {
  name = or_else patch.name role.name;
  description = or_else patch.description role.description;
  dept_id = or_else patch.dept_id role.dept_id;
  sort = or_else patch.sort role.sort;
  status = or_else patch.status role.status;
}

pub data SystemRoleAction : Type 0 where
  modify delete : SystemRoleAction

abbrev guard_code : SystemRoleAction → ErrorCode
guard_code SystemRoleAction.delete = cannot_delete_system_role
guard_code SystemRoleAction.modify = cannot_modify_system_role

unfoldable guard_not_system_role : Role → SystemRoleAction → Checked
guard_not_system_role role action =
    throw_if role.is_system (rule_violation_as (guard_code action) "系统内置角色禁止修改或删除")

unfoldable has_role_permission_impact : Role → Role → Bool → Bool
has_role_permission_impact original updated permission_changed =
    not (original.dept_id == updated.dept_id)
    || (not (entity_eq original.status updated.status) || permission_changed)

-- An update whose result `hasRolePermissionImpact` finds harmless, the permissions unchanged, leaves
-- the department and the status, and the code and the mark of a system role as well.
harmless_role_update :
    (role : Role) (patch : RolePatch)
    → has_role_permission_impact role (apply_role_update role patch) false ≡ false
    → ((apply_role_update role patch).dept_id ≡ role.dept_id)
      × ((apply_role_update role patch).status ≡ role.status)
      × ((apply_role_update role patch).code ≡ role.code)
      × ((apply_role_update role patch).is_system ≡ role.is_system)
unfolding has_role_permission_impact apply_role_update
harmless_role_update role patch h =
    ground (arith, h, eq_iff role.dept_id (or_else patch.dept_id role.dept_id))
