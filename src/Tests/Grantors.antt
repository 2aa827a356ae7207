-- ===== src/Tests/Grantors.antt =====
-- Guards of the administration, and permission checks.
use auth_sso.Base.{
  String, ◌≡◌, ◌≢◌, ◌↔◌, ◌⊎◌, inr, refl, true, false, Option, none, some, List, [], ◌∷◌, All,
  lookup,
}
use auth_sso.Contracts.{UserStatus, EntityStatus}
use auth_sso.Contracts.Authorization.{is_admin_role, can_any}
use auth_sso.Errors.{ok}
use auth_sso.Permissions.{
  UserPermissionContext, get_user_permission_context, query_users, store_context, context_of,
  active_roles, active_codes, all_codes, dedup_from, dept_ids_of, role_refs,
  to_permission_context_or_null,
}
use auth_sso.Permissions.Freshness.{Current}
use auth_sso.Authz.Directory.{
  Directory, RoleRecord, find_role, held_roles, granted_codes, codes_of_roles,
  load_target_permission_codes, load_role_permission_codes,
}
use auth_sso.Authz.Scope.{
  AccessTarget, Reaches, expand_role_dept_subtrees, resolve_scope, is_within_scope,
  assert_within_scope, assert_within_scope_iff,
}
use auth_sso.Authz.Operator.{
  OperatorAuthorization, load_operator_authorization, target_has_admin_role, Covers,
  assert_can_mutate_admin_target, assert_can_mutate_role_target, mutate_admin_target_iff,
}
use auth_sso.Authz.Assignment.{
  assign_user_roles, remove_user_role, validate_role_assignment, bound_roles,
}
use auth_sso.Authz.Assignment.Escalation.{assignment_never_escalates}
use auth_sso.Authz.Assignment.Removal.{removal_leaves_role}
use auth_sso.Authz.RolePermissions.{assign_role_permissions}
use auth_sso.Authz.RolePermissions.Escalation.{binding_never_escalates}
use auth_sso.Authz.Check.{PermissionCheckOptions, check_permission}
use auth_sso.Authz.Check.Decision.{Passes, check_permission_sound}
use auth_sso.Tests.Data.{empty_cache}
use auth_sso.Tests.Caches.{rows, empty_cache-IsCoherent}

-- The role r1 of the department d1 grants user:read, and r2 grants nothing. The operator u1 holds r1,
-- and the user u2 both.
abbrev office : Directory
office = record {
  users =
      record { id = "u1"; status = UserStatus.active; dept_id = some "d1" }
      ∷ record { id = "u2"; status = UserStatus.active; dept_id = some "d1" }
      ∷ [];
  roles =
      record {
        id = "r1";
        name = "clerk";
        code = "CLERK";
        dept_id = "d1";
        status = EntityStatus.active;
        is_system = false;
      }
      ∷ record {
        id = "r2";
        name = "guest";
        code = "GUEST";
        dept_id = "d1";
        status = EntityStatus.active;
        is_system = false;
      }
      ∷ [];
  permissions = record { id = "p1"; code = "user:read"; status = EntityStatus.active } ∷ [];
  user_roles =
      record { user_id = "u1"; role_id = "r1" }
      ∷ record { user_id = "u2"; role_id = "r1" }
      ∷ record { user_id = "u2"; role_id = "r2" }
      ∷ [];
  role_permissions = record { role_id = "r1"; permission_id = "p1" } ∷ [];
  departments = record { id = "d1"; parent_id = none; ancestors = none } ∷ [];
  audit = [];
}

abbrev operator : OperatorAuthorization
operator = record { is_admin = false; permissions = "user:read" ∷ [] }

assert_within_scope_iff_example :
    (assert_within_scope
        (record { dept_ids = "d1" ∷ [] })
        (record { dept_id = some "d1"; message = "no" } ∷ [])
      ≡ ok tt)
    ↔ (◌≢◌ {A = List AccessTarget} (record { dept_id = some "d1"; message = "no" } ∷ []) []
        × All
            (Reaches (record { dept_ids = "d1" ∷ [] }))
            (record { dept_id = some "d1"; message = "no" } ∷ []))
assert_within_scope_iff_example =
    assert_within_scope_iff (record { dept_ids = "d1" ∷ [] })
      (record { dept_id = some "d1"; message = "no" } ∷ [])

mutate_admin_target_iff_example : (assert_can_mutate_admin_target office "u1" "u2" ≡ ok tt) ↔ (
    (o : OperatorAuthorization) × (load_operator_authorization office "u1" ≡ some o)
    × ((o.is_admin ≡ true)
        ⊎ ((target_has_admin_role office "u2" ≡ false)
            × Covers o (load_target_permission_codes office "u2"))))
mutate_admin_target_iff_example = mutate_admin_target_iff office "u1" "u2"

assignment_never_escalates_example :
    Covers operator
      (load_target_permission_codes (assign_user_roles "u1" "u2" ("r1" ∷ []) office).directory "u2")
unfolding assign_user_roles load_operator_authorization held_roles codes_of_roles granted_codes
    is_admin_role validate_role_assignment resolve_scope expand_role_dept_subtrees dedup_from
    is_within_scope assert_within_scope assert_can_mutate_admin_target target_has_admin_role
assignment_never_escalates_example =
    assignment_never_escalates "u1" "u2" ("r1" ∷ []) office operator refl refl refl

removal_leaves_role_example :
    (bound_roles "u2" (remove_user_role "u1" "u2" "r2" office).directory.user_roles ≢ [])
    × ((other : String)
        → "u2" ≢ other
        → bound_roles other (remove_user_role "u1" "u2" "r2" office).directory.user_roles
          ≡ bound_roles other office.user_roles)
unfolding remove_user_role load_operator_authorization held_roles codes_of_roles granted_codes
    is_admin_role bound_roles resolve_scope expand_role_dept_subtrees dedup_from is_within_scope
    assert_within_scope assert_can_mutate_admin_target target_has_admin_role
removal_leaves_role_example =
    removal_leaves_role "u1" "u2" "r2" office (λ e. cc) (refl, (refl, tt)) refl

binding_never_escalates_example :
    (r : RoleRecord) × (find_role "r2" office ≡ some r)
    × (r.is_system ≡ false)
    × Covers operator (
        load_role_permission_codes
          (assign_role_permissions "u1" "r2" ("p1" ∷ []) office).directory
          "r2")
unfolding assign_role_permissions load_operator_authorization held_roles codes_of_roles
    granted_codes is_admin_role resolve_scope expand_role_dept_subtrees dedup_from is_within_scope
    assert_within_scope assert_can_mutate_role_target
binding_never_escalates_example =
    binding_never_escalates "u1" "r2" ("p1" ∷ []) office operator refl refl refl

abbrev reading : PermissionCheckOptions
reading = record {
  permissions = "user:read" ∷ [];
  roles = [];
  require_all = false;
  allow_password_change_required = false;
}

check_permission_sound_example :
    ◌≡◌ {A = Option String} (some "alice") (some "alice")
    × (((reading.roles ≡ []) × (reading.permissions ≡ []))
        ⊎ ((c : UserPermissionContext) × Current rows "alice" c × Passes reading (some c)))
unfolding check_permission get_user_permission_context query_users store_context context_of
    active_roles active_codes all_codes dedup_from dept_ids_of role_refs
    to_permission_context_or_null is_admin_role can_any lookup
check_permission_sound_example =
    check_permission_sound rows (some rows) reading (some "alice") "alice" 0 5000 empty_cache
      (inr refl) empty_cache-IsCoherent refl
