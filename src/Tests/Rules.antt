-- ===== src/Tests/Rules.antt =====
-- The rules of the domain.
use auth_sso.Base.{
  String, ◌≡◌, ◌↔◌, ◌⊎◌, refl, true, false, none, some, List, [], ◌∷◌, Among, pos, arith,
}
use auth_sso.Contracts.{UserStatus, user_is_active, EntityStatus, entity_is_active, PermissionType}
use auth_sso.Contracts.Authorization.{AuthorizationSubject}
use auth_sso.Errors.{ok, err, DomainError, cannot_move_to_child}
use auth_sso.Domain.User.{User, create_user, toggle_user_status, delete_user}
use auth_sso.Domain.User.Lifecycle.{toggle, delete, run, run_all}
use auth_sso.Domain.Department.{
  Department, DepartmentPatch, DeptNode, find_node, validate_no_circular_reference, climb,
  apply_department_update, apply_department_update_with_circular_check,
}
use auth_sso.Domain.Department.Cycle.{Above, validate_no_circular_reference_decides}
use auth_sso.Domain.Department.Acyclic.{IsAcyclic, store_parent, move_keeps_IsAcyclic}
use auth_sso.Domain.Role.{Role, RolePatch}
use auth_sso.Domain.Permission.{Permission, PermissionPatch}
use auth_sso.Domain.Permission.Sync.{Incoming, node, IncomingPermissions, leaf, more}
use auth_sso.Domain.Auth.Authorize.{AuthorizeRole, allowed, validate_authorization, parse_scopes}
use auth_sso.Domain.Auth.Authorize.Access.{authorization_iff}
use auth_sso.Domain.Auth.Authorize.Scopes.{join_scopes, parse_scopes-join}

abbrev subject : AuthorizationSubject
subject = record { role_codes = "CLERK" ∷ []; permission_codes = "user:read" ∷ [] }

abbrev account : UserStatus → User
account status = record {
  id = "u1";
  username = "bob";
  email = none;
  name = "Bob";
  status = status;
  dept_id = some "d1";
  avatar_url = none;
  deleted_at = none;
  password_changed_at = none;
  created_at = 1;
}

abbrev new_user : User
new_user =
    create_user (record { name = "A"; username = "alice"; email = "a@x"; dept_id = none }) "u1" 5

-- The sequence of that example does delete the account.
deleted_at_last : (run_all (toggle ∷ delete 9 ∷ []) new_user).status ≡ UserStatus.deleted
unfolding run_all run toggle_user_status delete_user create_user
deleted_at_last = refl

-- d1 is the root, d2 stands below it, and d3 below d2.
abbrev nodes : List DeptNode
nodes =
    record { id = "d1"; parent_id = none; ancestors = none }
    ∷ record { id = "d2"; parent_id = some "d1"; ancestors = some "d1" }
    ∷ record { id = "d3"; parent_id = some "d2"; ancestors = some "d1/d2" }
    ∷ []

validate_no_circular_reference_decides_example :
    ((validate_no_circular_reference "d2" "d3" nodes ≡ some (ok tt)) × (Above nodes "d2" "d3" → ⊥))
    ⊎ ((e : DomainError) × (validate_no_circular_reference "d2" "d3" nodes ≡ some (err e))
        × (e.code ≡ cannot_move_to_child)
        × Above nodes "d2" "d3")
validate_no_circular_reference_decides_example =
    validate_no_circular_reference_decides "d2" "d3" nodes refl

abbrev pair : List DeptNode
pair =
    record { id = "d1"; parent_id = none; ancestors = none }
    ∷ record { id = "d2"; parent_id = none; ancestors = none }
    ∷ []

pair-IsAcyclic : IsAcyclic pair
unfolding IsAcyclic find_node
pair-IsAcyclic c p t e a = ground arith

abbrev second : Department
second = record {
  id = "d2";
  parent_id = none;
  ancestors = none;
  name = "two";
  code = none;
  sort = pos 0;
  status = EntityStatus.active;
  created_at = 1;
}

abbrev below_first : DepartmentPatch
below_first = record {
  name = none;
  code = none;
  parent_id = some (some "d1");
  sort = none;
  status = none;
  ancestors = some (some "d1");
}

move_keeps_IsAcyclic_example : IsAcyclic (store_parent "d2" (some "d1") pair)
unfolding find_node apply_department_update_with_circular_check apply_department_update
    validate_no_circular_reference climb
move_keeps_IsAcyclic_example =
    move_keeps_IsAcyclic pair second (apply_department_update second below_first) below_first
      pair-IsAcyclic refl refl

abbrev role : Role
role = record {
  id = "r1";
  name = "clerk";
  code = "CLERK";
  description = none;
  dept_id = "d1";
  is_system = false;
  status = EntityStatus.active;
  sort = pos 0;
  created_at = 1;
}

abbrev renaming : RolePatch
renaming = record {
  name = some "Clerk";
  description = none;
  dept_id = none;
  sort = none;
  status = none;
}

abbrev api : Permission
api = record {
  id = "p1";
  name = "users";
  code = "portal:user:read";
  type = PermissionType.api;
  description = none;
  path = none;
  icon = none;
  visible = none;
  client_id = some "portal";
  parent_id = none;
  status = EntityStatus.active;
  sort = pos 0;
  created_at = 1;
}

-- The permission becomes a page, and loses its client.
abbrev to_page : PermissionPatch
to_page = record {
  name = none;
  code = none;
  type = some PermissionType.page;
  description = none;
  path = some (some "/users");
  icon = none;
  visible = none;
  client_id = none;
  parent_id = none;
  sort = none;
  status = none;
}

abbrev entry : String → Incoming
entry code = record {
  code = code;
  name = code;
  type = PermissionType.directory;
  path = none;
  icon = none;
  visible = none;
  sort = none;
}

abbrev tree : IncomingPermissions
tree =
    more (node (entry "a") (more (node (entry "b") leaf) leaf)) (more (node (entry "c") leaf) leaf)

abbrev user_roles : List AuthorizeRole
user_roles =
    record { id = "r1"; code = "CLERK"; status = EntityStatus.active; client_ids = "shop" ∷ [] }
    ∷ []

authorization_iff_example :
    (validate_authorization "shop" UserStatus.active user_roles ≡ allowed) ↔ (
      (user_is_active UserStatus.active ≡ true)
      × (r : AuthorizeRole) × Among r user_roles
      × (entity_is_active r.status ≡ true)
      × ((r.code ≡ "SUPER_ADMIN") ⊎ Among "shop" r.client_ids))
authorization_iff_example = authorization_iff "shop" UserStatus.active user_roles

parse_scopes-join_example : parse_scopes (join_scopes ("ab" ∷ "c" ∷ [])) ≡ "ab" ∷ "c" ∷ []
parse_scopes-join_example =
    parse_scopes-join ("ab" ∷ "c" ∷ []) ((refl, (refl, (refl, tt))), ((refl, (refl, tt)), tt))
      (refl, (refl, tt))
