-- ===== src/Authz/Directory.antt =====
-- The tables of PostgreSQL that an authorization decision reads (apps/portal/src/db/schema), and the
-- joins of apps/portal/src/lib/authz/operator.ts over them.
pub mod Joins
use auth_sso.Base.{
  String, Bool, true, false, Option, none, some, List, [], ◌∷◌, ◌++◌, ◌==◌, if◌then◌else◌, find,
}
use auth_sso.Contracts.{UserStatus, EntityStatus, entity_is_active}
use auth_sso.Domain.Department.{DeptNode}

pub record UserRecord : Type 0 where
  pub id : String
  pub status : UserStatus
  pub dept_id : Option String

pub record RoleRecord : Type 0 where
  pub id : String
  pub name : String
  pub code : String
  pub dept_id : String
  pub status : EntityStatus
  pub is_system : Bool

pub record PermissionRecord : Type 0 where
  pub id : String
  pub code : String
  pub status : EntityStatus

pub record UserRole : Type 0 where
  pub user_id : String
  pub role_id : String

pub record RolePermission : Type 0 where
  pub role_id : String
  pub permission_id : String

-- A row of the security audit.
pub record AuditEntry : Type 0 where
  pub user_id : String
  pub operation : String
  pub target : String
  pub params : List String

pub record Directory : Type 0 where
  pub users : List UserRecord
  pub roles : List RoleRecord
  pub permissions : List PermissionRecord
  pub user_roles : List UserRole
  pub role_permissions : List RolePermission
  pub departments : List DeptNode
  pub audit : List AuditEntry

abbrev pub find_user : String → Directory → Option UserRecord
find_user id d = find (λ u. u.id == id) d.users

abbrev pub find_role : String → Directory → Option RoleRecord
find_role id d = find (λ r. r.id == id) d.roles

abbrev pub find_permission : String → Directory → Option PermissionRecord
find_permission id d = find (λ p. p.id == id) d.permissions

abbrev pub with_active_role : Option RoleRecord → List RoleRecord → List RoleRecord
with_active_role none rest = rest
with_active_role (some r) rest = if entity_is_active r.status then r ∷ rest else rest

-- The ACTIVE roles of a user, by the rows of `user_roles`.
unfoldable pub held_roles : String → Directory → List UserRole → List RoleRecord
held_roles user d [] = []
held_roles user d (ur ∷ urs) =
    let rest = held_roles user d urs in
    if ur.user_id == user then with_active_role (find_role ur.role_id d) rest else rest

abbrev pub roles_of : String → Directory → List RoleRecord
roles_of user d = held_roles user d d.user_roles

abbrev pub with_active_code : Option PermissionRecord → List String → List String
with_active_code none rest = rest
with_active_code (some p) rest = if entity_is_active p.status then p.code ∷ rest else rest

-- The codes of the ACTIVE permissions of a role, by the rows of `role_permissions`.
unfoldable pub granted_codes : String → Directory → List RolePermission → List String
granted_codes role d [] = []
granted_codes role d (rp ∷ rps) =
    let rest = granted_codes role d rps in
    if rp.role_id == role then with_active_code (find_permission rp.permission_id d) rest else rest

abbrev pub load_role_permission_codes : Directory → String → List String
load_role_permission_codes d role = granted_codes role d d.role_permissions

unfoldable pub codes_of_roles : Directory → List RoleRecord → List String
codes_of_roles d [] = []
codes_of_roles d (r ∷ rs) = load_role_permission_codes d r.id ++ codes_of_roles d rs

abbrev pub held_codes : List RoleRecord → List String
held_codes [] = []
held_codes (r ∷ rs) = r.code ∷ held_codes rs

abbrev pub load_target_permission_codes : Directory → String → List String
load_target_permission_codes d user = codes_of_roles d (roles_of user d)
