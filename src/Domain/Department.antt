-- ===== src/Domain/Department.antt =====
-- apps/portal/src/domain/department/department.ts. A field of a patch is `none` when it is undefined,
-- and a nullable one holds an option inside.
pub mod Cycle
pub mod Acyclic
use auth_sso.Base.{
  ℕ, String, zero, suc, ◌+◌, Bool, true, false, not, ◌&&◌, ◌||◌, Option, none, some, List, [], ◌∷◌,
  ◌==◌, if◌then◌else◌, or_else, truthy_text, truthy, same_text, includes, find, length, ltb, ℤ,
}
use auth_sso.Contracts.{EntityStatus}
use auth_sso.Errors.{
  Result, Checked, ok, err, rule_violation, rule_violation_as, cannot_move_to_child,
  cannot_delete_root, department_has_children, department_has_users,
}
use Prim.Native.String

pub record Department : Type 0 where
  pub id : String
  pub parent_id : Option String
  pub ancestors : Option String
  pub name : String
  pub code : Option String
  pub sort : ℤ
  pub status : EntityStatus
  pub created_at : ℕ

-- `parent_id` is null or undefined if `none`.
pub record CreateDepartmentInput : Type 0 where
  pub name : String
  pub code : Option String
  pub parent_id : Option String
  pub sort : ℤ

pub record DepartmentPatch : Type 0 where
  pub name : Option String
  pub code : Option (Option String)
  pub parent_id : Option (Option String)
  pub sort : Option ℤ
  pub status : Option EntityStatus
  pub ancestors : Option (Option String)

unfoldable compute_ancestors : String → Option String → String
compute_ancestors parent_id none = parent_id
compute_ancestors parent_id (some path) =
    if truthy_text path then String.◌++◌ path (String.◌++◌ "/" parent_id) else parent_id

abbrev created_ancestors : Option String → Option String → Option String
created_ancestors none path = none
created_ancestors (some parent) path =
    if truthy_text parent then some (compute_ancestors parent path) else none

unfoldable create_department : CreateDepartmentInput → String → Option String → ℕ → Department
create_department input id parent_ancestors now = record {
  id = id;
  parent_id = input.parent_id;
  ancestors = created_ancestors input.parent_id parent_ancestors;
  name = input.name;
  code = input.code;
  sort = input.sort;
  status = EntityStatus.active;
  created_at = now;
}

unfoldable pub apply_department_update : Department → DepartmentPatch → Department
apply_department_update dept patch = record dept {
  name = or_else patch.name dept.name;
  code = or_else patch.code dept.code;
  parent_id = or_else patch.parent_id dept.parent_id;
  ancestors = or_else patch.ancestors dept.ancestors;
  sort = or_else patch.sort dept.sort;
  status = or_else patch.status dept.status;
}

-- An entry of the argument `allDepts`.
pub record DeptNode : Type 0 where
  pub id : String
  pub parent_id : Option String
  pub ancestors : Option String

unfoldable pub find_node : String → List DeptNode → Option DeptNode
find_node id nodes = find (λ d. d.id == id) nodes

-- `parent?.parentId ?? null`
abbrev pub parent_of : Option DeptNode → Option String
parent_of none = none
parent_of (some d) = d.parent_id

-- The loop `while (currentId)`. It is `none` if the fuel runs out.
unfoldable pub climb : ℕ → String → Option String → List String → List DeptNode → Option Checked
climb fuel dept none visited nodes = some (ok tt)
climb zero dept (some current) visited nodes = none
climb (suc fuel) dept (some current) visited nodes =
    let rest = climb fuel dept (parent_of (find_node current nodes)) (current ∷ visited) nodes in
    if not (truthy_text current)
    then some (ok tt)
    else if current == dept
    then some (err (rule_violation_as cannot_move_to_child "不能将父部门设为其子部门，这会导致环形死锁"))
    else if includes visited current
    then some (ok tt)
    else rest

-- Each round but the last two visits another node, so the fuel below is enough.
unfoldable pub validate_no_circular_reference : String → String → List DeptNode → Option Checked
validate_no_circular_reference dept new_parent nodes =
    if dept == new_parent
    then some (err (rule_violation_as cannot_move_to_child "不能将父部门设为自身，这会导致环形死锁"))
    else climb (2 + length nodes) dept (some new_parent) [] nodes

-- Where the update moves the department: the condition of the check, by the patch's parent and
-- the old one.
abbrev pub moved_to : Option (Option String) → Option String → Option String
moved_to none old = none
moved_to (some p) old = if not (same_text p old) && truthy p then p else none

abbrev pub checked : Option Checked → Department → Option (Result Department)
checked none dept = none
checked (some (err e)) dept = some (err e)
checked (some (ok _)) dept = some (ok dept)

abbrev pub check_move : Option String → Department → List DeptNode → Option Checked
check_move none dept nodes = some (ok tt)
check_move (some p) dept nodes = validate_no_circular_reference dept.id p nodes

unfoldable pub apply_department_update_with_circular_check :
    Department → DepartmentPatch → List DeptNode → Option (Result Department)
apply_department_update_with_circular_check dept patch nodes =
    checked (check_move (moved_to patch.parent_id dept.parent_id) dept nodes)
      (apply_department_update dept patch)

abbrev found_ancestors : Option DeptNode → Option String
found_ancestors none = none
found_ancestors (some d) = some (compute_ancestors d.id d.ancestors)

-- Undefined is `none`.
unfoldable resolve_parent_ancestors :
    Department → Option (Option String) → List DeptNode → Option (Option String)
resolve_parent_ancestors dept none nodes = none
resolve_parent_ancestors dept (some none) nodes =
    if same_text none dept.parent_id then none else some none
resolve_parent_ancestors dept (some (some p)) nodes =
    if same_text (some p) dept.parent_id
    then none
    else if not (truthy_text p)
    then some none
    else some (found_ancestors (find_node p nodes))

unfoldable compute_ancestor_prefix : String → Option String → String
compute_ancestor_prefix id none = id
compute_ancestor_prefix id (some path) =
    if truthy_text path then String.◌++◌ path (String.◌++◌ "/" id) else id

unfoldable validate_department_deletable : Bool → Bool → ℕ → ℕ → Checked
validate_department_deletable true has_children users roles =
    err (rule_violation_as cannot_delete_root "根部门不可删除")
validate_department_deletable false true users roles =
    err (rule_violation_as department_has_children "该部门下有子部门，无法删除")
validate_department_deletable false false users roles =
    if ltb 0 users
    then err (rule_violation_as department_has_users "该部门下存在关联用户，无法删除")
    else if ltb 0 roles
    then err (rule_violation "该部门下存在关联角色，无法删除")
    else ok tt
