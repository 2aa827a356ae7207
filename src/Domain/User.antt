-- ===== src/Domain/User.antt =====
-- apps/portal/src/domain/user/user.ts. An instant is a number of milliseconds; the current one and
-- the generated id are arguments. A field of a patch is `none` when it is undefined, and a nullable
-- one holds an option inside.
pub mod Lifecycle
use auth_sso.Base.{
  ℕ, String, Bool, true, false, not, ◌&&◌, Option, none, some, ◌==◌, if◌then◌else◌, or_else,
  truthy_text,
}
use auth_sso.Contracts.{UserStatus}
use auth_sso.Errors.{Result, ok, err, rule_violation}

pub record User : Type 0 where
  pub id : String
  pub username : String
  pub email : Option String
  pub name : String
  pub status : UserStatus
  pub dept_id : Option String
  pub avatar_url : Option String
  pub deleted_at : Option ℕ
  pub password_changed_at : Option ℕ
  pub created_at : ℕ

-- The fields of `CreateUserInput` that `createUser` reads; `dept_id` is null or undefined if `none`.
pub record CreateUserInput : Type 0 where
  pub name : String
  pub username : String
  pub email : String
  pub dept_id : Option String

pub record UserPatch : Type 0 where
  pub name : Option String
  pub email : Option (Option String)
  pub status : Option UserStatus
  pub dept_id : Option (Option String)
  pub avatar_url : Option (Option String)

-- `value || null`
abbrev or_null : Option String → Option String
or_null none = none
or_null (some s) = if truthy_text s then some s else none

unfoldable pub create_user : CreateUserInput → String → ℕ → User
create_user input id now = record {
  id = id;
  username = input.username;
  email = some input.email;
  name = input.name;
  status = UserStatus.active;
  dept_id = or_null input.dept_id;
  avatar_url = none;
  deleted_at = none;
  password_changed_at = none;
  created_at = now;
}

-- The guards of the operations by the current status.
abbrev toggled : UserStatus → User → Result User
toggled UserStatus.deleted user = err (rule_violation "已逻辑删除的用户无法操作状态")
toggled UserStatus.locked user = err (rule_violation "已锁定的用户无法直接切换状态，请使用解锁功能")
toggled UserStatus.active user = ok (record user { status = UserStatus.disabled })
toggled UserStatus.disabled user = ok (record user { status = UserStatus.active })

unfoldable pub toggle_user_status : User → Result User
toggle_user_status user = toggled user.status user

abbrev unlocked : UserStatus → User → Result User
unlocked UserStatus.deleted user = err (rule_violation "已逻辑删除的用户无法解锁")
unlocked UserStatus.locked user = ok (record user { status = UserStatus.active })
unlocked _ user = err (rule_violation "仅被锁定的用户需要解锁")

unfoldable pub unlock_user : User → Result User
unlock_user user = unlocked user.status user

abbrev removed : UserStatus → ℕ → User → Result User
removed UserStatus.deleted now user = err (rule_violation "用户已被删除，不可重复操作")
removed _ now user = ok (record user { status = UserStatus.deleted; deleted_at = some now })

unfoldable pub delete_user : ℕ → User → Result User
delete_user now user = removed user.status now user

-- `a ?? b` between values that may be null or undefined.
abbrev either_text : Option (Option String) → Option String → Option String
either_text (some (some s)) d = some s
either_text _ d = d

-- `a === undefined ? b : a`
abbrev pub given : Option (Option String) → Option String → Option String
given none d = d
given (some v) d = v

abbrev merged : UserPatch → UserStatus → User → User
merged patch next user = record user {
  name = or_else patch.name user.name;
  email = either_text patch.email user.email;
  status = next;
  dept_id = given patch.dept_id user.dept_id;
  avatar_url = given patch.avatar_url user.avatar_url;
}

-- By the current status and the next one.
abbrev updated : UserStatus → UserStatus → UserPatch → ℕ → User → Result User
updated UserStatus.deleted next patch now user = err (rule_violation "无法更新已逻辑删除的用户")
updated current UserStatus.deleted patch now user = delete_user now user
updated UserStatus.locked UserStatus.locked patch now user =
    ok (merged patch UserStatus.locked user)
updated UserStatus.locked next patch now user = err (rule_violation "已锁定的用户无法直接切换状态，请使用解锁功能")
updated current next patch now user = ok (merged patch next user)

unfoldable pub apply_user_update : UserPatch → ℕ → User → Result User
unfolding delete_user
apply_user_update patch now user =
    updated user.status (or_else patch.status user.status) patch now user

-- `newDeptId` is undefined, null or a text.
unfoldable has_dept_changed : Option String → Option (Option String) → Bool
has_dept_changed old none = false
has_dept_changed old (some new) = not (or_else old "" == or_else new "")
