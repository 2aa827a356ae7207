-- ===== src/Authz/Operator.antt =====
-- apps/portal/src/lib/authz/operator.ts: what an operator may do to another user or to a role.
use auth_sso.Base.{
  String, ◌≡◌, ◌↔◌, ◌⊎◌, inl, inr, refl, sym, subst, some_inj, Bool, true, false, not, Option, none,
  some, List, arith, if◌then◌else◌, any, includes, includes_iff, Among, any-Among, Among-any,
}
use auth_sso.Contracts.{user_is_active}
use auth_sso.Contracts.Authorization.{is_admin_role}
use auth_sso.Errors.{Checked, ok, err, forbidden_error}
use auth_sso.Authz.Directory.{
  Directory, UserRecord, find_user, roles_of, held_codes, codes_of_roles,
  load_target_permission_codes, load_role_permission_codes,
}

pub record OperatorAuthorization : Type 0 where
  pub is_admin : Bool
  pub permissions : List String

abbrev authorization_of : Option UserRecord → Directory → Option OperatorAuthorization
authorization_of none d = none
authorization_of (some u) d =
    if user_is_active u.status
    then some (record {
      is_admin = is_admin_role (held_codes (roles_of u.id d));
      permissions = codes_of_roles d (roles_of u.id d);
    })
    else none

unfoldable pub load_operator_authorization : Directory → String → Option OperatorAuthorization
load_operator_authorization d operator = authorization_of (find_user operator d) d

unfoldable pub target_has_admin_role : Directory → String → Bool
target_has_admin_role d target = is_admin_role (held_codes (roles_of target d))

-- Some code of the list is not the operator's.
abbrev pub exceeds : OperatorAuthorization → List String → Bool
exceeds operator codes = any (λ c. not (includes operator.permissions c)) codes

-- By the three tests of the source, in their order.
abbrev judge_tests : Bool → Bool → Bool → Checked
judge_tests true target_admin exceeding = ok tt
judge_tests false true exceeding = err (forbidden_error "系统管理员账号只能由管理员操作")
judge_tests false false true = err (forbidden_error "不能操作权限高于自身的用户")
judge_tests false false false = ok tt

abbrev judge_user : Option OperatorAuthorization → Bool → List String → Checked
judge_user none target_admin codes = err (forbidden_error "操作者账号不可用")
judge_user (some o) target_admin codes = judge_tests o.is_admin target_admin (exceeds o codes)

unfoldable pub assert_can_mutate_admin_target : Directory → String → String → Checked
assert_can_mutate_admin_target d operator target =
    judge_user (load_operator_authorization d operator) (target_has_admin_role d target)
      (load_target_permission_codes d target)

abbrev judge_role : Option OperatorAuthorization → List String → Checked
judge_role none codes = err (forbidden_error "操作者账号不可用")
judge_role (some o) codes =
    if o.is_admin
    then ok tt
    else if exceeds o codes
    then err (forbidden_error "不能操作权限高于自身的角色")
    else ok tt

unfoldable pub assert_can_mutate_role_target : Directory → String → String → Checked
assert_can_mutate_role_target d operator role =
    judge_role (load_operator_authorization d operator) (load_role_permission_codes d role)

abbrev break_glass : Option OperatorAuthorization → String → Checked
break_glass none message = err (forbidden_error "操作者账号不可用")
break_glass (some o) message = if not o.is_admin then err (forbidden_error message) else ok tt

unfoldable assert_break_glass : Directory → String → String → Checked
assert_break_glass d operator message = break_glass (load_operator_authorization d operator) message

-- Every code is the operator's.
abbrev pub Covers : OperatorAuthorization → List String → Type 0
Covers o codes = (c : String) → Among c codes → Among c o.permissions

pub Covers-iff :
    (o : OperatorAuthorization) (codes : List String) → (exceeds o codes ≡ false) ↔ Covers o codes
Covers-iff o codes =
    (λ h c m. inside c m h (includes o.permissions c) refl, outside (exceeds o codes) refl)
  where
    inside :
        (c : String)
        → Among c codes
        → exceeds o codes ≡ false
        → (b : Bool) → includes o.permissions c ≡ b
        → Among c o.permissions
    inside c m h true e = (includes_iff o.permissions c).0 e
    inside c m h false e =
        ground (arith, h, e, Among-any (λ x. not (includes o.permissions x)) codes c m)

    outside : (b : Bool) → exceeds o codes ≡ b → Covers o codes → b ≡ false
    outside false e k = refl
    outside true e k =
        let (c, m, n) = any-Among (λ x. not (includes o.permissions x)) codes e in
        ground (arith, n, includes_iff o.permissions c, k c m)

abbrev Permitted : OperatorAuthorization → Bool → List String → Type 0
Permitted o target_admin codes = (o.is_admin ≡ true) ⊎ ((target_admin ≡ false) × Covers o codes)

permitted :
    (o : OperatorAuthorization) (b : Bool) (codes : List String)
    → (judge_user (some o) b codes ≡ ok tt) ↔ Permitted o b codes
permitted o b codes = by_tests o.is_admin b (exceeds o codes) (Covers-iff o codes)
  where
    by_tests :
        (a b e : Bool)
        → ((e ≡ false) ↔ Covers o codes)
        → (judge_tests a b e ≡ ok tt) ↔ ((a ≡ true) ⊎ ((b ≡ false) × Covers o codes))
    by_tests true b e k = (λ _. inl refl, λ _. refl)
    by_tests false true e k = (λ h. cc, λ w. ground (arith, w))
    by_tests false false true k = (λ h. cc, λ w. ground (arith, w, k))
    by_tests false false false k = (λ _. inr (refl, k.0 refl), λ _. refl)

-- `assertCanMutateAdminTarget` passes exactly if the operator's account is usable and he is
-- SUPER_ADMIN, or the target is not, and holds no permission that the operator lacks.
pub mutate_admin_target_iff :
    (d : Directory) (operator target : String)
    → (assert_can_mutate_admin_target d operator target ≡ ok tt) ↔ (
        (o : OperatorAuthorization) × (load_operator_authorization d operator ≡ some o)
        × ((o.is_admin ≡ true)
            ⊎ ((target_has_admin_role d target ≡ false)
                × Covers o (load_target_permission_codes d target))))
unfolding assert_can_mutate_admin_target
mutate_admin_target_iff d operator target =
    judged (load_operator_authorization d operator) (target_has_admin_role d target)
      (load_target_permission_codes d target)
  where
    judged :
        (a : Option OperatorAuthorization) (b : Bool) (codes : List String)
        → (judge_user a b codes ≡ ok tt) ↔ (
            (o : OperatorAuthorization) × (a ≡ some o)
            × ((o.is_admin ≡ true) ⊎ ((b ≡ false) × Covers o codes)))
    judged none b codes = (λ h. cc, λ w. cc)
    judged (some o) b codes = (
      λ h. (o, refl, let w = (permitted o b codes).0 h in w),
      λ (x, e, w). (permitted o b codes).1 (subst (λ y. Permitted y b codes) (sym (some_inj e)) w),
    )
