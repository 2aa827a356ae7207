-- ===== src/Authz/RolePermissions/Escalation.antt =====
-- No operator binds a permission that he lacks to a role, nor changes a system role.
use auth_sso.Base.{
  String, ◌≡◌, refl, sym, ap, ◌∙◌, subst, inl, inr, Bool, true, false, not, ◌&&◌, Option, none,
  some, List, [], ◌∷◌, arith, ◌==◌, eq_iff, if◌then◌else◌, keep, any, includes, includes_iff, Among,
  Among-append, Among-keep, Among-any, find-eq-some,
}
use auth_sso.Contracts.{entity_is_active}
use auth_sso.Errors.{Checked, ok, err}
use auth_sso.Authz.Directory.{
  RoleRecord, PermissionRecord, RolePermission, Directory, find_role, find_permission,
  granted_codes, with_active_code, load_role_permission_codes,
}
use auth_sso.Authz.Operator.{
  OperatorAuthorization, load_operator_authorization, Covers, assert_can_mutate_role_target,
}
use auth_sso.Authz.Assignment.{Outcome, done, scope_check}
use auth_sso.Authz.RolePermissions.{
  found_permissions, bound_permissions, replace_role_permissions, lacks, judge_lack, by_operator,
  by_ids, by_target, by_kind, by_scope, assign_on, assign_role_permissions,
}

-- A granted code comes from a row of the role and an ACTIVE permission.
record IsGranted (role : String) (d : Directory) (c : String) (rp : RolePermission)
    (p : PermissionRecord) : Type 0 where
  of_role : rp.role_id ≡ role
  joined : find_permission rp.permission_id d ≡ some p
  active : entity_is_active p.status ≡ true
  same_code : c ≡ p.code

Granted : String → Directory → String → List RolePermission → Type 0
Granted role d c rps =
    (rp : RolePermission) × Among rp rps × (p : PermissionRecord) × IsGranted role d c rp p

granted_codes_sound :
    (role : String) (d : Directory) (rps : List RolePermission) (c : String)
    → Among c (granted_codes role d rps)
    → Granted role d c rps
unfolding granted_codes Granted
granted_codes_sound role d [] c m = elim m [ ]
granted_codes_sound role d (rp ∷ rps) c m =
    by_role (rp.role_id == role) refl m (granted_codes_sound role d rps c)
  where
    later : Granted role d c rps → Granted role d c (rp ∷ rps)
    later (x, k, p, h) = (x, inr k, p, h)

    by_status :
        (p : PermissionRecord) (b : Bool)
        → rp.role_id ≡ role
        → find_permission rp.permission_id d ≡ some p
        → entity_is_active p.status ≡ b
        → Among c (if b then p.code ∷ granted_codes role d rps else granted_codes role d rps)
        → (Among c (granted_codes role d rps) → Granted role d c rps)
        → Granted role d c (rp ∷ rps)
    by_status p true u f a (inl e) k =
        (rp, inl refl, p, record { of_role = u; joined = f; active = a; same_code = e })
    by_status p true u f a (inr n) k = later (k n)
    by_status p false u f a n k = later (k n)

    by_permission :
        (o : Option PermissionRecord)
        → rp.role_id ≡ role
        → find_permission rp.permission_id d ≡ o
        → Among c (with_active_code o (granted_codes role d rps))
        → (Among c (granted_codes role d rps) → Granted role d c rps)
        → Granted role d c (rp ∷ rps)
    by_permission none u f n k = later (k n)
    by_permission (some p) u f n k = by_status p (entity_is_active p.status) u f refl n k

    by_role :
        (b : Bool)
        → (rp.role_id == role) ≡ b
        → Among c (
            if b
            then with_active_code (find_permission rp.permission_id d) (granted_codes role d rps)
            else granted_codes role d rps)
        → (Among c (granted_codes role d rps) → Granted role d c rps)
        → Granted role d c (rp ∷ rps)
    by_role true e n k =
        by_permission (find_permission rp.permission_id d) ((eq_iff rp.role_id role).0 e) refl n k
    by_role false e n k = later (k n)

bound_permissions_sound :
    (role : String) (ids : List String) (rp : RolePermission)
    → Among rp (bound_permissions role ids)
    → Among rp.permission_id ids
bound_permissions_sound role [] rp m = elim m [ ]
bound_permissions_sound role (id ∷ ids) rp m = elim m [
  | inl e ↦ inl (ap (λ x. x.permission_id) e)
  | inr n ↦ inr (bound_permissions_sound role ids rp n)
]

replaced_rows :
    (operator role : String) (ids : List String) (d : Directory) (rp : RolePermission)
    → Among rp (replace_role_permissions operator role ids d).role_permissions
    → rp.role_id ≡ role
    → Among rp.permission_id ids
unfolding replace_role_permissions
replaced_rows operator role ids d rp m e =
    elim ((Among-append rp (keep (λ x. not (x.role_id == role)) d.role_permissions)
        (bound_permissions role ids)).0
      m) [
        | inl k ↦ ground (
          arith,
          (Among-keep (λ x. not (x.role_id == role)) d.role_permissions rp).0 k,
          e,
          (eq_iff rp.role_id role).1 e,
        )
        | inr k ↦ bound_permissions_sound role ids rp k
      ]

replaced-Covers :
    (operator role : String) (ids : List String) (d : Directory) (o : OperatorAuthorization)
    → any (lacks o) (found_permissions ids d) ≡ false
    → Covers o (load_role_permission_codes (replace_role_permissions operator role ids d) role)
unfolding replace_role_permissions Granted
replaced-Covers operator role ids d o n c m =
    let d' = replace_role_permissions operator role ids d in
    let (rp, row, p, g) = granted_codes_sound role d' d'.role_permissions c m in
    let named =
      (includes_iff ids rp.permission_id).1 (replaced_rows operator role ids d rp row g.of_role) in
    let (same, listed) = find-eq-some (λ x. x.id == rp.permission_id) d.permissions p g.joined in
    let chosen =
      (Among-keep (λ x. includes ids x.id && entity_is_active x.status) d.permissions p).1 (
        listed,
        ground (arith, ap (includes ids) ((eq_iff p.id rp.permission_id).0 same) ∙ named, g.active),
      ) in
    subst (λ x. Among x o.permissions) (sym g.same_code)
      (held p chosen (includes o.permissions p.code) refl)
  where
    held :
        (p : PermissionRecord)
        → Among p (found_permissions ids d)
        → (b : Bool) → includes o.permissions p.code ≡ b
        → Among p.code o.permissions
    held p k true e = (includes_iff o.permissions p.code).0 e
    held p k false e = ground (arith, n, e, Among-any (lacks o) (found_permissions ids d) p k)

-- Where the permissions are bound, the role's are within the operator's.
Safe : OperatorAuthorization → String → Outcome → Type 0
Safe o role r = r.result ≡ ok done → Covers o (load_role_permission_codes r.directory role)

module _ (operator role : String) (ids : List String) (d : Directory) (o : OperatorAuthorization)
    (loaded : load_operator_authorization d operator ≡ some o) (ordinary : o.is_admin ≡ false) where
  judge_lack-Safe :
      (a b : Bool)
      → a ≡ false
      → any (lacks o) (found_permissions ids d) ≡ b
      → Safe o role (judge_lack a b operator role ids d)
  unfolding Safe
  judge_lack-Safe true b n e h = cc
  judge_lack-Safe false true n e h = cc
  judge_lack-Safe false false n e h = replaced-Covers operator role ids d o e

  by_ids-Safe : (b : Bool) → Safe o role (by_ids b operator role ids d)
  unfolding Safe
  by_ids-Safe false = λ h. cc
  by_ids-Safe true =
      subst (λ p. Safe o role (by_operator p operator role ids d)) (sym loaded)
        (judge_lack-Safe o.is_admin (any (lacks o) (found_permissions ids d)) ordinary refl)

  by_target-Safe : (c : Checked) → Safe o role (by_target c operator role ids d)
  unfolding Safe
  by_target-Safe (err e) = λ h. cc
  by_target-Safe (ok _) = by_ids-Safe _

  by_kind-Safe :
      (b : Bool)
      → (by_kind b operator role ids d).result ≡ ok done
      → (b ≡ false)
        × Covers o (load_role_permission_codes (by_kind b operator role ids d).directory role)
  unfolding Safe
  by_kind-Safe true h = cc
  by_kind-Safe false h = (refl, by_target-Safe (assert_can_mutate_role_target d operator role) h)

by_scope-Safe :
    (c : Checked) (r : RoleRecord) (operator : String) (ids : List String) (d : Directory)
    (o : OperatorAuthorization)
    → load_operator_authorization d operator ≡ some o
    → o.is_admin ≡ false
    → (by_scope c r operator ids d).result ≡ ok done
    → (r.is_system ≡ false)
      × Covers o (load_role_permission_codes (by_scope c r operator ids d).directory r.id)
by_scope-Safe (err e) r operator ids d o l n h = cc
by_scope-Safe (ok _) r operator ids d o l n h = by_kind-Safe operator r.id ids d o l n r.is_system h

-- When an operator who is not SUPER_ADMIN has bound permissions to a role, the role is there and is no
-- system role, and every ACTIVE permission that it then grants is one that the operator himself
-- held before.
pub binding_never_escalates :
    (operator role : String) (ids : List String) (d : Directory) (o : OperatorAuthorization)
    → load_operator_authorization d operator ≡ some o
    → o.is_admin ≡ false
    → (assign_role_permissions operator role ids d).result ≡ ok done
    → (r : RoleRecord) × (find_role role d ≡ some r)
      × (r.is_system ≡ false)
      × Covers o
          (load_role_permission_codes (assign_role_permissions operator role ids d).directory role)
unfolding assign_role_permissions
binding_never_escalates operator role ids d o l n h = on (find_role role d) refl h
  where
    on :
        (x : Option RoleRecord)
        → find_role role d ≡ x
        → (assign_on x operator ids d).result ≡ ok done
        → (r : RoleRecord) × (x ≡ some r)
          × (r.is_system ≡ false)
          × Covers o (load_role_permission_codes (assign_on x operator ids d).directory role)
    on none e q = cc
    on (some r) e q =
        let (a, b) =
          by_scope-Safe (scope_check d operator (some r.dept_id) "无权操作该角色") r operator ids d o l n
            q in
        let (same, listed) = find-eq-some (λ x. x.id == role) d.roles r e in
        (
          r,
          refl,
          a,
          subst
              (λ t.
                Covers o
                  (load_role_permission_codes (assign_on (some r) operator ids d).directory t))
              ((eq_iff r.id role).0 same) b,
        )
