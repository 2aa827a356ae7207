-- ===== src/Authz/Assignment/Escalation.antt =====
-- No operator hands out a permission that he lacks.
use auth_sso.Base.{
  String, ◌≡◌, refl, sym, ap, ◌∙◌, subst, inl, inr, Bool, true, false, not, Option, none, some,
  List, [], ◌∷◌, arith, ◌==◌, eq_iff, if◌then◌else◌, find, keep, any, includes, includes_iff, Among,
  Among-append, Among-keep, find-eq-some,
}
use auth_sso.Errors.{Result, ok, err, Checked}
use auth_sso.Authz.Directory.{
  UserRecord, RoleRecord, UserRole, Directory, find_user, roles_of, granted_codes,
  load_role_permission_codes, load_target_permission_codes,
}
use auth_sso.Authz.Directory.Joins.{held_roles_sound, codes_of_roles_sound}
use auth_sso.Authz.Operator.{OperatorAuthorization, load_operator_authorization, Covers, Covers-iff}
use auth_sso.Authz.Assignment.{
  Outcome, done, select_roles, overreaching, judge_grant, judge_operator, judge_roles,
  validate_role_assignment, bound_rows, replace_user_roles, finish_assignment, guarded, assign_to,
  assign_user_roles, own_roles,
}

find-none :
    {A : Type 0} (p : A → Bool) (xs : List A) (x : A) → find p xs ≡ none → Among x xs → p x ≡ false
find-none p [] x h m = elim m [ ]
find-none p (y ∷ ys) x h m = ground (arith, h, m, find-none p ys x)

bound_rows_sound :
    (user : String) (ids : List String) (ur : UserRole)
    → Among ur (bound_rows user ids)
    → Among ur.role_id ids
bound_rows_sound user [] ur m = elim m [ ]
bound_rows_sound user (id ∷ ids) ur m = elim m [
  | inl e ↦ inl (ap (λ x. x.role_id) e)
  | inr n ↦ inr (bound_rows_sound user ids ur n)
]

-- The rows of the user after the write are the new ones.
replaced_rows :
    (operator user : String) (ids : List String) (d : Directory) (ur : UserRole)
    → Among ur (replace_user_roles operator user ids d).user_roles
    → ur.user_id ≡ user
    → Among ur.role_id ids
unfolding replace_user_roles
replaced_rows operator user ids d ur m e =
    elim ((Among-append ur (keep (λ x. not (x.user_id == user)) d.user_roles)
        (bound_rows user ids)).0
      m) [
        | inl k ↦ ground (
          arith,
          (Among-keep (λ x. not (x.user_id == user)) d.user_roles ur).0 k,
          e,
          (eq_iff ur.user_id user).1 e,
        )
        | inr k ↦ bound_rows_sound user ids ur k
      ]

-- The roles that the operator may hand out: none grants what he lacks.
Harmless : OperatorAuthorization → Directory → List RoleRecord → Type 0
Harmless o d roles = (r : RoleRecord) → Among r roles → Covers o (load_role_permission_codes d r.id)

judge_grant-Harmless :
    (o : OperatorAuthorization) (d : Directory) (roles : List RoleRecord) (a s : Bool)
    (over : Option RoleRecord)
    → a ≡ false
    → find (overreaching o d) roles ≡ over
    → judge_grant a s over ≡ ok none
    → Harmless o d roles
unfolding Harmless
judge_grant-Harmless o d roles true s over e f h = cc
judge_grant-Harmless o d roles false true over e f h = cc
judge_grant-Harmless o d roles false false none e f h = λ r m.
    (Covers-iff o (load_role_permission_codes d r.id)).0 (find-none (overreaching o d) roles r f m)
judge_grant-Harmless o d roles false false (some r) e f h = cc

validate-Harmless :
    (d : Directory) (dept : Option String) (ids : List String) (operator : String)
    (o : OperatorAuthorization)
    → load_operator_authorization d operator ≡ some o
    → o.is_admin ≡ false
    → validate_role_assignment d dept ids operator ≡ ok none
    → Harmless o d (select_roles ids d)
unfolding validate_role_assignment
validate-Harmless d dept ids operator o l n h =
    judged _ _ _ (load_operator_authorization d operator) l h
  where
    judged :
        (a b c : Bool) (p : Option OperatorAuthorization)
        → p ≡ some o
        → judge_roles a b c p d (select_roles ids d) ≡ ok none
        → Harmless o d (select_roles ids d)
    judged false b c p e q = cc
    judged true false c p e q = cc
    judged true true true p e q = cc
    judged true true false p e q =
        judge_grant-Harmless o d (select_roles ids d) o.is_admin
          (any (λ r. r.is_system) (select_roles ids d))
          (find (overreaching o d) (select_roles ids d)) n refl
          (ap (λ x. judge_operator x d (select_roles ids d)) (sym e) ∙ q)

-- After the write, what the user holds comes from the roles that were handed out.
replaced-Covers :
    (operator user : String) (ids : List String) (d : Directory) (o : OperatorAuthorization)
    → Harmless o d (select_roles ids d)
    → Covers o (load_target_permission_codes (replace_user_roles operator user ids d) user)
unfolding Harmless replace_user_roles granted_codes
replaced-Covers operator user ids d o k c m =
    let d' = replace_user_roles operator user ids d in
    let (r, held, granted) = codes_of_roles_sound d' (roles_of user d') c m in
    let (ur, row, h) = held_roles_sound user d' d'.user_roles r held in
    let named = replaced_rows operator user ids d ur row h.of_user in
    let (same, listed) = find-eq-some (λ x. x.id == ur.role_id) d.roles r h.joined in
    k r
      ((Among-keep (λ x. includes ids x.id) d.roles r).1 (
        listed,
        ap (includes ids) ((eq_iff r.id ur.role_id).0 same) ∙ (includes_iff ids ur.role_id).1 named,
      ))
      c granted

finish-Covers :
    (v : Result (Option String)) (operator user : String) (ids : List String) (d : Directory)
    (o : OperatorAuthorization)
    → (v ≡ ok none → Harmless o d (select_roles ids d))
    → (finish_assignment v operator user ids d).result ≡ ok done
    → Covers o
        (load_target_permission_codes (finish_assignment v operator user ids d).directory user)
finish-Covers (err e) operator user ids d o k h = cc
finish-Covers (ok (some message)) operator user ids d o k h = cc
finish-Covers (ok none) operator user ids d o k h = replaced-Covers operator user ids d o (k refl)

-- What `guarded` lets through is what it was given.
pub guarded_done :
    (a b : Checked) (d : Directory) (next : Outcome)
    → (guarded a b d next).result ≡ ok done
    → (a ≡ ok tt) × (b ≡ ok tt) × (guarded a b d next ≡ next)
guarded_done (err e) b d next h = cc
guarded_done (ok _) (err e) d next h = cc
guarded_done (ok _) (ok _) d next h = (refl, refl, refl)

assign_to-Covers :
    (u : Option UserRecord) (operator target : String) (ids : List String) (d : Directory)
    (o : OperatorAuthorization)
    → find_user target d ≡ u
    → load_operator_authorization d operator ≡ some o
    → o.is_admin ≡ false
    → (assign_to u operator ids d).result ≡ ok done
    → Covers o (load_target_permission_codes (assign_to u operator ids d).directory target)
assign_to-Covers none operator target ids d o f l n h = cc
assign_to-Covers (some u) operator target ids d o f l n h =
    let v = validate_role_assignment d u.dept_id ids operator in
    let (a, b, e) = guarded_done _ _ d (finish_assignment v operator u.id ids d) h in
    let (same, listed) = find-eq-some (λ x. x.id == target) d.users u f in
    subst
      (λ t. Covers o (load_target_permission_codes (assign_to (some u) operator ids d).directory t))
      ((eq_iff u.id target).0 same)
      (subst (λ (x : Outcome). Covers o (load_target_permission_codes x.directory u.id)) (sym e)
        (finish-Covers v operator u.id ids d o (validate-Harmless d u.dept_id ids operator o l n)
          (sym (ap (λ x. x.result) e) ∙ h)))

-- When an operator who is not SUPER_ADMIN has assigned roles to a user, every permission that the user
-- then holds by an ACTIVE role is one that the operator himself held before.
pub assignment_never_escalates :
    (operator target : String) (ids : List String) (d : Directory) (o : OperatorAuthorization)
    → load_operator_authorization d operator ≡ some o
    → o.is_admin ≡ false
    → (assign_user_roles operator target ids d).result ≡ ok done
    → Covers o
        (load_target_permission_codes (assign_user_roles operator target ids d).directory target)
unfolding assign_user_roles
assignment_never_escalates operator target ids d o l n h = split (operator == target) h
  where
    split :
        (b : Bool)
        → (if b then own_roles d else assign_to (find_user target d) operator ids d).result
          ≡ ok done
        → Covers o (
            load_target_permission_codes
              (if b then own_roles d else assign_to (find_user target d) operator ids d).directory
              target)
    split true q = cc
    split false q = assign_to-Covers (find_user target d) operator target ids d o refl l n q
