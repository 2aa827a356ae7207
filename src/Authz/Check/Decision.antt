-- ===== src/Authz/Check/Decision.antt =====
-- Who passes a permission check.
use auth_sso.Base.{
  ℕ, String, ◌≡◌, refl, ap, ◌⊎◌, inl, inr, Bool, true, false, not, ◌&&◌, Option, none, some, List,
  [], ◌∷◌, any, false≢true, subst,
}
use auth_sso.Contracts.Authorization.{
  AuthorizationSubject, is_admin_role, has_role, can_any, can_all,
}
use auth_sso.Permissions.{
  UserRow, UserPermissionContext, ContextResult, found, denied, unavailable, PermissionCache, Users,
  get_user_permission_context, to_permission_context_or_null,
}
use auth_sso.Permissions.Freshness.{
  Current, IsCoherent, TellsCurrent, get_user_permission_context_faithful,
}
use auth_sso.Authz.Check.{
  PermissionCheckOptions, authorized, subject_of, roles_suffice, permissions_suffice, must_change,
  decide, decide_context, check_permission,
}

-- What a user who passes fulfils.
pub record Passes (options : PermissionCheckOptions) (c : Option UserPermissionContext)
    : Type 0 where
  pub password : (must_change c && not options.allow_password_change_required) ≡ false
  pub by_roles : roles_suffice (subject_of c) options.require_all options.roles ≡ true
  pub by_permissions :
      (is_admin_role (subject_of c).role_codes ≡ true)
      ⊎ (permissions_suffice (subject_of c) options.require_all options.permissions ≡ true)

decide-authorized :
    (a b c e : Bool) (user u : String)
    → decide a b c e user ≡ authorized u
    → (user ≡ u) × (a ≡ false) × (b ≡ true) × ((c ≡ true) ⊎ (e ≡ true))
decide-authorized true b c e user u h = cc
decide-authorized false false c e user u h = cc
decide-authorized false true true e user u h = (cc, refl, refl, inl refl)
decide-authorized false true false true user u h = (cc, refl, refl, inr refl)
decide-authorized false true false false user u h = cc

-- A subject without roles and permissions meets no requirement.
abbrev nobody : AuthorizationSubject
nobody = record { role_codes = []; permission_codes = [] }

nobody-roles : (b : Bool) (roles : List String) → roles_suffice nobody b roles ≡ true → roles ≡ []
unfolding has_role
nobody-roles b [] h = refl
nobody-roles true (r ∷ rs) h = cc
nobody-roles false (r ∷ rs) h = elim (none_of (r ∷ rs) h) [ ]
  where
    none_of : (xs : List String) → any (λ x. false) xs ≡ true → ⊥
    none_of [] q = false≢true q
    none_of (x ∷ xs) q = none_of xs q

nobody-permissions :
    (b : Bool) (codes : List String) → permissions_suffice nobody b codes ≡ true → codes ≡ []
unfolding can_all can_any is_admin_role
nobody-permissions b [] h = refl
nobody-permissions true (p ∷ ps) h = cc
nobody-permissions false (p ∷ ps) h = elim (none_of (p ∷ ps) h) [ ]
  where
    none_of : (xs : List String) → any (λ x. false) xs ≡ true → ⊥
    none_of [] q = false≢true q
    none_of (x ∷ xs) q = none_of xs q

-- Without a context only a check that requires nothing passes.
nothing_required :
    (options : PermissionCheckOptions)
    → Passes options none
    → (options.roles ≡ []) × (options.permissions ≡ [])
unfolding is_admin_role
nothing_required options p = (
  nobody-roles options.require_all options.roles p.by_roles,
  elim p.by_permissions [
    | inl e ↦ elim (false≢true e) [ ]
    | inr e ↦ nobody-permissions options.require_all options.permissions e
  ],
)

-- While the rows of the users stay as they are and every cached context is theirs, a check that passes,
-- from a database that may fail, passes the user that was identified. Either nothing was required, no role
-- and no permission, or the user is ACTIVE in the rows, and the requirements hold of the context of
-- his rows: the required roles in any case, and the required permissions unless he is SUPER_ADMIN.
pub check_permission_sound :
    (rows : String → Option UserRow) (db : Users) (options : PermissionCheckOptions)
    (identity : Option String) (user : String) (jitter now : ℕ) (s : PermissionCache)
    → (db ≡ none) ⊎ (db ≡ some rows)
    → IsCoherent rows s
    → (check_permission db options identity jitter now s).0 ≡ authorized user
    → (identity ≡ some user)
      × (((options.roles ≡ []) × (options.permissions ≡ []))
          ⊎ ((c : UserPermissionContext) × Current rows user c × Passes options (some c)))
unfolding check_permission to_permission_context_or_null
check_permission_sound rows db options none user jitter now s d k h = cc
check_permission_sound rows db options (some u) user jitter now s d k h =
    split (get_user_permission_context db u jitter now s).0
      (get_user_permission_context_faithful rows db u jitter now s d k).0 h
  where
    passed :
        (c : Option UserPermissionContext)
        → decide_context options c u ≡ authorized user
        → (u ≡ user) × Passes options c
    passed c q =
        let (e, a, b, p) = decide-authorized _ _ _ _ u user q in
        (e, record { password = a; by_roles = b; by_permissions = p })

    split :
        (r : ContextResult)
        → TellsCurrent rows u r
        → decide_context options (to_permission_context_or_null r) u ≡ authorized user
        → (some u ≡ some user)
          × (((options.roles ≡ []) × (options.permissions ≡ []))
              ⊎ ((c : UserPermissionContext) × Current rows user c × Passes options (some c)))
    split (found c) t q =
        let (e, p) = passed (some c) q in (ap some e, inr (c, subst (λ v. Current rows v c) e t, p))
    split (denied r) t q =
        let (e, p) = passed none q in (ap some e, inl (nothing_required options p))
    split unavailable t q =
        let (e, p) = passed none q in (ap some e, inl (nothing_required options p))
