-- ===== src/Authz/Assignment/Removal.antt =====
-- The removal of one role of a user leaves the user a role, and everyone else's alone.
use auth_sso.Base.{
  String, ◌≡◌, ◌≢◌, refl, sym, ap, ◌∙◌, subst, Bool, true, false, not, ◌&&◌, Option, none, some,
  List, [], ◌∷◌, arith, ◌==◌, eq_iff, eq_refl, if◌then◌else◌, keep, Unique, find-eq-some,
}
use auth_sso.Errors.{ok}
use auth_sso.Authz.Directory.{UserRecord, UserRole, Directory, find_user}
use auth_sso.Authz.Assignment.{
  Outcome, done, bound_roles, unbind_role, last_role, finish_removal, remove_from, remove_user_role,
  own_roles,
}
use auth_sso.Authz.Assignment.Escalation.{guarded_done}

-- The rows that the deletion keeps.
bound_roles-keep :
    (user role : String) (urs : List UserRole)
    → bound_roles user (keep (λ ur. not (ur.user_id == user && ur.role_id == role)) urs)
      ≡ keep (λ r. not (r == role)) (bound_roles user urs)
unfolding bound_roles
bound_roles-keep user role [] = refl
bound_roles-keep user role (ur ∷ urs) = ground (arith, bound_roles-keep user role urs)

bound_roles-other :
    (user other role : String) (urs : List UserRole)
    → user ≢ other
    → bound_roles other (keep (λ ur. not (ur.user_id == user && ur.role_id == role)) urs)
      ≡ bound_roles other urs
unfolding bound_roles
bound_roles-other user other role [] n = refl
bound_roles-other user other role (ur ∷ urs) n = ground (
  arith,
  n,
  bound_roles-other user other role urs n,
  eq_iff ur.user_id user,
  eq_iff ur.user_id other,
)

kept_role :
    (bound : List String) (role : String)
    → bound ≢ []
    → Unique bound
    → last_role bound role ≡ false
    → keep (λ r. not (r == role)) bound ≢ []
kept_role [] role n u l = n
kept_role (x ∷ []) role n u l = λ e. ground (arith, l, e)
kept_role (x ∷ y ∷ ys) role n u l =
    λ e. ground (arith, u.0, e, eq_iff x role, eq_iff y role, eq_iff y x, eq_refl x)

-- The bound roles of the user and of others after a removal.
Leaves : String → Directory → Directory → Type 0
Leaves user d d' =
    (bound_roles user d'.user_roles ≢ [])
    × ((other : String)
        → user ≢ other
        → bound_roles other d'.user_roles ≡ bound_roles other d.user_roles)

finish-Leaves :
    (b : Bool) (operator user role : String) (d : Directory)
    → last_role (bound_roles user d.user_roles) role ≡ b
    → bound_roles user d.user_roles ≢ []
    → Unique (bound_roles user d.user_roles)
    → (finish_removal b operator user role d).result ≡ ok done
    → Leaves user d (finish_removal b operator user role d).directory
unfolding Leaves unbind_role
finish-Leaves true operator user role d l n u h = cc
finish-Leaves false operator user role d l n u h = (
  λ e.
      kept_role (bound_roles user d.user_roles) role n u l
        (sym (bound_roles-keep user role d.user_roles) ∙ e),
  λ other m. bound_roles-other user other role d.user_roles m,
)

remove_from-Leaves :
    (u : Option UserRecord) (operator target role : String) (d : Directory)
    → find_user target d ≡ u
    → bound_roles target d.user_roles ≢ []
    → Unique (bound_roles target d.user_roles)
    → (remove_from u operator role d).result ≡ ok done
    → Leaves target d (remove_from u operator role d).directory
remove_from-Leaves none operator target role d f n u h = cc
remove_from-Leaves (some x) operator target role d f n u h =
    let last = last_role (bound_roles x.id d.user_roles) role in
    let (a, b, e) = guarded_done _ _ d (finish_removal last operator x.id role d) h in
    let (same, listed) = find-eq-some (λ y. y.id == target) d.users x f in
    let at = (eq_iff x.id target).0 same in
    subst (λ t. Leaves t d (remove_from (some x) operator role d).directory) at
      (subst (λ (y : Outcome). Leaves x.id d y.directory) (sym e)
        (finish-Leaves last operator x.id role d refl
          (subst (λ t. bound_roles t d.user_roles ≢ []) (sym at) n)
          (subst (λ t. Unique (bound_roles t d.user_roles)) (sym at) u)
          (sym (ap (λ y. y.result) e) ∙ h)))

-- A user with some role, no role bound twice, still has one after any removal that succeeds, and the
-- roles of all other users are what they were.
pub removal_leaves_role :
    (operator target role : String) (d : Directory)
    → bound_roles target d.user_roles ≢ []
    → Unique (bound_roles target d.user_roles)
    → (remove_user_role operator target role d).result ≡ ok done
    → (bound_roles target (remove_user_role operator target role d).directory.user_roles ≢ [])
      × ((other : String)
          → target ≢ other
          → bound_roles other (remove_user_role operator target role d).directory.user_roles
            ≡ bound_roles other d.user_roles)
unfolding remove_user_role Leaves
removal_leaves_role operator target role d n u h = split (operator == target) h
  where
    split :
        (b : Bool)
        → (if b then own_roles d else remove_from (find_user target d) operator role d).result
          ≡ ok done
        → Leaves target d
            (if b then own_roles d else remove_from (find_user target d) operator role d).directory
    split true q = cc
    split false q = remove_from-Leaves (find_user target d) operator target role d refl n u q
