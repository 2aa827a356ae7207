-- ===== src/Authz/Directory/Joins.antt =====
-- What the joins find.
use auth_sso.Base.{
  String, ◌≡◌, refl, ◌⊎◌, inl, inr, Bool, true, false, Option, none, some, List, [], ◌∷◌, ◌==◌,
  eq_iff, if◌then◌else◌, Among, Among-append,
}
use auth_sso.Contracts.{entity_is_active}
use auth_sso.Authz.Directory.{
  Directory, RoleRecord, UserRole, find_role, held_roles, with_active_role, codes_of_roles,
  load_role_permission_codes,
}

-- A held role comes from a row of the user, and is ACTIVE.
pub record IsHeld (user : String) (d : Directory) (r : RoleRecord) (ur : UserRole) : Type 0 where
  pub of_user : ur.user_id ≡ user
  pub joined : find_role ur.role_id d ≡ some r
  pub active : entity_is_active r.status ≡ true

pub held_roles_sound :
    (user : String) (d : Directory) (urs : List UserRole) (r : RoleRecord)
    → Among r (held_roles user d urs)
    → (ur : UserRole) × Among ur urs × IsHeld user d r ur
unfolding held_roles
held_roles_sound user d [] r m = elim m [ ]
held_roles_sound user d (ur ∷ urs) r m =
    by_user (ur.user_id == user) refl m (held_roles_sound user d urs r)
  where
    later :
        (x : UserRole) × Among x urs × IsHeld user d r x
        → (x : UserRole) × ((x ≡ ur) ⊎ Among x urs) × IsHeld user d r x
    later (x, k, h) = (x, inr k, h)

    by_status :
        (s : RoleRecord) (b : Bool)
        → ur.user_id ≡ user
        → find_role ur.role_id d ≡ some s
        → entity_is_active s.status ≡ b
        → Among r (if b then s ∷ held_roles user d urs else held_roles user d urs)
        → (Among r (held_roles user d urs) → (x : UserRole) × Among x urs × IsHeld user d r x)
        → (x : UserRole) × ((x ≡ ur) ⊎ Among x urs) × IsHeld user d r x
    by_status s true u f a (inl e) k =
        (ur, inl refl, record { of_user = u; joined = cc; active = cc })
    by_status s true u f a (inr n) k = later (k n)
    by_status s false u f a n k = later (k n)

    by_role :
        (o : Option RoleRecord)
        → ur.user_id ≡ user
        → find_role ur.role_id d ≡ o
        → Among r (with_active_role o (held_roles user d urs))
        → (Among r (held_roles user d urs) → (x : UserRole) × Among x urs × IsHeld user d r x)
        → (x : UserRole) × ((x ≡ ur) ⊎ Among x urs) × IsHeld user d r x
    by_role none u f n k = later (k n)
    by_role (some s) u f n k = by_status s (entity_is_active s.status) u f refl n k

    by_user :
        (b : Bool)
        → (ur.user_id == user) ≡ b
        → Among r (
            if b
            then with_active_role (find_role ur.role_id d) (held_roles user d urs)
            else held_roles user d urs)
        → (Among r (held_roles user d urs) → (x : UserRole) × Among x urs × IsHeld user d r x)
        → (x : UserRole) × ((x ≡ ur) ⊎ Among x urs) × IsHeld user d r x
    by_user true e n k = by_role (find_role ur.role_id d) ((eq_iff ur.user_id user).0 e) refl n k
    by_user false e n k = later (k n)

pub codes_of_roles_sound :
    (d : Directory) (rs : List RoleRecord) (c : String)
    → Among c (codes_of_roles d rs)
    → (r : RoleRecord) × Among r rs × Among c (load_role_permission_codes d r.id)
unfolding codes_of_roles
codes_of_roles_sound d [] c m = elim m [ ]
codes_of_roles_sound d (r ∷ rs) c m =
    elim ((Among-append c (load_role_permission_codes d r.id) (codes_of_roles d rs)).0 m) [
      | inl k ↦ (r, inl refl, k)
      | inr k ↦ let (s, n, l) = codes_of_roles_sound d rs c k in (s, inr n, l)
    ]
