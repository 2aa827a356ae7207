-- ===== src/Permissions/Context.antt =====
-- What the permission context holds: exactly what active roles grant by active permissions.
use auth_sso.Base.{
  String, ◌≡◌, refl, sym, subst, some_inj, ◌↔◌, inl, inr, Bool, true, false, none, some, Option,
  List, [], ◌∷◌, arith, eq_iff, if◌then◌else◌, includes, includes_iff, Among, Among-append, Unique,
}
use auth_sso.Contracts.{entity_is_active}
use auth_sso.Permissions.{
  PermissionRow, RoleRow, UserRow, active_roles, active_codes, all_codes, dedup_from, context_of,
}

-- The list holds an active permission with the code.
abbrev HasCode : String → List (Option PermissionRow) → Type 0
HasCode c ps =
    (p : PermissionRow) × Among (some p) ps × (entity_is_active p.status ≡ true) × (p.code ≡ c)

-- An active role of the list has an active permission with the code.
abbrev pub Grants : List (Option RoleRow) → String → Type 0
Grants rs c =
    (r : RoleRow) × Among (some r) rs × (entity_is_active r.status ≡ true) × HasCode c r.permissions

pub dedup_from-Among :
    (c : String) (seen xs : List String)
    → Among c (dedup_from seen xs) ↔ (Among c xs × (includes seen c ≡ false))
unfolding dedup_from
dedup_from-Among c seen [] = ground arith
dedup_from-Among c seen (x ∷ xs) =
    ground (arith, dedup_from-Among c seen xs, dedup_from-Among c (x ∷ seen) xs, eq_iff x c)

pub Unique-dedup_from : (seen xs : List String) → Unique (dedup_from seen xs)
unfolding dedup_from
Unique-dedup_from seen [] = tt
Unique-dedup_from seen (x ∷ xs) = ground (
  arith,
  Unique-dedup_from seen xs,
  Unique-dedup_from (x ∷ seen) xs,
  dedup_from-Among x (x ∷ seen) xs,
  includes_iff (dedup_from (x ∷ seen) xs) x,
  eq_iff x x,
)

HasCode-cons :
    (c : String) (o : Option PermissionRow) (ps : List (Option PermissionRow))
    → HasCode c ps
    → HasCode c (o ∷ ps)
HasCode-cons c o ps (p, m, active, e) = (p, inr m, active, e)

active_codes_sound :
    (c : String) (ps : List (Option PermissionRow)) → Among c (active_codes ps) → HasCode c ps
unfolding active_codes
active_codes_sound c [] h = elim h [ ]
active_codes_sound c (none ∷ ps) h = HasCode-cons c none ps (active_codes_sound c ps h)
active_codes_sound c (some p ∷ ps) h =
    split (entity_is_active p.status) refl
      (λ m. HasCode-cons c (some p) ps (active_codes_sound c ps m)) h
  where
    split :
        (b : Bool)
        → entity_is_active p.status ≡ b
        → (Among c (active_codes ps) → HasCode c (some p ∷ ps))
        → Among c (if b then p.code ∷ active_codes ps else active_codes ps)
        → HasCode c (some p ∷ ps)
    split true a later (inl e) = (p, inl refl, a, sym e)
    split true a later (inr m) = later m
    split false a later m = later m

active_codes_complete :
    (c : String) (ps : List (Option PermissionRow)) → HasCode c ps → Among c (active_codes ps)
unfolding active_codes
active_codes_complete c [] (p, m, a, e) = elim m [ ]
active_codes_complete c (none ∷ ps) (p, inl m, a, e) = cc
active_codes_complete c (none ∷ ps) (p, inr m, a, e) = active_codes_complete c ps (p, m, a, e)
active_codes_complete c (some q ∷ ps) (p, inl m, a, e) = ground arith
active_codes_complete c (some q ∷ ps) (p, inr m, a, e) =
    ground (arith, active_codes_complete c ps (p, m, a, e))

Grants-cons :
    (c : String) (o : Option RoleRow) (rs : List (Option RoleRow)) → Grants rs c → Grants (o ∷ rs) c
Grants-cons c o rs (r, m, active, e) = (r, inr m, active, e)

all_codes_sound :
    (c : String) (rs : List (Option RoleRow)) → Among c (all_codes (active_roles rs)) → Grants rs c
unfolding active_roles all_codes
all_codes_sound c [] h = elim h [ ]
all_codes_sound c (none ∷ rs) h = Grants-cons c none rs (all_codes_sound c rs h)
all_codes_sound c (some r ∷ rs) h =
    split (entity_is_active r.status) refl (λ m. Grants-cons c (some r) rs (all_codes_sound c rs m))
      h
  where
    split :
        (b : Bool)
        → entity_is_active r.status ≡ b
        → (Among c (all_codes (active_roles rs)) → Grants (some r ∷ rs) c)
        → Among c (all_codes (if b then r ∷ active_roles rs else active_roles rs))
        → Grants (some r ∷ rs) c
    split true a later m = elim ((Among-append c (active_codes r.permissions) _).0 m) [
      | inl here ↦ (r, inl refl, a, active_codes_sound c r.permissions here)
      | inr there ↦ later there
    ]
    split false a later m = later m

all_codes_complete :
    (c : String) (rs : List (Option RoleRow)) → Grants rs c → Among c (all_codes (active_roles rs))
unfolding active_roles all_codes
all_codes_complete c [] (r, m, a, e) = elim m [ ]
all_codes_complete c (none ∷ rs) (r, inl m, a, e) = cc
all_codes_complete c (none ∷ rs) (r, inr m, a, e) = all_codes_complete c rs (r, m, a, e)
all_codes_complete c (some q ∷ rs) (r, inl m, a, e) = ground (
  arith,
  Among-append c (active_codes q.permissions) (all_codes (active_roles rs)),
  active_codes_complete c q.permissions (subst (λ x. HasCode c x.permissions) (some_inj m) e),
)
all_codes_complete c (some q ∷ rs) (r, inr m, a, e) = ground (
  arith,
  Among-append c (active_codes q.permissions) (all_codes (active_roles rs)),
  all_codes_complete c rs (r, m, a, e),
)

-- The context holds a permission code exactly if some active role of the user grants it by an
-- active permission, and holds no code twice.
pub context_of_permissions :
    (user : UserRow) (c : String)
    → (Among c (context_of user).permissions ↔ Grants user.roles c)
      × Unique (context_of user).permissions
unfolding context_of
context_of_permissions user c = (
  (
    λ m. all_codes_sound c user.roles ((dedup_from-Among c [] codes).0 m).0,
    λ g. (dedup_from-Among c [] codes).1 (all_codes_complete c user.roles g, refl),
  ),
  Unique-dedup_from [] codes,
)
  where
    codes : List String
    codes = all_codes (active_roles user.roles)
