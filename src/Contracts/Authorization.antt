-- ===== src/Contracts/Authorization.antt =====
-- packages/contracts/src/authorization.ts and admin-roles.ts: who may do what.
use auth_sso.Base.{
  String, ◌≡◌, ◌↔◌, inl, inr, Bool, true, false, ◌||◌, List, [], ◌∷◌, arith, eq_iff, if◌then◌else◌,
  any, all, includes, Among, refl, ◌∙◌, sym, Bool-cases, if_true, if_false,
}

-- ADMIN_ROLE_CODES
abbrev admin_role_codes : List String
admin_role_codes = "SUPER_ADMIN" ∷ []

pub record AuthorizationSubject : Type 0 where
  pub role_codes : List String
  pub permission_codes : List String

unfoldable pub is_admin_role : List String → Bool
is_admin_role codes = any (includes admin_role_codes) codes

unfoldable has_permission_code : AuthorizationSubject → String → Bool
has_permission_code subject code = includes subject.permission_codes code

unfoldable pub can : AuthorizationSubject → String → Bool
unfolding is_admin_role has_permission_code
can subject required = is_admin_role subject.role_codes || has_permission_code subject required

unfoldable pub has_role : AuthorizationSubject → String → Bool
has_role subject code = includes subject.role_codes code

-- `canAny` and `canAll` after the test `required.length === 0`.
abbrev some_or_admin : AuthorizationSubject → List String → Bool
some_or_admin subject required =
    if is_admin_role subject.role_codes
    then true
    else any (includes subject.permission_codes) required

abbrev every_or_admin : AuthorizationSubject → List String → Bool
every_or_admin subject required =
    if is_admin_role subject.role_codes
    then true
    else all (includes subject.permission_codes) required

unfoldable pub can_any : AuthorizationSubject → List String → Bool
can_any subject [] = true
can_any subject (code ∷ codes) = some_or_admin subject (code ∷ codes)

unfoldable pub can_all : AuthorizationSubject → List String → Bool
can_all subject [] = true
can_all subject (code ∷ codes) = every_or_admin subject (code ∷ codes)

pub is_admin_role_iff :
    (codes : List String) → (is_admin_role codes ≡ true) ↔ Among "SUPER_ADMIN" codes
unfolding is_admin_role
is_admin_role_iff [] = ground arith
is_admin_role_iff (c ∷ cs) = ground (arith, eq_iff "SUPER_ADMIN" c, is_admin_role_iff cs)

all-can_admin :
    (s : AuthorizationSubject) (codes : List String)
    → is_admin_role s.role_codes ≡ true
    → all (can s) codes ≡ true
unfolding can
all-can_admin s [] h = refl
all-can_admin s (c ∷ cs) h = ground (arith, all-can_admin s cs)

all-can_other :
    (s : AuthorizationSubject) (codes : List String)
    → is_admin_role s.role_codes ≡ false
    → all (can s) codes ≡ all (includes s.permission_codes) codes
unfolding can
all-can_other s [] h = refl
all-can_other s (c ∷ cs) h = ground (arith, all-can_other s cs)

any-can_other :
    (s : AuthorizationSubject) (codes : List String)
    → is_admin_role s.role_codes ≡ false
    → any (can s) codes ≡ any (includes s.permission_codes) codes
unfolding can
any-can_other s [] h = refl
any-can_other s (c ∷ cs) h = ground (arith, any-can_other s cs)

any-can_admin :
    (s : AuthorizationSubject) (code : String) (codes : List String)
    → is_admin_role s.role_codes ≡ true
    → any (can s) (code ∷ codes) ≡ true
unfolding can
any-can_admin s code codes h = ground arith

all_pointwise :
    (s : AuthorizationSubject) (codes : List String) → can_all s codes ≡ all (can s) codes
unfolding can_all
all_pointwise s [] = refl
all_pointwise s (c ∷ cs) = elim (Bool-cases (is_admin_role s.role_codes)) [
  | inl h ↦ if_true _ _ h ∙ sym (all-can_admin s (c ∷ cs) h)
  | inr h ↦ if_false _ _ h ∙ sym (all-can_other s (c ∷ cs) h)
]

any_pointwise :
    (s : AuthorizationSubject) (c : String) (cs : List String)
    → can_any s (c ∷ cs) ≡ any (can s) (c ∷ cs)
unfolding can_any
any_pointwise s c cs = elim (Bool-cases (is_admin_role s.role_codes)) [
  | inl h ↦ if_true _ _ h ∙ sym (any-can_admin s c cs h)
  | inr h ↦ if_false _ _ h ∙ sym (any-can_other s (c ∷ cs) h)
]

-- `canAll` asks the single rule `can` of every code, and `canAny` of some code, unless none is
-- required, when it passes.
can_all-can_any_pointwise :
    (s : AuthorizationSubject) (code : String) (codes : List String)
    → (can_all s codes ≡ all (can s) codes)
      × (can_any s (code ∷ codes) ≡ any (can s) (code ∷ codes))
      × (can_any s [] ≡ true)
can_all-can_any_pointwise s code codes =
    (all_pointwise s codes, any_pointwise s code codes, unfold can_any in refl)
