-- ===== src/Authz/Scope.antt =====
-- apps/portal/src/lib/authz/data-scope.ts: the departments that an operator reaches. The clauses with
-- LIKE are tests on the characters of the path; an id holds neither `%` nor `_`, so that its pattern
-- is read literally.
use auth_sso.Base.{
  codes, ℕ, String, ◌≡◌, ◌≢◌, ◌↔◌, refl, Bool, true, false, not, ◌&&◌, ◌||◌, Option, none, some,
  List, [], ◌∷◌, ◌++◌, arith, eq_iff, ◌==◌, nat_eq, if◌then◌else◌, truthy_text, any, keep, includes,
  includes_iff, Among, All,
}
use auth_sso.Errors.{Checked, ok, err, forbidden_error}
use auth_sso.Domain.Department.{DeptNode}
use auth_sso.Permissions.{dedup}
use auth_sso.Authz.Directory.{Directory, RoleRecord, find_user, roles_of}

abbrev starts_with : List ℕ → List ℕ → Bool
starts_with [] s = true
starts_with (p ∷ ps) [] = false
starts_with (p ∷ ps) (c ∷ s) = nat_eq p c && starts_with ps s

abbrev same_codes : List ℕ → List ℕ → Bool
same_codes [] [] = true
same_codes (a ∷ s) (b ∷ t) = nat_eq a b && same_codes s t
same_codes _ _ = false

abbrev ends_with : List ℕ → List ℕ → Bool
ends_with p [] = same_codes p []
ends_with p (c ∷ s) = same_codes p (c ∷ s) || ends_with p s

abbrev contains : List ℕ → List ℕ → Bool
contains p [] = starts_with p []
contains p (c ∷ s) = starts_with p (c ∷ s) || contains p s

abbrev slash : List ℕ
slash = 47 ∷ []

-- The four clauses on a path that is not null.
abbrev path_covers : String → String → Bool
path_covers dept path =
    (path == dept)
    || (starts_with (codes dept ++ slash) (codes path)
        || (ends_with (slash ++ codes dept) (codes path)
            || contains (slash ++ codes dept ++ slash) (codes path)))

abbrev ancestors_cover : String → Option String → Bool
ancestors_cover dept none = false
ancestors_cover dept (some path) = path_covers dept path

abbrev in_subtree : String → DeptNode → Bool
in_subtree dept node = (node.id == dept) || ancestors_cover dept node.ancestors

abbrev truthy_depts : List RoleRecord → List String
truthy_depts [] = []
truthy_depts (r ∷ rs) =
    let rest = truthy_depts rs in if truthy_text r.dept_id then r.dept_id ∷ rest else rest

abbrev node_ids : List DeptNode → List String
node_ids [] = []
node_ids (n ∷ ns) = n.id ∷ node_ids ns

abbrev select_subtrees : List String → List DeptNode → List String
select_subtrees depts nodes = dedup (node_ids (keep (λ n. any (λ d. in_subtree d n) depts) nodes))

-- With no department the source returns early, with the same empty list.
unfoldable pub expand_role_dept_subtrees : Directory → String → List String
expand_role_dept_subtrees d operator = elim (find_user operator d) [
  | none ↦ []
  | some _ ↦ select_subtrees (dedup (truthy_depts (roles_of operator d))) d.departments
]

pub record UserScope : Type 0 where
  pub dept_ids : List String

unfoldable pub resolve_scope : Directory → String → UserScope
unfolding expand_role_dept_subtrees
resolve_scope d operator = record { dept_ids = expand_role_dept_subtrees d operator }

pub record AccessTarget : Type 0 where
  pub dept_id : Option String
  pub message : String

-- The test that the scope is empty comes second in the source, where its answer is the same.
abbrev listed : List String → String → Bool
listed [] dept = false
listed (d ∷ ds) dept = includes (d ∷ ds) dept

unfoldable pub is_within_scope : UserScope → Option String → Bool
is_within_scope scope none = false
is_within_scope scope (some dept) =
    if not (truthy_text dept) then false else listed scope.dept_ids dept

abbrev assert_each : UserScope → List AccessTarget → Checked
assert_each scope [] = ok tt
assert_each scope (t ∷ ts) =
    let rest = assert_each scope ts in
    if not (is_within_scope scope t.dept_id) then err (forbidden_error t.message) else rest

unfoldable pub assert_within_scope : UserScope → List AccessTarget → Checked
assert_within_scope scope [] = err (forbidden_error "数据范围守卫未提供任何目标：空目标等于跳过校验")
assert_within_scope scope (t ∷ ts) = assert_each scope (t ∷ ts)

-- The target has a department, and the scope holds it.
abbrev pub Reaches : UserScope → AccessTarget → Type 0
Reaches scope t =
    (dept : String) × (t.dept_id ≡ some dept) × (dept ≢ "") × Among dept scope.dept_ids

listed_iff : (ds : List String) (dept : String) → (listed ds dept ≡ true) ↔ Among dept ds
listed_iff [] dept = ground arith
listed_iff (d ∷ ds) dept = includes_iff (d ∷ ds) dept

within_iff :
    (scope : UserScope) (o : Option String)
    → (is_within_scope scope o ≡ true)
      ↔ ((dept : String) × (o ≡ some dept) × (dept ≢ "") × Among dept scope.dept_ids)
unfolding is_within_scope
within_iff scope none = (λ h. cc, λ w. cc)
within_iff scope (some dept) = (
  λ h. (
    dept,
    refl,
    λ e. ground (arith, h, (eq_iff dept "").1 e),
    (listed_iff scope.dept_ids dept).0 (ground (arith, h)),
  ),
  λ (x, e, n, m). ground (arith, n, e, m, listed_iff scope.dept_ids dept, eq_iff dept ""),
)

-- `assertWithinScope` passes exactly if there is a target, and every target has a department that is
-- not the empty text and that the scope holds: with no target, or an empty scope, it throws.
pub assert_within_scope_iff :
    (scope : UserScope) (targets : List AccessTarget)
    → (assert_within_scope scope targets ≡ ok tt) ↔ ((targets ≢ []) × All (Reaches scope) targets)
unfolding assert_within_scope
assert_within_scope_iff scope [] = (λ h. cc, λ w. elim (w.0 refl) [ ])
assert_within_scope_iff scope (t ∷ ts) =
    (λ h. (λ e. cc, (each (t ∷ ts)).0 h), λ w. (each (t ∷ ts)).1 w.1)
  where
    one :
        (u : AccessTarget) (b : Bool) (rest : Checked)
        → is_within_scope scope u.dept_id ≡ b
        → ((if not b then err (forbidden_error u.message) else rest) ≡ ok tt)
          ↔ ((b ≡ true) × (rest ≡ ok tt))
    one u true rest e = (λ h. (refl, h), λ w. w.1)
    one u false rest e = (λ h. cc, λ w. cc)

    each : (us : List AccessTarget) → (assert_each scope us ≡ ok tt) ↔ All (Reaches scope) us
    each [] = ground arith
    each (u ∷ us) =
        let i = one u (is_within_scope scope u.dept_id) (assert_each scope us) refl in
        let j = within_iff scope u.dept_id in
        let k = each us in (λ h. let (a, b) = i.0 h in (j.0 a, k.0 b), λ (a, b). i.1 (j.1 a, k.1 b))
