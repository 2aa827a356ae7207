-- ===== src/Domain/Department/Cycle.antt =====
-- The search of `validateNoCircularReference`: it ends, and it finds exactly the cycles.
use auth_sso.Base.{
  ℕ, String, zero, suc, ◌+◌, ◌≤◌, ◌<◌, ◌≡◌, refl, sym, ap, ◌∙◌, subst, ◌⊎◌, inl, inr, Bool, true,
  false, not, Option, none, some, List, [], ◌∷◌, arith, ◌==◌, eq_iff, eq_refl, if◌then◌else◌,
  truthy_text, includes, length, if_true, Bool-cases, Option-cases, some_inj,
}
use auth_sso.Errors.{Checked, ok, err, rule_violation_as, cannot_move_to_child, DomainError}
use auth_sso.Domain.Department.{
  DeptNode, find_node, parent_of, climb, validate_no_circular_reference,
}

-- `a` stands above `c`, or is it: the parents of `c` lead to `a`.
pub data Above (nodes : List DeptNode) (a : String) : String → Type 0 where
  here : Above nodes a a
  up :
      {c p : String}
      → truthy_text p ≡ true
      → parent_of (find_node c nodes) ≡ some p
      → Above nodes a p
      → Above nodes a c

-- How many of the nodes were not visited.
abbrev fresh : List String → List DeptNode → ℕ
fresh visited [] = 0
fresh visited (d ∷ nodes) =
    if includes visited d.id then fresh visited nodes else suc (fresh visited nodes)

fresh-length : (visited : List String) (nodes : List DeptNode) → fresh visited nodes ≤ length nodes
fresh-length visited [] = omega arith
fresh-length visited (d ∷ nodes) = ground (arith, fresh-length visited nodes)

fresh-visit :
    (c : String) (visited : List String) (nodes : List DeptNode)
    → fresh (c ∷ visited) nodes ≤ fresh visited nodes
fresh-visit c visited [] = omega arith
fresh-visit c visited (d ∷ nodes) = ground (arith, fresh-visit c visited nodes)

fresh-find :
    (c : String) (visited : List String) (nodes : List DeptNode) (p : String)
    → includes visited c ≡ false
    → parent_of (find_node c nodes) ≡ some p
    → fresh (c ∷ visited) nodes < fresh visited nodes
unfolding find_node
fresh-find c visited [] p n h = ground arith
fresh-find c visited (d ∷ nodes) p n h = ground (
  arith,
  fresh-visit c visited nodes,
  fresh-find c visited nodes p n,
  eq_iff d.id c,
  eq_iff c d.id,
)

abbrev cycle_error : DomainError
cycle_error = rule_violation_as cannot_move_to_child "不能将父部门设为其子部门，这会导致环形死锁"

abbrev self_error : DomainError
self_error = rule_violation_as cannot_move_to_child "不能将父部门设为自身，这会导致环形死锁"

-- With fuel for the fresh nodes and two more rounds, the search has a result.
HasResult : Option Checked → Type 0
HasResult o = (r : Checked) × (o ≡ some r)

climb-total :
    (fuel : ℕ) (dept : String) (current : Option String) (visited : List String)
    (nodes : List DeptNode)
    → 2 + fresh visited nodes ≤ fuel
    → HasResult (climb fuel dept current visited nodes)
unfolding climb HasResult
climb-total fuel dept none visited nodes h = (ok tt, refl)
climb-total zero dept (some c) visited nodes h = ground arith
climb-total (suc fuel) dept (some c) visited nodes h =
    branch (not (truthy_text c)) (c == dept) (includes visited c) refl (λ n.
      elim (Option-cases (parent_of (find_node c nodes))) [
        | inl e ↦ (ok tt, ap (λ o. climb fuel dept o (c ∷ visited) nodes) e)
        | inr (p, e) ↦
            climb-total fuel dept (parent_of (find_node c nodes)) (c ∷ visited) nodes
              (omega (arith, h, fresh-find c visited nodes p n e))
      ])
  where
    branch :
        (a b v : Bool) {o : Option Checked}
        → includes visited c ≡ v
        → (v ≡ false → HasResult o)
        → HasResult (
            if a
            then some (ok tt)
            else if b
            then some (err cycle_error)
            else if v
            then some (ok tt)
            else o)
    branch true b v e k = (ok tt, refl)
    branch false true v e k = (err cycle_error, refl)
    branch false false true e k = (ok tt, refl)
    branch false false false e k = k refl

-- The parents of the visited nodes are visited, or up next.
Closed : List String → Option String → List DeptNode → Type 0
Closed visited current nodes =
    (c p : String)
    → includes visited c ≡ true
    → truthy_text p ≡ true
    → parent_of (find_node c nodes) ≡ some p
    → (includes visited p ≡ true) ⊎ (current ≡ some p)

-- From a closed set that leaves out the department, no way leads to it.
closed-not-Above :
    (dept : String) (visited : List String) (nodes : List DeptNode)
    → includes visited dept ≡ false
    → ((c p : String)
        → includes visited c ≡ true
        → truthy_text p ≡ true
        → parent_of (find_node c nodes) ≡ some p
        → includes visited p ≡ true)
    → (x : String) → includes visited x ≡ true
    → Above nodes dept x
    → ⊥
closed-not-Above dept visited nodes n k x v here = cc
closed-not-Above dept visited nodes n k x v (up {p = p} t e a) =
    closed-not-Above dept visited nodes n k p (k x p v t e) a

-- The node is visited or up next.
Reached : List String → Option String → String → Type 0
Reached visited current c =
    (includes visited c ≡ true) ⊎ ((current ≡ some c) × (truthy_text c ≡ true))

Clear : String → List String → Option String → List DeptNode → Type 0
Clear dept visited current nodes = (x : String) → Reached visited current x → Above nodes dept x → ⊥

Closed-visit :
    (c : String) (visited : List String) (nodes : List DeptNode)
    → Closed visited (some c) nodes
    → Closed (c ∷ visited) (parent_of (find_node c nodes)) nodes
unfolding Closed
Closed-visit c visited nodes k x p v t e = elim (Bool-cases (c == x)) [
  | inl q ↦ inr (ap (λ y. parent_of (find_node y nodes)) ((eq_iff c x).0 q) ∙ e)
  | inr q ↦ ground (arith, k x p, eq_iff c p)
]

climb-Clear :
    (fuel : ℕ) (dept : String) (current : Option String) (visited : List String)
    (nodes : List DeptNode)
    → includes visited dept ≡ false
    → Closed visited current nodes
    → climb fuel dept current visited nodes ≡ some (ok tt)
    → Clear dept visited current nodes
unfolding climb Closed Reached Clear
climb-Clear fuel dept none visited nodes n k h = λ x r. elim r [
  | inl v ↦ closed-not-Above dept visited nodes n (λ c p i t e. ground (arith, k c p i t e)) x v
  | inr (e, t) ↦ cc
]
climb-Clear zero dept (some c) visited nodes n k h = ground arith
climb-Clear (suc fuel) dept (some c) visited nodes n k h =
    branch (not (truthy_text c)) (c == dept) (includes visited c) refl refl refl h (λ d.
      climb-Clear fuel dept (parent_of (find_node c nodes)) (c ∷ visited) nodes
        (ground (arith, d, n)) (Closed-visit c visited nodes k))
  where
    branch :
        (a b v : Bool) {o : Option Checked}
        → not (truthy_text c) ≡ a
        → (c == dept) ≡ b
        → includes visited c ≡ v
        → (if a
            then some (ok tt)
            else if b
            then some (err cycle_error)
            else if v
            then some (ok tt)
            else o)
          ≡ some (ok tt)
        → ((c == dept) ≡ false
            → o ≡ some (ok tt)
            → Clear dept (c ∷ visited) (parent_of (find_node c nodes)) nodes)
        → Clear dept visited (some c) nodes
    branch true b v ea eb ev q i x r =
        closed-not-Above dept visited nodes n (λ y p w t e. ground (arith, k y p w t e, ea)) x
          (ground (arith, r, ea))
    branch false true v ea eb ev q i x r = cc
    branch false false true ea eb ev q i x r =
        closed-not-Above dept visited nodes n (λ y p w t e. ground (arith, k y p w t e, ev)) x
          (ground (arith, r, ev))
    branch false false false ea eb ev q i x r =
        i eb q x (inl (ground (arith, r, eq_refl c, eq_iff c x)))

-- Where the search reports a cycle, a way leads to the department.
Hit : String → Option String → List DeptNode → Type 0
Hit dept current nodes =
    (x : String) × (current ≡ some x) × (truthy_text x ≡ true) × Above nodes dept x

climb-Hit :
    (fuel : ℕ) (dept : String) (current : Option String) (visited : List String)
    (nodes : List DeptNode) (e : DomainError)
    → climb fuel dept current visited nodes ≡ some (err e)
    → (e ≡ cycle_error) × Hit dept current nodes
unfolding climb Hit
climb-Hit fuel dept none visited nodes e h = cc
climb-Hit zero dept (some c) visited nodes e h = cc
climb-Hit (suc fuel) dept (some c) visited nodes e h =
    branch (not (truthy_text c)) (c == dept) (includes visited c) refl refl h
      (λ q. climb-Hit fuel dept (parent_of (find_node c nodes)) (c ∷ visited) nodes e q)
  where
    branch :
        (a b v : Bool) {o : Option Checked}
        → not (truthy_text c) ≡ a
        → (c == dept) ≡ b
        → (if a
            then some (ok tt)
            else if b
            then some (err cycle_error)
            else if v
            then some (ok tt)
            else o)
          ≡ some (err e)
        → (o ≡ some (err e) → (e ≡ cycle_error) × Hit dept (parent_of (find_node c nodes)) nodes)
        → (e ≡ cycle_error) × Hit dept (some c) nodes
    branch true b v ea eb q i = cc
    branch false true v ea eb q i = (
      cc,
      (c, refl, ground (arith, ea), subst (λ y. Above nodes y c) ((eq_iff c dept).0 eb) here),
    )
    branch false false true ea eb q i = cc
    branch false false false ea eb q i =
        let (w, (x, p, t, a)) = i q in (w, (c, refl, ground (arith, ea), up t p a))

-- `validateNoCircularReference` always has a result, on any list, even one with cycles: it passes if
-- the department does not stand above its new parent, nor is it, and throws CANNOT_MOVE_TO_CHILD
-- if it does. The new parent is not the empty text.
pub validate_no_circular_reference_decides :
    (dept parent : String) (nodes : List DeptNode)
    → truthy_text parent ≡ true
    → ((validate_no_circular_reference dept parent nodes ≡ some (ok tt))
        × (Above nodes dept parent → ⊥))
      ⊎ ((e : DomainError) × (validate_no_circular_reference dept parent nodes ≡ some (err e))
          × (e.code ≡ cannot_move_to_child)
          × Above nodes dept parent)
unfolding validate_no_circular_reference HasResult Hit Reached Clear Closed
validate_no_circular_reference_decides dept parent nodes t = elim (Bool-cases (dept == parent)) [
  | inl q ↦ inr (
    _,
    if_true (dept == parent) _ q,
    refl,
    subst (λ y. Above nodes y parent) (sym ((eq_iff dept parent).0 q)) here,
  )
  | inr q ↦ outcome (dept == parent) q (
      climb-total (2 + length nodes) dept (some parent) [] nodes
        (omega (arith, fresh-length [] nodes)))
]
  where
    outcome :
        (b : Bool)
        → b ≡ false
        → HasResult (climb (2 + length nodes) dept (some parent) [] nodes)
        → (((if b
                then some (err self_error)
                else climb (2 + length nodes) dept (some parent) [] nodes)
              ≡ some (ok tt))
            × (Above nodes dept parent → ⊥))
          ⊎ ((e : DomainError) × ((if b
                  then some (err self_error)
                  else climb (2 + length nodes) dept (some parent) [] nodes)
                ≡ some (err e))
              × (e.code ≡ cannot_move_to_child)
              × Above nodes dept parent)
    outcome true q r = cc
    outcome false q (ok _, r) =
        inl
          (r, climb-Clear _ dept (some parent) [] nodes refl (λ c p i. cc) r parent (inr (refl, t)))
    outcome false q (err e, r) =
        let (w, (x, p, u, a)) = climb-Hit _ dept (some parent) [] nodes e r in
        inr (e, r, ap (λ y. y.code) w, subst (λ y. Above nodes dept y) (sym (some_inj p)) a)
