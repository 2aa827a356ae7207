-- ===== src/Domain/Department/Acyclic.antt =====
-- Moving departments never makes the parents run in a circle.
use auth_sso.Base.{
  String, ◌≡◌, refl, sym, ap, ◌∙◌, subst, ◌⊎◌, inl, inr, true, false, Option, none, some, List, [],
  ◌∷◌, arith, ◌==◌, eq_iff, if◌then◌else◌, truthy_text, same_text, same_text_iff, or_else,
  Bool-cases, some_inj,
}
use auth_sso.Errors.{Checked, ok, err}
use auth_sso.Domain.Department.{
  Department, DepartmentPatch, DeptNode, find_node, parent_of, moved_to, checked, check_move,
  apply_department_update, apply_department_update_with_circular_check,
}
use auth_sso.Domain.Department.Cycle.{Above, here, up, validate_no_circular_reference_decides}

-- The rows after the parent of the row with this id is written.
unfoldable pub store_parent : String → Option String → List DeptNode → List DeptNode
store_parent id q [] = []
store_parent id q (d ∷ nodes) =
    let rest = store_parent id q nodes in
    if d.id == id then record d { parent_id = q } ∷ rest else d ∷ rest

-- No department stands above its own parent.
unfoldable pub IsAcyclic : List DeptNode → Type 0
IsAcyclic nodes =
    (c p : String)
    → truthy_text p ≡ true
    → parent_of (find_node c nodes) ≡ some p
    → Above nodes c p
    → ⊥

module _ (id : String) (q : Option String) where
  parent_other :
      (nodes : List DeptNode) (c : String)
      → (c == id) ≡ false
      → parent_of (find_node c (store_parent id q nodes)) ≡ parent_of (find_node c nodes)
  unfolding find_node store_parent
  parent_other [] c n = refl
  parent_other (d ∷ nodes) c n =
      ground (arith, n, parent_other nodes c n, eq_iff d.id id, eq_iff d.id c, eq_iff c id)

  parent_self :
      (nodes : List DeptNode) (p : String)
      → parent_of (find_node id (store_parent id q nodes)) ≡ some p
      → q ≡ some p
  unfolding find_node store_parent
  parent_self [] p h = cc
  parent_self (d ∷ nodes) p h = ground (arith, parent_self nodes p, eq_iff d.id id)

  -- A way after the write is one from before, or it passes the department and its new parent.
  Passes : List DeptNode → String → String → Type 0
  Passes nodes a c =
      Above nodes id c × ((p : String) × (q ≡ some p) × (truthy_text p ≡ true) × Above nodes a p)

  Above-store :
      (nodes : List DeptNode) (a c : String)
      → Above (store_parent id q nodes) a c
      → Above nodes a c ⊎ Passes nodes a c
  unfolding Passes
  Above-store nodes a c here = inl here
  Above-store nodes a c (up {p = p} t e w) = elim (Bool-cases (c == id)) [
    | inl s ↦ inr (
      subst (λ y. Above nodes id y) (sym ((eq_iff c id).0 s)) here,
      elim (Above-store nodes a p w) [
        | inl v ↦ (
          p,
          parent_self nodes p (
              ap (λ y. parent_of (find_node y (store_parent id q nodes))) (sym ((eq_iff c id).0 s))
              ∙ e),
          t,
          v,
        )
        | inr v ↦ v.1
      ],
    )
    | inr n ↦ elim (Above-store nodes a p w) [
      | inl v ↦ inl (up t (sym (parent_other nodes c n) ∙ e) v)
      | inr v ↦ inr (up t (sym (parent_other nodes c n) ∙ e) v.0, v.1)
    ]
  ]

  Above-trans :
      (nodes : List DeptNode) (a b c : String) → Above nodes a b → Above nodes b c → Above nodes a c
  Above-trans nodes a b c v here = v
  Above-trans nodes a b c v (up {p = p} t e w) = up t e (Above-trans nodes a b p v w)

  store_parent-IsAcyclic :
      (nodes : List DeptNode)
      → IsAcyclic nodes
      → ((p : String) → q ≡ some p → truthy_text p ≡ true → Above nodes id p → ⊥)
      → IsAcyclic (store_parent id q nodes)
  unfolding IsAcyclic Passes
  store_parent-IsAcyclic nodes k n c p t e w = elim (Bool-cases (c == id)) [
    | inl s ↦
        let at = (eq_iff c id).0 s in
        elim (Above-store nodes c p w) [
          | inl v ↦
              n p
                (parent_self nodes p
                  (ap (λ y. parent_of (find_node y (store_parent id q nodes))) (sym at) ∙ e))
                t (subst (λ y. Above nodes y p) at v)
          | inr (v, (r, f, u, x)) ↦ n r f u (subst (λ y. Above nodes y r) at x)
        ]
    | inr s ↦
        let e' = sym (parent_other nodes c s) ∙ e in
        elim (Above-store nodes c p w) [
          | inl v ↦ k c p t e' v
          | inr (v, (r, f, u, x)) ↦ n r f u (Above-trans nodes id c r (up t e' v) x)
        ]
  ]

-- The new parent is the old one, or none, or one that the move was checked against.
abbrev Allowed : List DeptNode → Department → Option String → Type 0
Allowed nodes dept q = (p : String) → q ≡ some p → truthy_text p ≡ true → Above nodes dept.id p → ⊥

checked-ok :
    (o : Option Checked) (d d' : Department)
    → checked o d ≡ some (ok d')
    → (o ≡ some (ok tt)) × (d' ≡ d)
checked-ok none d d' h = cc
checked-ok (some (ok tt)) d d' h = (refl, cc)
checked-ok (some (err e)) d d' h = cc

move-Allowed :
    (nodes : List DeptNode) (dept : Department) (m : Option (Option String))
    → IsAcyclic nodes
    → parent_of (find_node dept.id nodes) ≡ dept.parent_id
    → check_move (moved_to m dept.parent_id) dept nodes ≡ some (ok tt)
    → Allowed nodes dept (or_else m dept.parent_id)
unfolding IsAcyclic
move-Allowed nodes dept none k s h p e t w = k dept.id p t (s ∙ e) w
move-Allowed nodes dept (some none) k s h p e t w = cc
move-Allowed nodes dept (some (some r)) k s h p e t w =
    elim (Bool-cases (same_text (some r) dept.parent_id)) [
      | inl u ↦ k dept.id p t (s ∙ (sym ((same_text_iff (some r) dept.parent_id).0 u) ∙ e)) w
      | inr u ↦
          elim (validate_no_circular_reference_decides dept.id r nodes
            (ap truthy_text (some_inj e) ∙ t)) [
              | inl (_, v) ↦ v (subst (λ y. Above nodes dept.id y) (sym (some_inj e)) w)
              | inr (_, v, _, _) ↦ ground (arith, h, v, u, e, t)
            ]
    ]

-- If no department stands above its own parent, then the same holds after the update that
-- `applyDepartmentUpdateWithCircularCheck` lets through is stored, whatever the patch was; the
-- department passed in has the parent of its stored row.
pub move_keeps_IsAcyclic :
    (nodes : List DeptNode) (dept dept' : Department) (patch : DepartmentPatch)
    → IsAcyclic nodes
    → parent_of (find_node dept.id nodes) ≡ dept.parent_id
    → apply_department_update_with_circular_check dept patch nodes ≡ some (ok dept')
    → IsAcyclic (store_parent dept'.id dept'.parent_id nodes)
unfolding apply_department_update_with_circular_check apply_department_update
move_keeps_IsAcyclic nodes dept dept' patch k s h =
    let (c, e) = checked-ok _ _ _ h in
    subst (λ d. IsAcyclic (store_parent d.id d.parent_id nodes)) (sym e)
      (store_parent-IsAcyclic dept.id (or_else patch.parent_id dept.parent_id) nodes k
        (move-Allowed nodes dept patch.parent_id k s c))
