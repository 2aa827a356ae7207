-- ===== src/Tokens/Rows/Updates.antt =====
-- What the revocations do to the rows: they reach every row of their clause, no other row, and
-- the row that a hash finds stays the one that it finds.
use auth_sso.Base.{
  ℕ, String, ◌≡◌, refl, sym, ap, ◌∙◌, subst, Bool, true, false, not, some, List, [], ◌∷◌, ◌++◌,
  arith, ◌==◌, eq_refl, if◌then◌else◌, All, All-of_Among, Among, false≢true, keep, if_true,
}
use auth_sso.Tokens.Rows.{
  RefreshToken, is_revoked, mark_revoked, revoke_where, in_family, revoke_refresh_token_by_id,
  revoke_refresh_token_family, find_by_hash,
}

-- Every row of the family of a user at a client is revoked.
abbrev pub FamilyRevoked : String → String → List RefreshToken → Type 0
FamilyRevoked user client = All (λ r. in_family user client r ≡ true → is_revoked r ≡ true)

pub revoke_family-FamilyRevoked :
    (user client : String) (now : ℕ) (rows : List RefreshToken)
    → FamilyRevoked user client (revoke_refresh_token_family user client now rows)
unfolding revoke_refresh_token_family revoke_where
revoke_family-FamilyRevoked user client now [] = tt
revoke_family-FamilyRevoked user client now (r ∷ rows) =
    (here (in_family user client r) refl, revoke_family-FamilyRevoked user client now rows)
  where
    here :
        (b : Bool)
        → in_family user client r ≡ b
        → in_family user client (if b then mark_revoked now r else r) ≡ true
        → is_revoked (if b then mark_revoked now r else r) ≡ true
    here true e h = refl
    here false e h = absurd (false≢true (sym e ∙ h))

-- The row that a hash finds is still found after an UPDATE and an INSERT, as the UPDATE left it.
find-revoke_where :
    (hash : String) (test : RefreshToken → Bool) (now : ℕ) (rows more : List RefreshToken)
    (rt : RefreshToken)
    → find_by_hash hash rows ≡ some rt
    → find_by_hash hash (revoke_where test now rows ++ more)
      ≡ some (if test rt then mark_revoked now rt else rt)
unfolding find_by_hash revoke_where
find-revoke_where hash test now [] more rt h = cc
find-revoke_where hash test now (r ∷ rows) more rt h =
    ground (arith, find-revoke_where hash test now rows more rt)

pub find-revoke_by_id :
    (hash : String) (now : ℕ) (rows more : List RefreshToken) (rt : RefreshToken)
    → find_by_hash hash rows ≡ some rt
    → find_by_hash hash (revoke_refresh_token_by_id rt.id now rows ++ more)
      ≡ some (mark_revoked now rt)
unfolding revoke_refresh_token_by_id
find-revoke_by_id hash now rows more rt h =
    find-revoke_where hash (λ row. row.id == rt.id) now rows more rt h
    ∙ ap some (if_true (rt.id == rt.id) rt (eq_refl rt.id))

-- The rows outside the family of a user at a client.
abbrev pub outsiders : String → String → List RefreshToken → List RefreshToken
outsiders user client = keep (λ r. not (in_family user client r))

-- Revoking by a clause that only rows of the family meet leaves the others as they are.
pub outsiders-revoke_where :
    (user client : String) (test : RefreshToken → Bool) (now : ℕ) (rows : List RefreshToken)
    → All (λ r. test r ≡ true → in_family user client r ≡ true) rows
    → outsiders user client (revoke_where test now rows) ≡ outsiders user client rows
unfolding revoke_where
outsiders-revoke_where user client test now [] h = refl
outsiders-revoke_where user client test now (r ∷ rows) h =
    ground (arith, outsiders-revoke_where user client test now rows h.1, h.0)

pub outsiders-append_member :
    (user client : String) (rows : List RefreshToken) (row : RefreshToken)
    → in_family user client row ≡ true
    → outsiders user client (rows ++ row ∷ []) ≡ outsiders user client rows
outsiders-append_member user client [] row h = ground arith
outsiders-append_member user client (r ∷ rows) row h =
    ground (arith, outsiders-append_member user client rows row h)

-- Every live row of the table is one of `base`.
abbrev pub LiveWithin : List RefreshToken → List RefreshToken → Type 0
LiveWithin base = All (λ r. is_revoked r ≡ false → Among r base)

pub LiveWithin-refl : (rows : List RefreshToken) → LiveWithin rows rows
LiveWithin-refl rows = All-of_Among rows (λ r m live. m)

marked_live :
    (base : List RefreshToken) (b : Bool) (now : ℕ) (r : RefreshToken)
    → (is_revoked r ≡ false → Among r base)
    → is_revoked (if b then mark_revoked now r else r) ≡ false
    → Among (if b then mark_revoked now r else r) base
marked_live base true now r h live = absurd (false≢true (sym live))
marked_live base false now r h live = h live

pub LiveWithin-revoke_where :
    (base : List RefreshToken) (test : RefreshToken → Bool) (now : ℕ) (rows : List RefreshToken)
    → LiveWithin base rows
    → LiveWithin base (revoke_where test now rows)
unfolding revoke_where
LiveWithin-revoke_where base test now [] h = tt
LiveWithin-revoke_where base test now (r ∷ rows) h =
    (marked_live base (test r) now r h.0, LiveWithin-revoke_where base test now rows h.1)

-- Revoking a row that was just appended, by its id.
pub LiveWithin-compensated :
    (base : List RefreshToken) (now : ℕ) (rows : List RefreshToken) (row : RefreshToken)
    → LiveWithin base rows
    → LiveWithin base (revoke_refresh_token_by_id row.id now (rows ++ row ∷ []))
unfolding revoke_refresh_token_by_id revoke_where
LiveWithin-compensated base now [] row h = (
  subst (λ r. is_revoked r ≡ false → Among r base)
      (sym (if_true (row.id == row.id) row (eq_refl row.id)))
      (λ live. absurd (false≢true (sym live))),
  tt,
)
LiveWithin-compensated base now (r ∷ rows) row h =
    (marked_live base (r.id == row.id) now r h.0, LiveWithin-compensated base now rows row h.1)
