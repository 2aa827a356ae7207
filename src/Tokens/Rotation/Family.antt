-- ===== src/Tokens/Rotation/Family.antt =====
-- What a rotation can reach: only rows of one family, the one of the row that the token names.
use auth_sso.Base.{
  String, ◌≡◌, refl, sym, ap, ◌∙◌, subst, Bool, true, false, Option, some, List, [], ◌∷◌, arith,
  ◌==◌, eq_iff, eq_refl, ltb, All,
}
use auth_sso.Tokens.Rows.{
  RefreshToken, is_revoked, in_family, revoke_where, revoke_refresh_token_by_id,
  revoke_refresh_token_family, find_by_hash,
}
use auth_sso.Tokens.Rows.Updates.{outsiders, outsiders-revoke_where, outsiders-append_member}
use auth_sso.Tokens.Rotation.{
  Services, Draws, wrong_client, new_row, rotate_checked, rotate_row, rotate_transaction,
}

-- The row that carries an id is the one given: the id is the primary key.
abbrev IsKey : RefreshToken → List RefreshToken → Type 0
IsKey rt = All (λ r. r.id ≡ rt.id → r ≡ rt)

All-family :
    (user client : String) (rows : List RefreshToken)
    → All (λ r. in_family user client r ≡ true → in_family user client r ≡ true) rows
All-family user client [] = tt
All-family user client (r ∷ rows) = (λ h. h, All-family user client rows)

self_in_family : (rt : RefreshToken) → in_family rt.user_id rt.client_id rt ≡ true
self_in_family rt = ground (arith, eq_refl rt.user_id, eq_refl rt.client_id)

All-key :
    (rt : RefreshToken) (rows : List RefreshToken)
    → IsKey rt rows
    → All (λ r. (r.id == rt.id) ≡ true → in_family rt.user_id rt.client_id r ≡ true) rows
All-key rt [] h = tt
All-key rt (r ∷ rows) h = (
  λ e.
      subst (λ x. in_family rt.user_id rt.client_id x ≡ true) (sym (h.0 ((eq_iff r.id rt.id).0 e)))
        (self_in_family rt),
  All-key rt rows h.1,
)

module _ (sv : Services) where
  outsiders-rotate_checked :
      (a b c : Bool) (rt : RefreshToken) (d : Draws) (rows : List RefreshToken)
      → IsKey rt rows
      → outsiders rt.user_id rt.client_id (rotate_checked sv a b c rt d rows).1
        ≡ outsiders rt.user_id rt.client_id rows
  unfolding revoke_refresh_token_family revoke_refresh_token_by_id
  outsiders-rotate_checked true b c rt d rows k =
      outsiders-revoke_where _ _ _ d.now rows (All-family _ _ rows)
  outsiders-rotate_checked false true c rt d rows k = refl
  outsiders-rotate_checked false false true rt d rows k =
      outsiders-revoke_where _ _ _ d.now rows (All-family _ _ rows)
  outsiders-rotate_checked false false false rt d rows k =
      outsiders-append_member rt.user_id rt.client_id
        (revoke_where (λ row. row.id == rt.id) d.now rows) (new_row sv rt d)
        (ground (arith, eq_refl rt.user_id, eq_refl rt.client_id))
      ∙ outsiders-revoke_where _ _ (λ row. row.id == rt.id) d.now rows (All-key rt rows k)

  -- However a rotation ends, the rows of every other user or client stay exactly as they were, if
  -- the id of the token's row is its key.
  rotation_keeps_outsiders :
      (old : String) (expected : Option String) (d : Draws) (rows : List RefreshToken)
      (rt : RefreshToken)
      → find_by_hash (sv.hash_token old) rows ≡ some rt
      → IsKey rt rows
      → outsiders rt.user_id rt.client_id (rotate_transaction sv old expected d rows).1
        ≡ outsiders rt.user_id rt.client_id rows
  unfolding rotate_transaction
  rotation_keeps_outsiders old expected d rows rt e k =
      ap (λ o. outsiders rt.user_id rt.client_id (rotate_row sv o expected d rows).1) e
      ∙ outsiders-rotate_checked (is_revoked rt) (ltb rt.expires_at d.now)
          (wrong_client expected rt) rt d rows k
