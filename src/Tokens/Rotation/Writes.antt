-- ===== src/Tokens/Rotation/Writes.antt =====
-- A refresh token rotates once. After a rotation has committed, whatever the other requests do to
-- the table in the meantime, presenting the same token again is refused and revokes the family.
use auth_sso.Base.{ℕ, String, Bool, true, false, Option, none, some, List, [], ◌∷◌, ◌++◌, ◌==◌, ltb}
use auth_sso.Tokens.Rows.{
  RefreshToken, is_revoked, revoke_refresh_token_by_id, revoke_refresh_token_by_token_hash,
  revoke_refresh_token_family, revoke_user_refresh_tokens, revoke_client_refresh_tokens,
  find_by_hash,
}
use auth_sso.Tokens.Rows.Growth.{Grows, Grows-refl, Grows-trans, Grows-append, Grows-revoke_where}
use auth_sso.Tokens.Rotation.{
  Services, Draws, wrong_client, new_row, rotate_row, rotate_checked, rotate_transaction,
}

-- The writes to the table that requests make, each atomic. The deletion of a client, which deletes
-- its rows by cascade, is not among them.
pub data Write (sv : Services) : List RefreshToken → List RefreshToken → Type 0 where
  rotation :
      (old : String) (expected : Option String) (d : Draws) (rows : List RefreshToken)
      → Write sv rows (rotate_transaction sv old expected d rows).1
  issue : (row : RefreshToken) (rows : List RefreshToken) → Write sv rows (rows ++ row ∷ [])
  by_id :
      (id : String) (now : ℕ) (rows : List RefreshToken)
      → Write sv rows (revoke_refresh_token_by_id id now rows)
  by_hash :
      (hash : String) (client : Option String) (now : ℕ) (rows : List RefreshToken)
      → Write sv rows (revoke_refresh_token_by_token_hash hash client now rows)
  family :
      (user client : String) (now : ℕ) (rows : List RefreshToken)
      → Write sv rows (revoke_refresh_token_family user client now rows)
  by_user :
      (user : String) (now : ℕ) (rows : List RefreshToken)
      → Write sv rows (revoke_user_refresh_tokens user now rows)
  by_client :
      (client : String) (ids : Option (List String)) (now : ℕ) (rows : List RefreshToken)
      → Write sv rows (revoke_client_refresh_tokens client ids now rows).0

-- Any number of writes, in any order.
pub data Writes (sv : Services) (rows : List RefreshToken) : List RefreshToken → Type 0 where
  done : Writes sv rows rows
  more : {t u : List RefreshToken} → Writes sv rows t → Write sv t u → Writes sv rows u

module _ (sv : Services) where
  Grows-rotate_checked :
      (revoked expired wrong : Bool) (rt : RefreshToken) (d : Draws) (rows : List RefreshToken)
      → Grows rows (rotate_checked sv revoked expired wrong rt d rows).1
  unfolding revoke_refresh_token_family revoke_refresh_token_by_id
  Grows-rotate_checked true e w rt d rows = Grows-revoke_where _ d.now rows
  Grows-rotate_checked false true w rt d rows = Grows-refl rows
  Grows-rotate_checked false false true rt d rows = Grows-revoke_where _ d.now rows
  Grows-rotate_checked false false false rt d rows =
      Grows-trans rows _ _ (Grows-revoke_where (λ row. row.id == rt.id) d.now rows)
        (Grows-append _ (new_row sv rt d ∷ []))

  Grows-rotate_row :
      (o : Option RefreshToken) (expected : Option String) (d : Draws) (rows : List RefreshToken)
      → Grows rows (rotate_row sv o expected d rows).1
  Grows-rotate_row none expected d rows = Grows-refl rows
  Grows-rotate_row (some rt) expected d rows =
      Grows-rotate_checked (is_revoked rt) (ltb rt.expires_at d.now) (wrong_client expected rt) rt d
        rows

  Grows-Write : {t u : List RefreshToken} → Write sv t u → Grows t u
  unfolding rotate_transaction revoke_refresh_token_by_id revoke_refresh_token_by_token_hash
      revoke_refresh_token_family revoke_user_refresh_tokens revoke_client_refresh_tokens
  Grows-Write (rotation old expected d rows) =
      Grows-rotate_row (find_by_hash (sv.hash_token old) rows) expected d rows
  Grows-Write (issue row rows) = Grows-append rows (row ∷ [])
  Grows-Write (by_id id now rows) = Grows-revoke_where _ now rows
  Grows-Write (by_hash hash client now rows) = Grows-revoke_where _ now rows
  Grows-Write (family user client now rows) = Grows-revoke_where _ now rows
  Grows-Write (by_user user now rows) = Grows-revoke_where _ now rows
  Grows-Write (by_client client ids now rows) = Grows-revoke_where _ now rows

  pub Grows-Writes : {t u : List RefreshToken} → Writes sv t u → Grows t u
  Grows-Writes {t} done = Grows-refl t
  Grows-Writes {t} {u} (more {t = v} h w) = Grows-trans t v u (Grows-Writes h) (Grows-Write w)
