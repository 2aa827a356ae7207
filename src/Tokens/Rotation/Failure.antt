-- ===== src/Tokens/Rotation/Failure.antt =====
-- A rotation that answers with nothing leaves no token behind that nobody holds.
use auth_sso.Base.{String, ◌≡◌, Bool, true, false, Option, none, some, List, ◌==◌, ltb}
use auth_sso.Permissions.{IssuancePermission, allowed, refused}
use auth_sso.Tokens.Access.{sign_access_token, SignedToken}
use auth_sso.Tokens.Rows.{
  RefreshToken, is_revoked, revoke_where, revoke_refresh_token_by_id, revoke_refresh_token_family,
  find_by_hash,
}
use auth_sso.Tokens.Rows.Updates.{
  LiveWithin, LiveWithin-refl, LiveWithin-revoke_where, LiveWithin-compensated,
}
use auth_sso.Tokens.Rotation.{
  Services, Draws, Rotated, AuthState, wrong_client, new_row, rotate_checked, rotate_row,
  rotate_transaction, finish_rotation, rotate_refresh_token, answer_signed, sign_granted,
  access_request,
}

-- What a transaction leaves: no new live row without a result, and with one only a row that the
-- compensation reaches.
Leaves : List RefreshToken → Draws → Option Rotated × List RefreshToken → Type 0
Leaves base d (none, rows) = LiveWithin base rows
Leaves base d (some g, rows) = LiveWithin base (revoke_refresh_token_by_id g.new_id d.now rows)

module _ (sv : Services) where
  rotate_checked-Leaves :
      (a b c : Bool) (rt : RefreshToken) (d : Draws) (rows : List RefreshToken)
      → Leaves rows d (rotate_checked sv a b c rt d rows)
  unfolding Leaves revoke_refresh_token_family revoke_refresh_token_by_id
  rotate_checked-Leaves true b c rt d rows =
      LiveWithin-revoke_where rows _ d.now rows (LiveWithin-refl rows)
  rotate_checked-Leaves false true c rt d rows = LiveWithin-refl rows
  rotate_checked-Leaves false false true rt d rows =
      LiveWithin-revoke_where rows _ d.now rows (LiveWithin-refl rows)
  rotate_checked-Leaves false false false rt d rows =
      LiveWithin-compensated rows d.now (revoke_where (λ row. row.id == rt.id) d.now rows)
        (new_row sv rt d) (LiveWithin-revoke_where rows _ d.now rows (LiveWithin-refl rows))

  rotate_transaction-Leaves :
      (old : String) (expected : Option String) (d : Draws) (rows : List RefreshToken)
      → Leaves rows d (rotate_transaction sv old expected d rows)
  unfolding rotate_transaction
  rotate_transaction-Leaves old expected d rows = go (find_by_hash (sv.hash_token old) rows)
    where
      go : (o : Option RefreshToken) → Leaves rows d (rotate_row sv o expected d rows)
      go none = unfold Leaves in LiveWithin-refl rows
      go (some rt) =
          rotate_checked-Leaves (is_revoked rt) (ltb rt.expires_at d.now) (wrong_client expected rt)
            rt d rows

  answer_signed-clean :
      (base : List RefreshToken) (o : Option SignedToken) (g : Rotated) (d : Draws) (s : AuthState)
      → LiveWithin base (revoke_refresh_token_by_id g.new_id d.now s.tokens)
      → (answer_signed sv o true g d s).0 ≡ none
      → LiveWithin base (answer_signed sv o true g d s).1.tokens
  answer_signed-clean base none g d s l h = l
  answer_signed-clean base (some t) g d s l h = cc

  sign_granted-clean :
      (base : List RefreshToken) (p : IssuancePermission) (g : Rotated) (d : Draws) (s : AuthState)
      → LiveWithin base (revoke_refresh_token_by_id g.new_id d.now s.tokens)
      → (sign_granted sv p true g d s).0 ≡ none
      → LiveWithin base (sign_granted sv p true g d s).1.tokens
  sign_granted-clean base (refused r) g d s l h = l
  sign_granted-clean base (allowed b) g d s l h =
      answer_signed-clean base (sign_access_token sv.sign (access_request sv g d) s.jtis).0 g d
        (record s { jtis = (sign_access_token sv.sign (access_request sv g d) s.jtis).1 }) l h

  finish_rotation-clean :
      (base : List RefreshToken) (o : Option Rotated) (d : Draws) (s : AuthState)
      → Leaves base d (o, s.tokens)
      → (finish_rotation sv true o d s).0 ≡ none
      → LiveWithin base (finish_rotation sv true o d s).1.tokens
  unfolding finish_rotation Leaves
  finish_rotation-clean base none d s l h = l
  finish_rotation-clean base (some g) d s l h =
      sign_granted-clean base _ g d (record s { cache = _ }) l h

  -- When a rotation answers with nothing, for whatever reason, and its compensating write works,
  -- every token that is live afterwards was in the table before.
  pub failed_rotation_clean :
      (old : String) (expected : Option String) (d : Draws) (s : AuthState)
      → (rotate_refresh_token sv true old expected d s).0 ≡ none
      → LiveWithin s.tokens (rotate_refresh_token sv true old expected d s).1.tokens
  unfolding rotate_refresh_token
  failed_rotation_clean old expected d s h =
      finish_rotation-clean s.tokens (rotate_transaction sv old expected d s.tokens).0 d
        (record s { tokens = (rotate_transaction sv old expected d s.tokens).1 })
        (rotate_transaction-Leaves old expected d s.tokens) h
