-- ===== src/Tokens/Rotation/OneTime.antt =====
-- A refresh token rotates once. After a rotation has committed, whatever the other requests write
-- to the table in the meantime, presenting the same token again is refused and revokes the family.
use auth_sso.Base.{
  String, ◌≡◌, refl, sym, ap, ◌∙◌, subst, Bool, true, false, Option, none, some, List, [], ◌∷◌,
  ◌++◌, ltb, some_inj,
}
use auth_sso.Tokens.Rows.{
  RefreshToken, is_revoked, mark_revoked, revoke_refresh_token_by_id, revoke_refresh_token_family,
  find_by_hash,
}
use auth_sso.Tokens.Rows.Updates.{FamilyRevoked, revoke_family-FamilyRevoked, find-revoke_by_id}
use auth_sso.Tokens.Rows.Growth.{find_by_hash-Grows}
use auth_sso.Tokens.Rotation.{
  Services, Draws, Rotated, wrong_client, rotated, new_row, rotate_row, rotate_checked,
  rotate_transaction,
}
use auth_sso.Tokens.Rotation.Writes.{Writes, Grows-Writes}

-- What a committed rotation had to find.
pub record IsCommitted (sv : Services) (old : String) (expected : Option String) (d : Draws)
    (rows : List RefreshToken) (g : Rotated) : Type 0 where
  pub listed : find_by_hash (sv.hash_token old) rows ≡ some g.rt
  pub unrevoked : is_revoked g.rt ≡ false
  pub unexpired : ltb g.rt.expires_at d.now ≡ false
  pub owned : wrong_client expected g.rt ≡ false
  pub granted : g ≡ rotated sv g.rt d
  pub written :
      (rotate_transaction sv old expected d rows).1
      ≡ revoke_refresh_token_by_id g.rt.id d.now rows ++ new_row sv g.rt d ∷ []

module _ (sv : Services) where
  rotate_checked-IsCommitted :
      (a b c : Bool) (old : String) (expected : Option String) (d : Draws)
      (rows : List RefreshToken) (rt : RefreshToken) (g : Rotated)
      → find_by_hash (sv.hash_token old) rows ≡ some rt
      → is_revoked rt ≡ a
      → ltb rt.expires_at d.now ≡ b
      → wrong_client expected rt ≡ c
      → (rotate_transaction sv old expected d rows).1 ≡ (rotate_checked sv a b c rt d rows).1
      → (rotate_checked sv a b c rt d rows).0 ≡ some g
      → IsCommitted sv old expected d rows g
  rotate_checked-IsCommitted true b c old expected d rows rt g e r x w t h = cc
  rotate_checked-IsCommitted false true c old expected d rows rt g e r x w t h = cc
  rotate_checked-IsCommitted false false true old expected d rows rt g e r x w t h = cc
  rotate_checked-IsCommitted false false false old expected d rows rt g e r x w t h =
      subst (IsCommitted sv old expected d rows) (some_inj h) (record {
        listed = e;
        unrevoked = r;
        unexpired = x;
        owned = w;
        granted = refl;
        written = t;
      })

  rotate_row-IsCommitted :
      (old : String) (expected : Option String) (d : Draws) (rows : List RefreshToken)
      (o : Option RefreshToken) (g : Rotated)
      → find_by_hash (sv.hash_token old) rows ≡ o
      → (rotate_transaction sv old expected d rows).1 ≡ (rotate_row sv o expected d rows).1
      → (rotate_row sv o expected d rows).0 ≡ some g
      → IsCommitted sv old expected d rows g
  rotate_row-IsCommitted old expected d rows none g e t h = cc
  rotate_row-IsCommitted old expected d rows (some rt) g e t h =
      rotate_checked-IsCommitted (is_revoked rt) (ltb rt.expires_at d.now)
        (wrong_client expected rt) old expected d rows rt g e refl refl refl t h

  pub rotate_transaction-IsCommitted :
      (old : String) (expected : Option String) (d : Draws) (rows : List RefreshToken) (g : Rotated)
      → (rotate_transaction sv old expected d rows).0 ≡ some g
      → IsCommitted sv old expected d rows g
  unfolding rotate_transaction
  rotate_transaction-IsCommitted old expected d rows g h =
      rotate_row-IsCommitted old expected d rows (find_by_hash (sv.hash_token old) rows) g refl refl
        h

  -- A revoked row is never rotated, and its family is revoked.
  revoked_row :
      (old : String) (expected : Option String) (d : Draws) (rows : List RefreshToken)
      (rt : RefreshToken)
      → find_by_hash (sv.hash_token old) rows ≡ some rt
      → is_revoked rt ≡ true
      → rotate_transaction sv old expected d rows
        ≡ (none, revoke_refresh_token_family rt.user_id rt.client_id d.now rows)
  unfolding rotate_transaction
  revoked_row old expected d rows rt e r =
      ap (λ o. rotate_row sv o expected d rows) e
      ∙ ap (λ b. rotate_checked sv b (ltb rt.expires_at d.now) (wrong_client expected rt) rt d rows)
          r

  -- Once a rotation of a token has committed, then after any writes of other requests a second
  -- rotation of it is refused, and leaves every token of its user at its client revoked, the one
  -- that the first rotation issued and all its successors included.
  pub rotation_once :
      (old : String) (expected expected' : Option String) (d d' : Draws)
      (rows rows' : List RefreshToken) (g : Rotated)
      → (rotate_transaction sv old expected d rows).0 ≡ some g
      → Writes sv (rotate_transaction sv old expected d rows).1 rows'
      → ((rotate_transaction sv old expected' d' rows').0 ≡ none)
        × FamilyRevoked g.rt.user_id g.rt.client_id (rotate_transaction sv old expected' d' rows').1
  rotation_once old expected expected' d d' rows rows' g h ws =
      let c = rotate_transaction-IsCommitted old expected d rows g h in
      let (u, found, later) =
        find_by_hash-Grows (sv.hash_token old) _ rows' (mark_revoked d.now g.rt)
          (Grows-Writes sv ws)
          (ap (find_by_hash (sv.hash_token old)) c.written
            ∙ find-revoke_by_id (sv.hash_token old) d.now rows (new_row sv g.rt d ∷ []) g.rt
                c.listed) in
      let e = revoked_row old expected' d' rows' u found (later.stays_revoked refl) in
      (
        ap (λ r. r.0) e,
        subst
            (λ (r : Option Rotated × List RefreshToken).
              FamilyRevoked g.rt.user_id g.rt.client_id r.1)
            (sym e)
            (subst
              (λ v.
                FamilyRevoked v g.rt.client_id
                  (revoke_refresh_token_family u.user_id u.client_id d'.now rows'))
              later.same_user
              (subst
                (λ v.
                  FamilyRevoked u.user_id v
                    (revoke_refresh_token_family u.user_id u.client_id d'.now rows'))
                later.same_client
                (revoke_family-FamilyRevoked u.user_id u.client_id d'.now rows'))),
      )
