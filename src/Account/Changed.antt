-- ===== src/Account/Changed.antt =====
-- What a change of password that succeeds has shown and does.
use auth_sso.Base.{
  ℕ, ◌≤◌, String, Bool, true, false, ◌≡◌, refl, sym, ap, ◌∙◌, subst, Option, none, some, List, [],
  ◌∷◌, ◌==◌, ◌⊎◌, inl, inr, if◌then◌else◌, if_cases, any, find, take, length, length-take, arith,
}
use auth_sso.Errors.{Result, ok, err, Checked}
use auth_sso.Permissions.{Users}
use auth_sso.Tokens.Rows.{RefreshToken, revoke_user_refresh_tokens}
use auth_sso.Tokens.Rows.Revoked.{RevokedWhere, revoke_user-RevokedWhere}
use auth_sso.Oauth.Clients.{non_empty}
use auth_sso.Account.{
  Bcrypt, PasswordRow, ChangePasswordResult, changed, AccountState, listed_hashes,
  is_password_reused, assert_password_not_reused, push_password_history, next_password_history,
  next_history, state_of, write_password, end_sessions, written, with_hash, with_row,
  change_own_password,
}

-- The row that is found after the write is the row before, with the new hash and history.
pub find-write_password :
    (user hash : String) (history : List String) (now : ℕ) (rows : List PasswordRow)
    (row : PasswordRow)
    → find (λ r. r.id == user) rows ≡ some row
    → find (λ r. r.id == user) (write_password user hash history now rows)
      ≡ some (record row {
        password_hash = some hash;
        password_history = some history;
        password_changed_at = some now;
      })
unfolding write_password
find-write_password user hash history now [] row h = cc
find-write_password user hash history now (r ∷ rows) row h =
    ground (arith, find-write_password user hash history now rows row)

not_reused : (b : Bool) → assert_password_not_reused b ≡ ok tt → b ≡ false
unfolding assert_password_not_reused
not_reused true h = cc
not_reused false h = refl

pub non_empty-some : (o : Option String) (s : String) → non_empty o ≡ some s → o ≡ some s
non_empty-some none s h = cc
non_empty-some (some t) s h = ground arith

module _ (bc : Bcrypt) (db : Users) (jitter : ℕ) (revokes : Bool) (user : String) (now : ℕ)
    (current new : String) (s : AccountState) where
  abbrev end_with : PasswordRow → String → Result ChangePasswordResult × AccountState
  end_with row hash = (
    ok changed,
    end_sessions bc db jitter revokes user now
        (write_password user (bc.hash new) (push_password_history row.password_history hash) now
          s.users)
        s,
  )

  -- The row and its hash before the change, and the outcome.
  abbrev IsChange : Result ChangePasswordResult × AccountState → PasswordRow → String → Type 0
  IsChange outcome row hash =
      (find (λ r. r.id == user) s.users ≡ some row)
      × (non_empty row.password_hash ≡ some hash)
      × (bc.compare current hash ≡ true)
      × (any (bc.compare new) (hash ∷ listed_hashes row.password_history) ≡ false)
      × (outcome ≡ end_with row hash)

  written-changed :
      (row : PasswordRow) (c : Checked)
      → (written bc db jitter revokes user now new row s c).0 ≡ ok changed
      → (c ≡ ok tt)
        × (written bc db jitter revokes user now new row s c ≡ (
          ok changed,
          end_sessions bc db jitter revokes user now
              (write_password user (bc.hash new) (next_password_history (state_of row)) now s.users)
              s,
        ))
  written-changed row (err e) h = cc
  written-changed row (ok t) h = (refl, refl)

  next-push :
      (row : PasswordRow) (hash : String)
      → non_empty row.password_hash ≡ some hash
      → next_password_history (state_of row) ≡ push_password_history row.password_history hash
  unfolding next_password_history
  next-push row hash h = ap (λ o. next_history o row.password_history) h

  pub changed-IsChange :
      (change_own_password bc db jitter revokes user now current new s).0 ≡ ok changed
      → (row : PasswordRow) × (hash : String) × IsChange
          (change_own_password bc db jitter revokes user now current new s)
          row
          hash
  unfolding change_own_password is_password_reused
  changed-IsChange h = by_row (find (λ r. r.id == user) s.users) refl h
    where
      by_hash :
          (row : PasswordRow) (o : Option String)
          → find (λ r. r.id == user) s.users ≡ some row
          → non_empty row.password_hash ≡ o
          → (with_hash bc db jitter revokes user now current new row s o).0 ≡ ok changed
          → (r : PasswordRow) × (hash : String) × IsChange
              (with_hash bc db jitter revokes user now current new row s o)
              r
              hash
      by_hash row none found has k = cc
      by_hash row (some hash) found has k =
          if_cases
            (λ (x : Result ChangePasswordResult × AccountState).
              x.0 ≡ ok changed → (r : PasswordRow) × (h : String) × IsChange x r h)
            (bc.compare current hash)
            (λ right w.
              let (fresh, same) = written-changed row _ w in
              (
                row,
                hash,
                (
                  found,
                  has,
                  right,
                  not_reused _ fresh,
                  same
                      ∙ ap
                          (λ history. (
                            ok changed,
                            end_sessions bc db jitter revokes user now
                                (write_password user (bc.hash new) history now s.users) s,
                          ))
                          (next-push row hash has),
                ),
              ))
            (λ wrong w. cc) k

      by_row :
          (o : Option PasswordRow)
          → find (λ r. r.id == user) s.users ≡ o
          → (with_row bc db jitter revokes user now current new s o).0 ≡ ok changed
          → (r : PasswordRow) × (hash : String) × IsChange
              (with_row bc db jitter revokes user now current new s o)
              r
              hash
      by_row none found q = cc
      by_row (some row) found q = by_hash row (non_empty row.password_hash) found refl q

-- What a failed and a done revocation of a user's refresh tokens leave.
abbrev pub RevokedIf : Bool → String → List RefreshToken → List RefreshToken → Type 0
RevokedIf revokes user before after =
    ((revokes ≡ true) × RevokedWhere (λ r. r.user_id == user) after)
    ⊎ ((revokes ≡ false) × (after ≡ before))

pub revoke_user-RevokedIf :
    (revokes : Bool) (user : String) (now : ℕ) (rows : List RefreshToken)
    → RevokedIf revokes user rows
        (if revokes then revoke_user_refresh_tokens user now rows else rows)
revoke_user-RevokedIf true user now rows = inl (refl, revoke_user-RevokedWhere user now rows)
revoke_user-RevokedIf false user now rows = inr (refl, refl)

-- A change of password that succeeds has shown the current password, of a row with a hash, and a new
-- one that matches neither that hash nor any of the history. It leaves the row with the hash of the new
-- password and a history of at most five hashes, of which the old one is the first; and every refresh
-- token of the user is revoked, except where the database fails in that: the tokens are then as they were.
pub password_changed :
    (bc : Bcrypt) (db : Users) (jitter : ℕ) (revokes : Bool) (user : String) (now : ℕ)
    (current new : String) (s : AccountState)
    → (change_own_password bc db jitter revokes user now current new s).0 ≡ ok changed
    → ((row : PasswordRow) × (hash : String) × (row.password_hash ≡ some hash)
        × (bc.compare current hash ≡ true)
        × (any (bc.compare new) (hash ∷ listed_hashes row.password_history) ≡ false)
        × (find
              (λ r. r.id == user)
              (change_own_password bc db jitter revokes user now current new s).1.users
            ≡ some (record row {
              password_hash = some (bc.hash new);
              password_history = some (take 5 (hash ∷ listed_hashes row.password_history));
              password_changed_at = some now;
            }))
        × (length (take 5 (hash ∷ listed_hashes row.password_history)) ≤ 5))
      × RevokedIf revokes user s.tokens
          (change_own_password bc db jitter revokes user now current new s).1.tokens
unfolding push_password_history
password_changed bc db jitter revokes user now current new s h =
    let (row, hash, (found, has, right, fresh, same)) =
      changed-IsChange bc db jitter revokes user now current new s h in
    (
      (
        row,
        hash,
        non_empty-some row.password_hash hash has,
        right,
        fresh,
        ap (λ (r : Result ChangePasswordResult × AccountState). find (λ x. x.id == user) r.1.users)
              same
            ∙ find-write_password user (bc.hash new) _ now s.users row found,
        length-take 5 (hash ∷ listed_hashes row.password_history),
      ),
      subst
          (λ (r : Result ChangePasswordResult × AccountState).
            RevokedIf revokes user s.tokens r.1.tokens)
          (sym same) (revoke_user-RevokedIf revokes user now s.tokens),
    )
