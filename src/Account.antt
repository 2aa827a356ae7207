-- ===== src/Account.antt =====
-- Passwords: apps/portal/src/domain/auth/password.ts and password-change.ts, changeOwnPassword of
-- lib/account/change-password.ts, and assertResetAllowed of reset-password.ts. bcrypt is a parameter,
-- as are the rows that the refresh of the permission cache reads, and whether the database takes the
-- revocation of the refresh tokens, `revokes`. That it fails elsewhere is not modelled.
pub mod Changed
pub mod Remembered
use auth_sso.Base.{
  ℕ, String, Bool, true, false, not, Option, none, some, List, [], ◌∷◌, ◌++◌, map, ◌==◌,
  if◌then◌else◌, any, find, take, truthy_text,
}
use auth_sso.Errors.{Result, ok, err, Checked, throw_if, rule_violation}
use auth_sso.Session.Jti.{JtiStore, revoke_user_access_by_user_id}
use auth_sso.Permissions.{Users, PermissionCache, refresh_user_permission_cache}
use auth_sso.Tokens.Rows.{RefreshToken, revoke_user_refresh_tokens}
use auth_sso.Oauth.Clients.{non_empty}

pub record Bcrypt : Type 0 where
  pub hash : String → String
  pub compare : String → String → Bool

-- The rows of the table of users, by what a change of password reads and writes.
pub record PasswordRow : Type 0 where
  pub id : String
  pub password_hash : Option String
  pub password_history : Option (List String)
  pub password_changed_at : Option ℕ

pub record PasswordChangeState : Type 0 where
  pub current_hash : Option String
  pub history : Option (List String)

abbrev password_history_max : ℕ
password_history_max = 5

abbrev pub listed_hashes : Option (List String) → List String
listed_hashes none = []
listed_hashes (some hashes) = hashes

unfoldable pub is_password_reused : Bcrypt → String → Option (List String) → Bool
is_password_reused bc new history = any (bc.compare new) (listed_hashes history)

unfoldable pub push_password_history : Option (List String) → String → List String
push_password_history history old = take password_history_max (old ∷ listed_hashes history)

unfoldable pub assert_password_not_reused : Bool → Checked
assert_password_not_reused reuses = throw_if reuses (rule_violation "新密码不能与最近使用过的密码相同")

abbrev pub next_history : Option String → Option (List String) → List String
next_history none history = listed_hashes history
next_history (some old) history = push_password_history history old

unfoldable pub next_password_history : PasswordChangeState → List String
next_password_history st = next_history (non_empty st.current_hash) st.history

-- The hashes that a new password must not match; an account may have none yet.
abbrev candidates : Option String → Option (List String) → List String
candidates none history = listed_hashes history
candidates (some current) history = current ∷ listed_hashes history

unfoldable pub assert_reset_allowed : Bcrypt → String → PasswordChangeState → Checked
assert_reset_allowed bc new st =
    assert_password_not_reused
      (is_password_reused bc new (some (candidates (non_empty st.current_hash) st.history)))

pub record AccountState : Type 0 where
  pub users : List PasswordRow
  pub tokens : List RefreshToken
  pub jtis : JtiStore
  pub cache : PermissionCache

pub data ChangePasswordResult : Type 0 where
  changed invalid_current_password user_not_found : ChangePasswordResult

abbrev pub state_of : PasswordRow → PasswordChangeState
state_of row = record { current_hash = row.password_hash; history = row.password_history }

-- UPDATE users SET ... WHERE id = user
unfoldable pub write_password :
    String → String → List String → ℕ → List PasswordRow → List PasswordRow
write_password user hash history now [] = []
write_password user hash history now (row ∷ rows) =
    (if row.id == user
      then record row {
        password_hash = some hash;
        password_history = some history;
        password_changed_at = some now;
      }
      else row)
    ∷ write_password user hash history now rows

module _ (bc : Bcrypt) (db : Users) (jitter : ℕ) (revokes : Bool) (user : String) (now : ℕ) where
  -- What follows the write: the sessions end, and the cache of permissions is refreshed. Where the
  -- revocation of the refresh tokens fails, that is only logged.
  abbrev pub end_sessions : List PasswordRow → AccountState → AccountState
  end_sessions rows s = record {
    users = rows;
    tokens = if revokes then revoke_user_refresh_tokens user now s.tokens else s.tokens;
    jtis = (revoke_user_access_by_user_id user now s.jtis).1;
    cache = (refresh_user_permission_cache db user jitter now s.cache).1;
  }

  abbrev pub written :
      String → PasswordRow → AccountState → Checked → Result ChangePasswordResult × AccountState
  written new row s (err e) = (err e, s)
  written new row s (ok _) = (
    ok changed,
    end_sessions
        (write_password user (bc.hash new) (next_password_history (state_of row)) now s.users) s,
  )

  -- `assertHasPassword`, the old password, and the reuse of the new one.
  abbrev pub with_hash :
      String
      → String
      → PasswordRow
      → AccountState
      → Option String
      → Result ChangePasswordResult × AccountState
  with_hash current new row s none = (err (rule_violation "账号未设置密码，无法自助改密"), s)
  with_hash current new row s (some hash) =
      if bc.compare current hash
      then written new row s (
          assert_password_not_reused
            (is_password_reused bc new (some (hash ∷ listed_hashes row.password_history))))
      else (ok invalid_current_password, s)

  abbrev pub with_row :
      String
      → String
      → AccountState
      → Option PasswordRow
      → Result ChangePasswordResult × AccountState
  with_row current new s none = (ok user_not_found, s)
  with_row current new s (some row) = with_hash current new row s (non_empty row.password_hash)

  unfoldable pub change_own_password :
      String → String → AccountState → Result ChangePasswordResult × AccountState
  change_own_password current new s = with_row current new s (find (λ row. row.id == user) s.users)
