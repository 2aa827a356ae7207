-- ===== src/Domain/User/Lifecycle.antt =====
-- The status of an account as a state machine over all operations.
use auth_sso.Base.{ℕ, ◌≡◌, ◌≢◌, ◌⊎◌, none, List, [], ◌∷◌, arith}
use auth_sso.Contracts.{UserStatus}
use auth_sso.Errors.{Result, ok, err}
use auth_sso.Domain.User.{
  User, UserPatch, toggle_user_status, unlock_user, delete_user, apply_user_update,
}

pub data Operation : Type 0 where
  toggle unlock : Operation
  delete : ℕ → Operation
  update : UserPatch → ℕ → Operation

unfoldable pub run : Operation → User → Result User
unfolding toggle_user_status unlock_user delete_user apply_user_update
run toggle user = toggle_user_status user
run unlock user = unlock_user user
run (delete now) user = delete_user now user
run (update patch now) user = apply_user_update patch now user

-- The marks of a deleted account agree: it has a time of deletion exactly if its status says so.
pub record IsConsistent (user : User) : Type 0 where
  pub deleted_then : user.status ≡ UserStatus.deleted → user.deleted_at ≢ none
  pub deleted_only : user.status ≢ UserStatus.deleted → user.deleted_at ≡ none

-- The operations keep who the account is.
pub record SameAccount (user user' : User) : Type 0 where
  pub same_id : user'.id ≡ user.id
  pub same_username : user'.username ≡ user.username
  pub same_creation : user'.created_at ≡ user.created_at
  pub same_password : user'.password_changed_at ≡ user.password_changed_at

-- A locked account leaves its status only by `unlockUser`, to active, or by being deleted.
locked_exit :
    (op : Operation) (user user' : User)
    → user.status ≡ UserStatus.locked
    → run op user ≡ ok user'
    → (user'.status ≡ UserStatus.locked)
      ⊎ ((op ≡ unlock) × (user'.status ≡ UserStatus.active))
      ⊎ (user'.status ≡ UserStatus.deleted)
unfolding run
locked_exit toggle user user' l h = ground arith
locked_exit unlock user user' l h = ground arith
locked_exit (delete now) user user' l h = ground arith
locked_exit (update patch now) user user' l h = ground arith

-- An operation that is refused leaves the account as it is.
abbrev pub kept : User → Result User → User
kept user (ok user') = user'
kept user (err e) = user

unfoldable pub run_all : List Operation → User → User
run_all [] user = user
run_all (op ∷ ops) user = run_all ops (kept user (run op user))

-- What every account that the operations reach from another satisfies.
abbrev Follows : User → User → Type 0
Follows user user' = IsConsistent user' × SameAccount user user'
