-- ===== src/Tests/Accounts.antt =====
-- Passwords, and the convergence after a change of rights.
use auth_sso.Base.{
  ℕ, List, String, Bool, true, false, ◌≡◌, ◌≢◌, ◌≤◌, ◌+◌, refl, inl, inr, none, some, [], ◌∷◌, ◌==◌,
  ltb, any, find, take, length, lookup, arith, eq_iff,
}
use mathlib.Core.List.{Permᴰ}
use auth_sso.Errors.{ok, err, rule_violation}
use auth_sso.Session.Jti.{JtiStore, is_jti_revoked, track_user_jti}
use auth_sso.Session.Jti.Later.{JtiWrite, JtiWrites}
use auth_sso.Batch.{settle_in_batches, settle_from}
use auth_sso.Batch.Settled.{IsPass, settle_in_batches_once}
use auth_sso.Effects.{AuthorizationState, revoke_and_refresh_authorization}
use auth_sso.Effects.Converged.{OwnsJti, authorization_converges, outage_is_reported}
use auth_sso.Account.{
  Bcrypt, PasswordRow, AccountState, changed, invalid_current_password, change_own_password,
  listed_hashes, is_password_reused, assert_password_not_reused, assert_reset_allowed,
  write_password, next_password_history, push_password_history,
}
use auth_sso.Account.Changed.{RevokedIf, password_changed}
use auth_sso.Account.Remembered.{Changes, old_password_refused}
use auth_sso.Tests.Data.{empty_cache, empty_jtis, token}

-- An operation that adds, and fails at zero.
abbrev add : ℕ → ℕ → Bool × ℕ
add n s = (ltb 0 n, s + n)

-- Two operations that change places.
abbrev swapped : {A : Type 0} → List A → List A
swapped [] = []
swapped (x ∷ []) = x ∷ []
swapped (x ∷ y ∷ xs) = y ∷ x ∷ xs

swapped-Permᴰ : {A : Type 0} (xs : List A) → Permᴰ xs (swapped xs)
swapped-Permᴰ [] = Permᴰ.nil
swapped-Permᴰ (x ∷ []) = Permᴰ.cons refl Permᴰ.nil
swapped-Permᴰ (x ∷ y ∷ xs) = Permᴰ.swap refl refl

settle_in_batches_once_example :
    IsPass add
      (1 ∷ 0 ∷ 5 ∷ [])
      (record { succeeded = 0; failed = 0 })
      7
      (settle_in_batches add swapped (1 ∷ 0 ∷ 5 ∷ []) 7)
    × ((settle_in_batches add swapped (1 ∷ 0 ∷ 5 ∷ []) 7).0.succeeded
          + (settle_in_batches add swapped (1 ∷ 0 ∷ 5 ∷ []) 7).0.failed
        ≡ 3)
settle_in_batches_once_example = settle_in_batches_once add swapped swapped-Permᴰ (1 ∷ 0 ∷ 5 ∷ []) 7

three_settled :
    settle_in_batches add swapped (1 ∷ 0 ∷ 5 ∷ []) 7 ≡ (record { succeeded = 2; failed = 1 }, 13)
unfolding settle_in_batches settle_from
three_settled = refl

abbrev one_tracked : JtiStore
one_tracked = record {
  up = true;
  blocklist = [];
  users = ("alice", record { entries = ("j1", 3600) ∷ []; deadline = 9000000 }) ∷ [];
}

abbrev changed_rights : AuthorizationState
changed_rights = record { jtis = one_tracked; cache = empty_cache }

one_tracked-OwnsJti : OwnsJti "alice" "j1" 3600 5000 6000 (omega arith) (omega arith) one_tracked
unfolding lookup
one_tracked-OwnsJti = (λ other. ground arith, λ other ne. ground (arith, eq_iff "alice" other, ne))

-- Redis after the convergence, once the user has another access token.
abbrev jtis_later : JtiStore
jtis_later =
    track_user_jti "alice" "j9" 60 5500
      (revoke_and_refresh_authorization swapped swapped none (λ u. 0) ("bob" ∷ "alice" ∷ []) 5000
        changed_rights).1.jtis

authorization_converges_example :
    ((revoke_and_refresh_authorization swapped swapped none
        (λ u. 0)
        ("bob" ∷ "alice" ∷ [])
        5000
        changed_rights).0.at_revoke_succeeded
      ≡ 2)
    × ((revoke_and_refresh_authorization swapped swapped none
          (λ u. 0)
          ("bob" ∷ "alice" ∷ [])
          5000
          changed_rights).0.at_revoke_failed
        ≡ 0)
    × (is_jti_revoked "j1" 6000 jtis_later ≡ true)
unfolding lookup
authorization_converges_example =
    authorization_converges "alice" "j1" 3600 5000 6000 (omega arith) (omega arith) swapped
      swapped-Permᴰ swapped none (λ u. 0) ("bob" ∷ "alice" ∷ []) changed_rights jtis_later refl
      one_tracked-OwnsJti refl (inr (inl refl))
      (JtiWrites.more JtiWrites.done (JtiWrite.tracks "alice" "j9" 60 5500 _))

abbrev no_redis : AuthorizationState
no_redis = record { jtis = record one_tracked { up = false }; cache = empty_cache }

outage_is_reported_example :
    ((revoke_and_refresh_authorization swapped swapped none
        (λ u. 0)
        ("bob" ∷ "alice" ∷ [])
        5000
        no_redis).0.at_revoke_succeeded
      ≡ 0)
    × ((revoke_and_refresh_authorization swapped swapped none
          (λ u. 0)
          ("bob" ∷ "alice" ∷ [])
          5000
          no_redis).0.at_revoke_failed
        ≡ 2)
    × ((revoke_and_refresh_authorization swapped swapped none
          (λ u. 0)
          ("bob" ∷ "alice" ∷ [])
          5000
          no_redis).1.jtis
        ≡ no_redis.jtis)
outage_is_reported_example =
    outage_is_reported swapped swapped swapped-Permᴰ none (λ u. 0) ("bob" ∷ "alice" ∷ []) 5000
      no_redis refl

-- A hash is the password itself.
abbrev plain : Bcrypt
plain = record { hash = λ p. p; compare = λ p h. p == h }

abbrev account : AccountState
account = record {
  users =
      record {
        id = "alice";
        password_hash = some "p1";
        password_history = some ("p0" ∷ []);
        password_changed_at = none;
      }
      ∷ [];
  tokens = token ∷ [];
  jtis = empty_jtis;
  cache = empty_cache;
}

password_changed_example :
    ((row : PasswordRow) × (hash : String) × (row.password_hash ≡ some hash)
      × (plain.compare "p1" hash ≡ true)
      × (any (plain.compare "p2") (hash ∷ listed_hashes row.password_history) ≡ false)
      × (find
            (λ r. r.id == "alice")
            (change_own_password plain none 0 true "alice" 5000 "p1" "p2" account).1.users
          ≡ some (record row {
            password_hash = some "p2";
            password_history = some (take 5 (hash ∷ listed_hashes row.password_history));
            password_changed_at = some 5000;
          }))
      × (length (take 5 (hash ∷ listed_hashes row.password_history)) ≤ 5))
    × RevokedIf true "alice" account.tokens
        (change_own_password plain none 0 true "alice" 5000 "p1" "p2" account).1.tokens
unfolding change_own_password is_password_reused assert_password_not_reused
password_changed_example = password_changed plain none 0 true "alice" 5000 "p1" "p2" account refl

-- The account after a change, and after another one.
abbrev changed_once : AccountState
changed_once = (change_own_password plain none 0 true "alice" 5000 "p1" "p2" account).1

abbrev changed_twice : AccountState
changed_twice = (change_own_password plain none 0 false "alice" 5500 "p2" "p3" changed_once).1

old_password_refused_example :
    (change_own_password plain none 0 true "alice" 6000 "p3" "p1" changed_twice).0 ≢ ok changed
unfolding change_own_password is_password_reused assert_password_not_reused write_password
    next_password_history push_password_history
old_password_refused_example =
    old_password_refused plain none none 0 0 true true "alice" 5000 6000 "p1" "p2" "p3" account
      changed_twice 1 refl (Changes.another none 0 false 5500 "p2" "p3" Changes.done refl)
      (omega arith)

wrong_password_changes_nothing :
    change_own_password plain none 0 true "alice" 5000 "p9" "p2" account
    ≡ (ok invalid_current_password, account)
unfolding change_own_password
wrong_password_changes_nothing = refl

-- An administrator may not set the current password again, and may set a first one.
reset_to_current :
    assert_reset_allowed plain "p1" (record { current_hash = some "p1"; history = none })
    ≡ err (rule_violation "新密码不能与最近使用过的密码相同")
unfolding assert_reset_allowed is_password_reused assert_password_not_reused
reset_to_current = refl

first_password :
    assert_reset_allowed plain "p1" (record { current_hash = none; history = none }) ≡ ok tt
unfolding assert_reset_allowed is_password_reused assert_password_not_reused
first_password = refl
