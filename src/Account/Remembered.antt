-- ===== src/Account/Remembered.antt =====
-- A password that was changed is remembered through the changes that follow.
use auth_sso.Base.{
  ℕ, zero, suc, ◌≤◌, String, Bool, true, false, ◌≡◌, ◌≢◌, refl, sym, ap, ◌∙◌, subst, some, List, [],
  ◌∷◌, ◌==◌, any, find, take, arith, some_inj, false≢true,
}
use auth_sso.Errors.{Result, ok}
use auth_sso.Permissions.{Users}
use auth_sso.Account.{
  Bcrypt, PasswordRow, ChangePasswordResult, changed, AccountState, listed_hashes,
  push_password_history, change_own_password,
}
use auth_sso.Account.Changed.{changed-IsChange, find-write_password, non_empty-some}

any-take :
    (p : String → Bool) (n : ℕ) (xs : List String) → any p (take n xs) ≡ true → any p xs ≡ true
any-take p zero xs h = cc
any-take p (suc n) [] h = cc
any-take p (suc n) (x ∷ xs) h = ground (arith, any-take p n xs, h)

take-take : (m n : ℕ) (xs : List String) → m ≤ n → take m (take n xs) ≡ take m xs
take-take zero n xs le = refl
take-take (suc m) zero xs le = absurd (omega arith)
take-take (suc m) (suc n) [] le = refl
take-take (suc m) (suc n) (x ∷ xs) le = ap (λ ys. x ∷ ys) (take-take m n xs (omega arith))

any-second :
    (p : String → Bool) (a b : String) (rest : List String)
    → p b ≡ true
    → any p (a ∷ b ∷ rest) ≡ true
any-second p a b rest h = ground (arith, h)

any-later :
    (p : String → Bool) (a : String) (rest : List String)
    → any p rest ≡ true
    → any p (a ∷ rest) ≡ true
any-later p a rest h = ground (arith, h)

-- What happens to an account later on: a number of changes by its user that succeed, and between them
-- anything that leaves his row, such as the changes of others and the refused ones.
pub data Changes (bc : Bcrypt) (user : String) (s : AccountState) : ℕ → AccountState → Type 0 where
  done : Changes bc user s 0 s
  another :
      {n : ℕ} {t : AccountState} (db : Users) (jitter : ℕ) (revokes : Bool) (now : ℕ)
      (current new : String)
      → Changes bc user s n t
      → (change_own_password bc db jitter revokes user now current new t).0 ≡ ok changed
      → Changes bc user s
          (suc n)
          (change_own_password bc db jitter revokes user now current new t).1
  others :
      {n : ℕ} {t : AccountState} (u : AccountState)
      → Changes bc user s n t
      → find (λ r. r.id == user) u.users ≡ find (λ r. r.id == user) t.users
      → Changes bc user s n u

module _ (bc : Bcrypt) (user old : String) where
  -- Among the first hashes, the current one and then the history, one is of the old password.
  Remembers : ℕ → AccountState → Type 0
  Remembers k t =
      (row : PasswordRow) × (hash : String) × (find (λ r. r.id == user) t.users ≡ some row)
      × (row.password_hash ≡ some hash)
      × (any (bc.compare old) (take k (hash ∷ listed_hashes row.password_history)) ≡ true)

  module _ (db : Users) (jitter : ℕ) (revokes : Bool) (now : ℕ) (current new : String)
      (t : AccountState) where
    -- The row and its hash before a change that succeeds, and the row after it.
    after-change :
        (change_own_password bc db jitter revokes user now current new t).0 ≡ ok changed
        → (row : PasswordRow) × (hash : String) × (find (λ r. r.id == user) t.users ≡ some row)
          × (row.password_hash ≡ some hash)
          × (bc.compare current hash ≡ true)
          × (any (bc.compare new) (hash ∷ listed_hashes row.password_history) ≡ false)
          × (find
                (λ r. r.id == user)
                (change_own_password bc db jitter revokes user now current new t).1.users
              ≡ some (record row {
                password_hash = some (bc.hash new);
                password_history = some (take 5 (hash ∷ listed_hashes row.password_history));
                password_changed_at = some now;
              }))
    unfolding push_password_history
    after-change h =
        let (row, hash, (found, has, right, fresh, same)) =
          changed-IsChange bc db jitter revokes user now current new t h in
        (
          row,
          hash,
          found,
          non_empty-some row.password_hash hash has,
          right,
          fresh,
          ap
                (λ (r : Result ChangePasswordResult × AccountState).
                  find (λ x. x.id == user) r.1.users)
                same
              ∙ find-write_password user (bc.hash new)
                  (take 5 (hash ∷ listed_hashes row.password_history)) now t.users row found,
        )

    same_hash :
        (row row' : PasswordRow) (hash hash' : String)
        → find (λ r. r.id == user) t.users ≡ some row
        → find (λ r. r.id == user) t.users ≡ some row'
        → row.password_hash ≡ some hash
        → row'.password_hash ≡ some hash'
        → (row ≡ row') × (hash ≡ hash')
    same_hash row row' hash hash' f f' e e' =
        let rows = some_inj (sym f ∙ f') in
        (rows, some_inj (sym e ∙ ap (λ (r : PasswordRow). r.password_hash) rows ∙ e'))

    Remembers-another :
        (k : ℕ)
        → k ≤ 5
        → Remembers k t
        → (change_own_password bc db jitter revokes user now current new t).0 ≡ ok changed
        → Remembers (suc k) (change_own_password bc db jitter revokes user now current new t).1
    unfolding Remembers
    Remembers-another k le (row, hash, found, has, kept) h =
        let (row', hash', found', has', right, fresh, after) = after-change h in
        let (rows, hashes) = same_hash row row' hash hash' found found' has has' in
        let moved : any (bc.compare old)
              (take k (take 5 (hash' ∷ listed_hashes row'.password_history)))
            ≡ true =
          ap (any (bc.compare old)) (take-take k 5 (hash' ∷ listed_hashes row'.password_history) le)
          ∙ subst
              (λ r. any (bc.compare old) (take k (hash' ∷ listed_hashes r.password_history)) ≡ true)
              rows
              (subst
                (λ x. any (bc.compare old) (take k (x ∷ listed_hashes row.password_history)) ≡ true)
                hashes kept) in
        (
          record row' {
            password_hash = some (bc.hash new);
            password_history = some (take 5 (hash' ∷ listed_hashes row'.password_history));
            password_changed_at = some now;
          },
          bc.hash new,
          after,
          refl,
          any-later (bc.compare old) (bc.hash new) _ moved,
        )

    Remembers-refuses :
        (k : ℕ)
        → new ≡ old
        → Remembers k t
        → (change_own_password bc db jitter revokes user now current new t).0 ≢ ok changed
    unfolding Remembers
    Remembers-refuses k same (row, hash, found, has, kept) h =
        let (row', hash', found', has', right, fresh, after) = after-change h in
        let (rows, hashes) = same_hash row row' hash hash' found found' has has' in
        false≢true (
          sym fresh
          ∙ subst (λ o. any (bc.compare o) (hash' ∷ listed_hashes row'.password_history) ≡ true)
              (sym same)
              (subst (λ r. any (bc.compare old) (hash' ∷ listed_hashes r.password_history) ≡ true)
                rows
                (subst (λ x. any (bc.compare old) (x ∷ listed_hashes row.password_history) ≡ true)
                  hashes
                  (any-take (bc.compare old) k (hash ∷ listed_hashes row.password_history) kept))))

  Remembers-others :
      (k : ℕ) (t u : AccountState)
      → find (λ r. r.id == user) u.users ≡ find (λ r. r.id == user) t.users
      → Remembers k t
      → Remembers k u
  unfolding Remembers
  Remembers-others k t u e (row, hash, found, has, kept) = (row, hash, e ∙ found, has, kept)

  Changes-Remembers :
      {s t : AccountState} {n : ℕ}
      → Changes bc user s n t
      → n ≤ 4
      → Remembers 2 s
      → Remembers (suc (suc n)) t
  Changes-Remembers done le r = r
  Changes-Remembers (another {n} {t} db jitter revokes now current new c h) le r =
      Remembers-another db jitter revokes now current new t (suc (suc n)) (omega arith)
        (Changes-Remembers c (omega arith) r) h
  Changes-Remembers (others {n} {t} u c e) le r =
      Remembers-others (suc (suc n)) t u e (Changes-Remembers c le r)

-- Once a user has changed a password, a change back to it does not succeed while at most four further
-- changes of his have succeeded since, whatever he gives as his current password and whatever else has
-- happened meanwhile that leaves his row. (The history keeps five hashes.)
pub old_password_refused :
    (bc : Bcrypt) (db later_db : Users) (jitter later_jitter : ℕ) (revokes later_revokes : Bool)
    (user : String) (now later : ℕ) (old new guess : String) (s t : AccountState) (n : ℕ)
    → (change_own_password bc db jitter revokes user now old new s).0 ≡ ok changed
    → Changes bc user (change_own_password bc db jitter revokes user now old new s).1 n t
    → n ≤ 4
    → (change_own_password bc later_db later_jitter later_revokes user later guess old t).0
      ≢ ok changed
unfolding Remembers
old_password_refused bc db later_db jitter later_jitter revokes later_revokes user now later old new
      guess s t n h changes le =
    let (row, hash, found, has, right, fresh, after) =
      after-change bc user old db jitter revokes now old new s h in
    Remembers-refuses bc user old later_db later_jitter later_revokes later guess old t
      (suc (suc n)) refl
      (Changes-Remembers bc user old changes le (
        record row {
          password_hash = some (bc.hash new);
          password_history = some (take 5 (hash ∷ listed_hashes row.password_history));
          password_changed_at = some now;
        },
        bc.hash new,
        after,
        refl,
        any-second (bc.compare old) (bc.hash new) hash [] right,
      ))
