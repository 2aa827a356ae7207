-- ===== src/Login/Lockout.antt =====
-- What repeated wrong passwords do to the logins that follow.
use auth_sso.Base.{
  ℕ, ◌+◌, ◌≤◌, ◌<◌, String, true, false, ◌≡◌, sym, ap, ◌∙◌, subst, some, List, [], ◌∷◌, ◌*◌,
  if_true, if_false, or_else, leb, length, arith,
}
use auth_sso.Errors.{ok}
use auth_sso.Domain.Auth.Authorize.{validate_login_credentials}
use auth_sso.BruteForce.{
  BruteForceConfig, AttemptStore, BruteCheck, minutes, normalize_ip, brute_force_account_key,
  get_count, check_ip_rate_limit, check_brute_force, increment_brute_force,
}
use auth_sso.BruteForce.Locks.{
  Both, Both-increment, Both-start, Both-check, Both-check_ip, Both-of_counters,
}
use auth_sso.Login.{
  LoginUser, LoginInput, LoginServices, LoginAnswer, locked, address, wrong_password, by_rules,
  by_gate, by_user, by_address, limited, attempt_login, login,
}
use auth_sso.Login.Checks.{
  open_check, judge-open, judge-locked, log-fields, increment-db_up, increment-accounts,
  fresh-check_ip, fresh-check,
}

-- The request with another password.
abbrev pub guess : LoginInput → String → LoginInput
guess input password = record input { password = password }

-- The state after logins with these passwords at these times.
unfoldable pub after_guesses :
    LoginServices → BruteForceConfig → LoginInput → List (String × ℕ) → AttemptStore → AttemptStore
after_guesses sv config input [] s = s
after_guesses sv config input ((password, t) ∷ rest) s =
    after_guesses sv config input rest (login sv config (some (guess input password)) t s).1

-- Every guess is wrong, and is made before the ends.
abbrev pub AllWrong : LoginServices → String → ℕ → ℕ → List (String × ℕ) → Type 0
AllWrong sv hash end ip_end [] = Unit
AllWrong sv hash end ip_end ((password, t) ∷ rest) =
    (sv.bcrypt_compare password hash ≡ false)
    × (t < end)
    × (t < ip_end)
    × AllWrong sv hash end ip_end rest

abbrev locked_check : BruteForceConfig → BruteCheck
locked_check config = record {
  locked = true;
  rate_limited = false;
  retry_after_seconds = some (config.window_minutes * 60);
}

module _ (sv : LoginServices) (config : BruteForceConfig) (input : LoginInput) (user : LoginUser)
    (hash : String) (row : sv.users input.email ≡ some user)
    (may : validate_login_credentials user.status user.password_hash ≡ ok tt)
    (has : user.password_hash ≡ some hash) where
  -- A wrong password where neither gate is shut.
  login-wrong :
      (password : String) (now : ℕ) (s : AttemptStore)
      → s.db_up ≡ true
      → check_ip_rate_limit (address input) now config s ≡ some false
      → check_brute_force user.id (address input) now config s ≡ some open_check
      → sv.bcrypt_compare password hash ≡ false
      → login sv config (some (guess input password)) now s
        ≡ wrong_password sv config (guess input password) now user s
  unfolding login attempt_login open_check
  login-wrong password now s db ip gate wrong =
      let i = guess input password in
      ap (by_address sv config i now s) ip
      ∙ if_true s.db_up _ db
      ∙ ap (by_user sv config i now s) row
      ∙ ap (by_gate sv config i now user s) gate
      ∙ ap (by_rules sv config i now user s) may
      ∙ if_false _ _ (ap (λ o. sv.bcrypt_compare password (or_else o "")) has ∙ wrong)

  -- Any password where the account is locked.
  login-locked :
      (password : String) (now : ℕ) (s : AttemptStore)
      → s.db_up ≡ true
      → check_ip_rate_limit (address input) now config s ≡ some false
      → check_brute_force user.id (address input) now config s ≡ some (locked_check config)
      → login sv config (some (guess input password)) now s
        ≡ limited sv config
            (guess input password)
            now
            (locked (some (config.window_minutes * 60)))
            s
  unfolding login attempt_login
  login-locked password now s db ip gate =
      let i = guess input password in
      ap (by_address sv config i now s) ip
      ∙ if_true s.db_up _ db
      ∙ ap (by_user sv config i now s) row
      ∙ ap (by_gate sv config i now user s) gate

  below_limit : (m : ℕ) → m < config.ip_max_attempts → leb config.ip_max_attempts m ≡ false
  below_limit m lt = ground arith

  -- So many failures are counted, until these ends.
  abbrev CountsTo : ℕ → ℕ → ℕ → AttemptStore → Type 0
  CountsTo n end ip_end s = Both user.id (address input) n end ip_end s × (s.db_up ≡ true)

  logged-CountsTo :
      (n end ip_end t : ℕ) (password : String) (s : AttemptStore)
      → Both user.id
          (address input)
          n
          end
          ip_end
          (increment_brute_force (some user.id) (address input) t config s)
      → s.db_up ≡ true
      → CountsTo n end ip_end (wrong_password sv config (guess input password) t user s).1
  logged-CountsTo n end ip_end t password s both db =
      let failed = increment_brute_force (some user.id) (address input) t config s in
      let (up, db', acc, ips) = log-fields sv (some user.id) true (address input) t failed in
      (
        Both-of_counters user.id (address input) n end ip_end failed _ up acc ips both,
        db' ∙ increment-db_up (some user.id) (address input) config t s ∙ db,
      )

  guesses-CountsTo :
      (n end ip_end : ℕ) (guesses : List (String × ℕ)) (s : AttemptStore)
      → CountsTo (1 + n) end ip_end s
      → 1 + (n + length guesses) ≤ config.max_attempts
      → 1 + (n + length guesses) < config.ip_max_attempts
      → AllWrong sv hash end ip_end guesses
      → CountsTo (1 + (n + length guesses)) end ip_end (after_guesses sv config input guesses s)
  unfolding after_guesses
  guesses-CountsTo n end ip_end [] s c le lt w =
      subst (λ m. CountsTo (1 + m) end ip_end s) (omega arith) c
  guesses-CountsTo n end ip_end ((password, t) ∷ rest) s (both, db) le lt (wrong, lte, lti, w) =
      let step =
        login-wrong password t s db
          (Both-check_ip user.id (address input) config (1 + n) end ip_end t s both lti
            ∙ ap some (below_limit (1 + n) (omega arith)))
          (Both-check user.id (address input) config (1 + n) end ip_end t s both lte lti
            ∙ ap some (judge-open config (1 + n) (omega arith) (omega arith)))
          wrong in
      let counted_one =
        subst (λ (r : LoginAnswer × AttemptStore). CountsTo (1 + (1 + n)) end ip_end r.1) (sym step)
          (logged-CountsTo (1 + (1 + n)) end ip_end t password s
            (Both-increment user.id (address input) config n end ip_end t s both lte lti) db) in
      subst
        (λ m. CountsTo (1 + m) end ip_end (after_guesses sv config input ((password, t) ∷ rest) s))
        (omega arith)
        (guesses-CountsTo (1 + n) end ip_end rest _ counted_one (omega arith) (omega arith) w)

  pub guesses-Both :
      (first : String) (t : ℕ) (rest : List (String × ℕ)) (s : AttemptStore)
      → s.redis_up ≡ true
      → s.db_up ≡ true
      → get_count (brute_force_account_key user.id (address input)) t s.accounts ≡ 0
      → get_count (normalize_ip (address input)) t s.ips ≡ 0
      → 1 + length rest ≤ config.max_attempts
      → 1 + length rest < config.ip_max_attempts
      → AllWrong sv hash
          (t + minutes config.window_minutes)
          (t + minutes config.ip_window_minutes)
          ((first, t) ∷ rest)
      → Both user.id
          (address input)
          (1 + length rest)
          (t + minutes config.window_minutes)
          (t + minutes config.ip_window_minutes)
          (after_guesses sv config input ((first, t) ∷ rest) s)
        × ((after_guesses sv config input ((first, t) ∷ rest) s).db_up ≡ true)
  unfolding after_guesses
  guesses-Both first t rest s up db a i le lt (wrong, lte, lti, w) =
      let step =
        login-wrong first t s db (fresh-check_ip (address input) config t s up i (omega arith))
          (fresh-check user.id (address input) config t s up a i (omega arith) (omega arith))
          wrong in
      let one =
        subst
          (λ (r : LoginAnswer × AttemptStore).
            CountsTo 1 (t + minutes config.window_minutes) (t + minutes config.ip_window_minutes)
              r.1)
          (sym step)
          (logged-CountsTo 1 _ _ t first s (Both-start user.id (address input) config t s up a i)
            db) in
      subst
        (λ m.
          CountsTo (1 + m) (t + minutes config.window_minutes)
            (t + minutes config.ip_window_minutes)
            (after_guesses sv config input ((first, t) ∷ rest) s))
        (omega arith)
        (guesses-CountsTo 0 (t + minutes config.window_minutes)
          (t + minutes config.ip_window_minutes) rest _ one (omega arith) (omega arith) w)

  -- Where both gates are open to the account, a fresh pair of counters, and as many wrong passwords
  -- as the threshold of the account, fewer than that of the address: then within the windows that
  -- the first of them opened, the next login is answered as locked with the account's window as
  -- the time to wait, whatever its password is, the right one included, and the counter of the account
  -- stays as it is.
  pub wrong_passwords_lock :
      (first password : String) (t now : ℕ) (rest : List (String × ℕ)) (s : AttemptStore)
      → s.redis_up ≡ true
      → s.db_up ≡ true
      → get_count (brute_force_account_key user.id (address input)) t s.accounts ≡ 0
      → get_count (normalize_ip (address input)) t s.ips ≡ 0
      → 1 + length rest ≡ config.max_attempts
      → config.max_attempts < config.ip_max_attempts
      → AllWrong sv hash
          (t + minutes config.window_minutes)
          (t + minutes config.ip_window_minutes)
          ((first, t) ∷ rest)
      → now < t + minutes config.window_minutes
      → now < t + minutes config.ip_window_minutes
      → ((login sv config
            (some (guess input password))
            now
            (after_guesses sv config input ((first, t) ∷ rest) s)).0
          ≡ locked (some (config.window_minutes * 60)))
        × ((login sv config
              (some (guess input password))
              now
              (after_guesses sv config input ((first, t) ∷ rest) s)).1.accounts
            ≡ (after_guesses sv config input ((first, t) ∷ rest) s).accounts)
  wrong_passwords_lock first password t now rest s up db a i enough lt w nlt nlti =
      let (both, db') = guesses-Both first t rest s up db a i (omega arith) (omega arith) w in
      let shut =
        login-locked password now (after_guesses sv config input ((first, t) ∷ rest) s) db'
          (Both-check_ip user.id (address input) config _ _ _ now _ both nlti
            ∙ ap some (below_limit (1 + length rest) (omega arith)))
          (Both-check user.id (address input) config _ _ _ now _ both nlt nlti
            ∙ ap some (judge-locked config (1 + length rest) (omega arith) (omega arith))) in
      (
        ap (λ (r : LoginAnswer × AttemptStore). r.0) shut,
        ap (λ (r : LoginAnswer × AttemptStore). r.1.accounts) shut
            ∙ increment-accounts (address input) config now
                (after_guesses sv config input ((first, t) ∷ rest) s),
      )
