-- ===== src/Tests/Logins.antt =====
-- Logins with an address and a password.
use auth_sso.Base.{true, ◌≡◌, refl, ◌==◌, none, some, [], ◌∷◌, lookup, arith}
use auth_sso.Contracts.{UserStatus}
use auth_sso.Domain.Auth.Authorize.{validate_login_credentials}
use auth_sso.BruteForce.{
  AttemptStore, BruteForceConfig, default_config, check_ip_rate_limit, check_brute_force, get_count,
  judge_counts, normalize_ip, brute_force_account_key, account_prefix,
}
use auth_sso.Login.{
  LoginUser, LoginInput, LoginServices, session, locked, invalid_request, login, attempt_login,
  resolve_bound_session_id, bound_session,
}
use auth_sso.Login.Session.{IsAdmitted, ShowsPassword, IsBoundBy, session_needs_credentials}
use auth_sso.Login.Lockout.{guess, after_guesses, wrong_passwords_lock}
use auth_sso.Login.Reopened.{lock_ends}

abbrev quiet : AttemptStore
quiet = record {
  redis_up = true;
  db_up = true;
  accounts = [];
  ips = [];
  login_logs = [];
  last_logins = [];
}

abbrev bob : LoginUser
bob = record { id = "bob"; status = UserStatus.active; password_hash = some "hash" }

abbrev portal : LoginServices
portal = record {
  users = λ email. some bob;
  bcrypt_compare = λ password hash. password == "right";
  bindings = λ id. some "b1";
  sign = λ user bound. some "token";
  is_inet = λ text. true;
}

abbrev right_input : LoginInput
right_input = record {
  email = "bob@example.org";
  password = "right";
  session_id = some "s1";
  ip = some "10.0.0.1";
  binding_cookie = some "b1";
}

session_needs_credentials_example :
    (user : LoginUser) × (portal.users right_input.email ≡ some user)
    × IsAdmitted portal default_config right_input 5000 "token" (some "s1") quiet user
    × ShowsPassword portal default_config right_input 5000 "token" (some "s1") user
    × IsBoundBy portal.bindings right_input.binding_cookie right_input.session_id (some "s1")
unfolding login attempt_login check_ip_rate_limit check_brute_force get_count judge_counts lookup
    normalize_ip brute_force_account_key account_prefix validate_login_credentials
    resolve_bound_session_id
session_needs_credentials_example =
    session_needs_credentials portal default_config right_input 5000 "token" (some "s1") quiet refl

-- Two wrong passwords are enough here, within a minute.
abbrev strict : BruteForceConfig
strict = record {
  max_attempts = 2;
  window_minutes = 1;
  ip_max_attempts = 20;
  ip_window_minutes = 1;
}

wrong_passwords_lock_example :
    ((login portal strict
        (some (guess right_input "right"))
        3000
        (after_guesses portal strict right_input (("a", 1000) ∷ ("b", 2000) ∷ []) quiet)).0
      ≡ locked (some 60))
    × ((login portal strict (some (guess right_input "right")) 3000 (
          after_guesses portal strict right_input
            (("a", 1000) ∷ ("b", 2000) ∷ [])
            quiet)).1.accounts
        ≡ (after_guesses portal strict right_input (("a", 1000) ∷ ("b", 2000) ∷ []) quiet).accounts)
unfolding validate_login_credentials get_count lookup
wrong_passwords_lock_example =
    wrong_passwords_lock portal strict right_input bob "hash" refl refl refl "a" "right" 1000 3000
      (("b", 2000) ∷ []) quiet refl refl refl refl refl (omega arith)
      (refl, omega arith, omega arith, (refl, omega arith, omega arith, tt)) (omega arith)
      (omega arith)

lock_ends_example :
    (login portal strict
      (some right_input)
      61000
      (after_guesses portal strict right_input (("a", 1000) ∷ ("b", 2000) ∷ []) quiet)).0
    ≡ session "token" (bound_session portal strict right_input 61000)
unfolding validate_login_credentials get_count lookup
lock_ends_example =
    lock_ends portal strict right_input bob "hash" "a" "token" 1000 61000 (("b", 2000) ∷ []) quiet
      refl refl refl refl refl refl refl refl (omega arith)
      (refl, omega arith, omega arith, (refl, omega arith, omega arith, tt)) (omega arith)
      (omega arith) refl refl

-- A cookie of another browser binds the session to nothing.
other_browser : resolve_bound_session_id portal.bindings (some "b2") (some "s1") ≡ none
unfolding resolve_bound_session_id
other_browser = refl

unreadable_body : (login portal strict none 0 quiet).0 ≡ invalid_request
unfolding login
unreadable_body = refl
