-- ===== src/Login.antt =====
-- POST of apps/portal/src/app/api/auth/login/route.ts over the counters of brute-force.ts, with
-- writeLoginLog of lib/audit.ts. What the request holds is a record; the row of the user, bcrypt,
-- the binding that Redis holds for an authorization request, the signing of the login session, and
-- what PostgreSQL takes for an address, are parameters. A log is written at once, or not at all.
pub mod Checks
pub mod Session
pub mod Lockout
pub mod Reopened
use auth_sso.Base.{
  ℕ, String, Bool, true, false, Option, none, some, List, [], ◌∷◌, ◌++◌, ◌==◌, if◌then◌else◌,
  or_else, truthy_text, insert,
}
use auth_sso.Contracts.{UserStatus}
use auth_sso.Errors.{DomainError, Checked, ok, err, credentials_error}
use auth_sso.Domain.Auth.Authorize.{validate_login_credentials}
use auth_sso.BruteForce.{
  BruteForceConfig, AttemptStore, LoginLog, BruteCheck, check_ip_rate_limit, check_brute_force,
  increment_brute_force, clear_brute_force_counter,
}

pub record LoginUser : Type 0 where
  pub id : String
  pub status : UserStatus
  pub password_hash : Option String

pub record LoginInput : Type 0 where
  pub email : String
  pub password : String
  pub session_id : Option String
  pub ip : Option String
  pub binding_cookie : Option String

pub record LoginServices : Type 0 where
  pub users : String → Option LoginUser
  pub bcrypt_compare : String → String → Bool
  pub bindings : String → Option String
  pub sign : String → Option String → Option String
  pub is_inet : String → Bool

-- The answers: 400, 429 of the first gate, 429 and 423 of the second with their times to wait, an
-- error that is thrown, 500, and the token of a session with the authorization request it is bound to.
pub data LoginAnswer : Type 0 where
  invalid_request : LoginAnswer
  ip_limited : LoginAnswer
  rate_limited : Option ℕ → LoginAnswer
  locked : Option ℕ → LoginAnswer
  failed : DomainError → LoginAnswer
  unavailable : LoginAnswer
  session : String → Option String → LoginAnswer

abbrev pub address : LoginInput → String
address input = or_else input.ip "unknown"

-- INSERT INTO login_logs: it fails where the text is no address for the type inet.
unfoldable pub write_login_log :
    LoginServices → Option String → Bool → String → ℕ → AttemptStore → AttemptStore
write_login_log sv user is_failure ip now s =
    if s.db_up
    then if sv.is_inet ip
      then record s {
        login_logs =
            s.login_logs
            ++ record { user_id = user; ip = some ip; is_failure = is_failure; created_at = now }
              ∷ [];
      }
      else s
    else s

-- A session id that is kept: the cookie is the binding that is stored for it.
abbrev pub same_binding : Option String → Option String → Bool
same_binding (some cookie) (some stored) = if truthy_text cookie then stored == cookie else false
same_binding _ _ = false

unfoldable pub resolve_bound_session_id :
    (String → Option String) → Option String → Option String → Option String
resolve_bound_session_id bindings cookie none = none
resolve_bound_session_id bindings cookie (some id) =
    if truthy_text id then if same_binding cookie (bindings id) then some id else none else none

module _ (sv : LoginServices) (config : BruteForceConfig) (input : LoginInput) (now : ℕ) where
  abbrev pub answer_session : LoginUser → Option String → Option String → LoginAnswer
  answer_session user bound none = unavailable
  answer_session user bound (some token) = session token bound

  -- UPDATE users SET last_login_at: its failure is only logged.
  abbrev logged_in : LoginUser → AttemptStore → AttemptStore
  logged_in user s =
      if s.db_up then record s { last_logins = insert user.id now s.last_logins } else s

  abbrev pub bound_session : Option String
  bound_session = resolve_bound_session_id sv.bindings input.binding_cookie input.session_id

  abbrev succeed : LoginUser → AttemptStore → LoginAnswer × AttemptStore
  succeed user s = (
    answer_session user bound_session (sv.sign user.id bound_session),
    write_login_log sv (some user.id) false (address input) now
        (logged_in user (clear_brute_force_counter user.id (address input) s)),
  )

  abbrev hash_of : LoginUser → String
  hash_of user = or_else user.password_hash ""

  abbrev pub wrong_password : LoginUser → AttemptStore → LoginAnswer × AttemptStore
  wrong_password user s = (
    failed credentials_error,
    write_login_log sv (some user.id) true (address input) now
        (increment_brute_force (some user.id) (address input) now config s),
  )

  abbrev pub by_rules : LoginUser → AttemptStore → Checked → LoginAnswer × AttemptStore
  by_rules user s (err e) = (failed e, write_login_log sv (some user.id) true (address input) now s)
  by_rules user s (ok _) =
      if sv.bcrypt_compare input.password (hash_of user)
      then succeed user s
      else wrong_password user s

  abbrev pub limited : LoginAnswer → AttemptStore → LoginAnswer × AttemptStore
  limited answer s = (answer, increment_brute_force none (address input) now config s)

  -- checkBruteForceGate
  abbrev pub by_gate : LoginUser → AttemptStore → Option BruteCheck → LoginAnswer × AttemptStore
  by_gate user s none = (unavailable, s)
  by_gate user s (some check) =
      if check.rate_limited
      then limited (rate_limited check.retry_after_seconds) s
      else if check.locked
      then limited (locked check.retry_after_seconds) s
      else by_rules user s (validate_login_credentials user.status user.password_hash)

  abbrev pub by_user : AttemptStore → Option LoginUser → LoginAnswer × AttemptStore
  by_user s none = (
    failed credentials_error,
    write_login_log sv none true (address input) now
        (increment_brute_force none (address input) now config s),
  )
  by_user s (some user) = by_gate user s (check_brute_force user.id (address input) now config s)

  abbrev by_database : AttemptStore → LoginAnswer × AttemptStore
  by_database s = if s.db_up then by_user s (sv.users input.email) else (unavailable, s)

  -- checkIpLimitGate
  abbrev pub by_address : AttemptStore → Option Bool → LoginAnswer × AttemptStore
  by_address s none = (unavailable, s)
  by_address s (some true) = (ip_limited, write_login_log sv none true (address input) now s)
  by_address s (some false) = by_database s

  unfoldable pub attempt_login : AttemptStore → LoginAnswer × AttemptStore
  attempt_login s = by_address s (check_ip_rate_limit (address input) now config s)

-- The handler: a body that zod refuses is none.
unfoldable pub login :
    LoginServices
    → BruteForceConfig
    → Option LoginInput
    → ℕ
    → AttemptStore
    → LoginAnswer × AttemptStore
login sv config none now s = (invalid_request, s)
login sv config (some input) now s = attempt_login sv config input now s
