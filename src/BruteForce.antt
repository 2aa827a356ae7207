-- ===== src/BruteForce.antt =====
-- apps/portal/src/lib/auth/brute-force.ts. The two namespaces of Redis that it uses, LOGIN_FAIL and
-- LOGIN_FAIL_IP, are maps from the rest of the key to a counter and the time, in milliseconds, at
-- which Redis drops it. What INCR wrote is a number, so that parseInt is not written out, and the
-- text of the messages is left out.
pub mod Locks
pub mod Addresses
pub mod Unlock
use auth_sso.Base.{
  ℕ, ◌+◌, ◌*◌, String, Bool, true, false, ◌&&◌, Option, none, some, List, [], ◌∷◌, ◌==◌, ltb, leb,
  if◌then◌else◌, lookup, insert, remove, starts_with,
}
use Prim.Native.String

pub record BruteForceConfig : Type 0 where
  pub max_attempts : ℕ
  pub window_minutes : ℕ
  pub ip_max_attempts : ℕ
  pub ip_window_minutes : ℕ

abbrev pub default_config : BruteForceConfig
default_config = record {
  max_attempts = 5;
  window_minutes = 15;
  ip_max_attempts = 20;
  ip_window_minutes = 15;
}

pub record Counter : Type 0 where
  pub count : ℕ
  pub deadline : ℕ

-- A row of login_logs.
pub record LoginLog : Type 0 where
  pub user_id : Option String
  pub ip : Option String
  pub is_failure : Bool
  pub created_at : ℕ

-- `redis_up` is false when Redis is not there or every command fails, `db_up` likewise.
pub record AttemptStore : Type 0 where
  pub redis_up : Bool
  pub db_up : Bool
  pub accounts : List (String × Counter)
  pub ips : List (String × Counter)
  pub login_logs : List LoginLog
  pub last_logins : List (String × ℕ)

unfoldable pub normalize_ip : String → String
normalize_ip ip = if ip == "" then "unknown" else ip

unfoldable pub account_prefix : String → String
account_prefix user = String.◌++◌ user ":"

unfoldable pub brute_force_account_key : String → String → String
brute_force_account_key user ip = String.◌++◌ (account_prefix user) (normalize_ip ip)

abbrev pub minutes : ℕ → ℕ
minutes n = n * 60 * 1000

abbrev pub live_count : ℕ → Option Counter → ℕ
live_count now none = 0
live_count now (some c) = if ltb now c.deadline then c.count else 0

-- GET of a counter: one that Redis has dropped counts as 0.
unfoldable pub get_count : String → ℕ → List (String × Counter) → ℕ
get_count key now counters = live_count now (lookup key counters)

abbrev pub bumped : ℕ → ℕ → Option Counter → Counter
bumped window now none = record { count = 1; deadline = now + minutes window }
bumped window now (some c) =
    if ltb now c.deadline && ltb 0 c.count
    then record { count = c.count + 1; deadline = c.deadline }
    else record { count = 1; deadline = now + minutes window }

-- INCR, and EXPIRE when it answers 1.
unfoldable pub bump : String → ℕ → ℕ → List (String × Counter) → List (String × Counter)
bump key window now counters = insert key (bumped window now (lookup key counters)) counters

pub record Counts : Type 0 where
  pub account : ℕ
  pub ip : ℕ

abbrev read_redis_counts : String → String → ℕ → AttemptStore → Option Counts
read_redis_counts user ip now s =
    if s.redis_up
    then some (record {
      account = get_count (brute_force_account_key user ip) now s.accounts;
      ip = get_count (normalize_ip ip) now s.ips;
    })
    else none

abbrev is_text : String → Option String → Bool
is_text s none = false
is_text s (some t) = s == t

-- A missing address is stored as NULL and counted as `unknown`.
abbrev ip_condition : String → Option String → Bool
ip_condition ip none = ip == "unknown"
ip_condition ip (some at) = if ip == "unknown" then false else at == ip

-- Failures after a successful login alone count for the account.
abbrev since_login : Option ℕ → ℕ → Bool
since_login none at = true
since_login (some login) at = leb login at

abbrev is_ip_failure : String → ℕ → ℕ → LoginLog → Bool
is_ip_failure ip window now log =
    log.is_failure && ip_condition ip log.ip && leb now (log.created_at + minutes window)

unfoldable pub count_ip : String → ℕ → ℕ → List LoginLog → ℕ
count_ip ip window now [] = 0
count_ip ip window now (log ∷ logs) =
    let rest = count_ip ip window now logs in
    if is_ip_failure ip window now log then 1 + rest else rest

unfoldable pub count_account : String → String → ℕ → ℕ → Option ℕ → List LoginLog → ℕ
count_account user ip window now login [] = 0
count_account user ip window now login (log ∷ logs) =
    let rest = count_account user ip window now login logs in
    if is_text user log.user_id
      && is_ip_failure ip window now log
      && since_login login log.created_at
    then 1 + rest
    else rest

-- `none` is the error that the service is not there.
abbrev pub read_db_counts : String → String → ℕ → BruteForceConfig → AttemptStore → Option Counts
read_db_counts user ip now config s =
    if s.db_up
    then some (record {
      account =
          count_account user ip config.window_minutes now (lookup user s.last_logins) s.login_logs;
      ip = count_ip ip config.ip_window_minutes now s.login_logs;
    })
    else none

pub record BruteCheck : Type 0 where
  pub locked : Bool
  pub rate_limited : Bool
  pub retry_after_seconds : Option ℕ

unfoldable pub judge_counts : BruteForceConfig → Counts → BruteCheck
judge_counts config counts =
    if leb config.ip_max_attempts counts.ip
    then record {
      locked = false;
      rate_limited = true;
      retry_after_seconds = some (config.ip_window_minutes * 60);
    }
    else if leb config.max_attempts counts.account
    then record {
      locked = true;
      rate_limited = false;
      retry_after_seconds = some (config.window_minutes * 60);
    }
    else record { locked = false; rate_limited = false; retry_after_seconds = none }

abbrev pub judged : BruteForceConfig → Option Counts → Option BruteCheck
judged config none = none
judged config (some counts) = some (judge_counts config counts)

abbrev pub or_else : Option Counts → Option Counts → Option Counts
or_else none other = other
or_else (some counts) other = some counts

unfoldable pub check_brute_force :
    String → String → ℕ → BruteForceConfig → AttemptStore → Option BruteCheck
check_brute_force user ip now config s =
    judged config (or_else (read_redis_counts user ip now s) (read_db_counts user ip now config s))

abbrev is_limited : BruteForceConfig → Option ℕ → Option Bool
is_limited config none = none
is_limited config (some failures) = some (leb config.ip_max_attempts failures)

abbrev pub read_ip_count : String → ℕ → BruteForceConfig → AttemptStore → Option ℕ
read_ip_count ip now config s =
    if s.redis_up
    then some (get_count (normalize_ip ip) now s.ips)
    else if s.db_up
    then some (count_ip ip config.ip_window_minutes now s.login_logs)
    else none

-- The check of the address alone, before the user is looked up.
unfoldable pub check_ip_rate_limit : String → ℕ → BruteForceConfig → AttemptStore → Option Bool
check_ip_rate_limit ip now config s = is_limited config (read_ip_count ip now config s)

-- Without a user id the address alone is counted.
abbrev bump_account :
    Option String → String → ℕ → ℕ → List (String × Counter) → List (String × Counter)
bump_account none ip window now counters = counters
bump_account (some user) ip window now counters =
    bump (brute_force_account_key user ip) window now counters

unfoldable pub increment_brute_force :
    Option String → String → ℕ → BruteForceConfig → AttemptStore → AttemptStore
increment_brute_force user ip now config s =
    if s.redis_up
    then record s {
      accounts = bump_account user ip config.window_minutes now s.accounts;
      ips = bump (normalize_ip ip) config.ip_window_minutes now s.ips;
    }
    else s

unfoldable pub clear_brute_force_counter : String → String → AttemptStore → AttemptStore
clear_brute_force_counter user ip s =
    if s.redis_up
    then record s { accounts = remove (brute_force_account_key user ip) s.accounts }
    else s

-- The keys that SCAN finds, and their removal.
unfoldable pub remove_prefixed : String → List (String × Counter) → List (String × Counter)
remove_prefixed prefix [] = []
remove_prefixed prefix ((at, c) ∷ rest) =
    let kept = remove_prefixed prefix rest in if starts_with at prefix then kept else (at, c) ∷ kept

-- DEL answers how many of its keys were there.
abbrev pub present : ℕ → Option Counter → ℕ
present now none = 0
present now (some c) = if ltb now c.deadline then 1 else 0

unfoldable pub count_prefixed : String → ℕ → List (String × Counter) → ℕ
count_prefixed prefix now [] = 0
count_prefixed prefix now ((at, c) ∷ rest) =
    let others = count_prefixed prefix now rest in
    if starts_with at prefix then present now (some c) + others else others

-- The keys with an address, and then the key without one that older versions wrote.
unfoldable pub clear_user_brute_force_counters : String → ℕ → AttemptStore → ℕ × AttemptStore
clear_user_brute_force_counters user now s =
    let prefix = account_prefix user in
    if s.redis_up
    then (
      count_prefixed prefix now s.accounts
          + present now (lookup user (remove_prefixed prefix s.accounts)),
      record s { accounts = remove user (remove_prefixed prefix s.accounts) },
    )
    else (0, s)
