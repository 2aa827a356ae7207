-- ===== src/Login/Checks.antt =====
-- What the checks of the counters answer at a count, and what the log leaves as it is.
use auth_sso.Base.{ℕ, ◌≤◌, ◌<◌, String, Bool, true, false, ◌≡◌, Option, none, some, ◌*◌, arith}
use auth_sso.BruteForce.{
  BruteForceConfig, AttemptStore, BruteCheck, normalize_ip, brute_force_account_key, get_count,
  judge_counts, check_ip_rate_limit, check_brute_force, increment_brute_force,
}
use auth_sso.Login.{LoginServices, write_login_log}

unfoldable pub open_check : BruteCheck
open_check = record { locked = false; rate_limited = false; retry_after_seconds = none }

pub judge-open :
    (config : BruteForceConfig) (n : ℕ)
    → n < config.max_attempts
    → n < config.ip_max_attempts
    → judge_counts config (record { account = n; ip = n }) ≡ open_check
unfolding judge_counts open_check
judge-open config n lt ltc = ground arith

pub judge-locked :
    (config : BruteForceConfig) (n : ℕ)
    → config.max_attempts ≤ n
    → n < config.ip_max_attempts
    → judge_counts config (record { account = n; ip = n }) ≡ record {
      locked = true;
      rate_limited = false;
      retry_after_seconds = some (config.window_minutes * 60);
    }
unfolding judge_counts
judge-locked config n le ltc = ground arith

pub log-fields :
    (sv : LoginServices) (user : Option String) (is_failure : Bool) (ip : String) (now : ℕ)
    (s : AttemptStore)
    → ((write_login_log sv user is_failure ip now s).redis_up ≡ s.redis_up)
      × ((write_login_log sv user is_failure ip now s).db_up ≡ s.db_up)
      × ((write_login_log sv user is_failure ip now s).accounts ≡ s.accounts)
      × ((write_login_log sv user is_failure ip now s).ips ≡ s.ips)
unfolding write_login_log
log-fields sv user is_failure ip now s = ground arith

pub increment-db_up :
    (user : Option String) (ip : String) (config : BruteForceConfig) (now : ℕ) (s : AttemptStore)
    → (increment_brute_force user ip now config s).db_up ≡ s.db_up
unfolding increment_brute_force
increment-db_up user ip config now s = ground arith

pub increment-accounts :
    (ip : String) (config : BruteForceConfig) (now : ℕ) (s : AttemptStore)
    → (increment_brute_force none ip now config s).accounts ≡ s.accounts
unfolding increment_brute_force
increment-accounts ip config now s = ground arith

-- The checks where Redis is there and no failure is counted.
pub fresh-check_ip :
    (ip : String) (config : BruteForceConfig) (t : ℕ) (s : AttemptStore)
    → s.redis_up ≡ true
    → get_count (normalize_ip ip) t s.ips ≡ 0
    → 0 < config.ip_max_attempts
    → check_ip_rate_limit ip t config s ≡ some false
unfolding check_ip_rate_limit
fresh-check_ip ip config t s up i lt = ground arith

pub fresh-check :
    (user ip : String) (config : BruteForceConfig) (t : ℕ) (s : AttemptStore)
    → s.redis_up ≡ true
    → get_count (brute_force_account_key user ip) t s.accounts ≡ 0
    → get_count (normalize_ip ip) t s.ips ≡ 0
    → 0 < config.max_attempts
    → 0 < config.ip_max_attempts
    → check_brute_force user ip t config s ≡ some open_check
unfolding check_brute_force
fresh-check user ip config t s up a i lt ltc = ground (arith, judge-open config 0 lt ltc, up, a, i)
