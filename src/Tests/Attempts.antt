-- ===== src/Tests/Attempts.antt =====
-- The counters of failed logins.
use auth_sso.Base.{remove, insert, ◌≡◌, refl, true, false, some, [], ◌∷◌, lookup}
use auth_sso.BruteForce.{
  count_prefixed, remove_prefixed, account_prefix, clear_brute_force_counter, account_prefix,
  brute_force_account_key, increment_brute_force, bump, AttemptStore, default_config, get_count,
  judge_counts, check_brute_force, normalize_ip, clear_user_brute_force_counters,
}
use auth_sso.BruteForce.Locks.{failed_at}

abbrev no_attempts : AttemptStore
no_attempts = record {
  redis_up = true;
  db_up = true;
  accounts = [];
  ips = [];
  login_logs = [];
  last_logins = [];
}

-- Five failures within a minute lock the account for the address.
five_failures_lock :
    check_brute_force "alice" "10.0.0.1" 60000 default_config
      (failed_at "alice" "10.0.0.1" default_config (1 ∷ 2 ∷ 3 ∷ 4 ∷ 5 ∷ []) no_attempts)
    ≡ some (record { locked = true; rate_limited = false; retry_after_seconds = some 900 })
unfolding check_brute_force failed_at judge_counts increment_brute_force get_count lookup bump
    insert normalize_ip brute_force_account_key account_prefix
five_failures_lock = refl

abbrev alice_failed : AttemptStore
alice_failed = record no_attempts {
  accounts = ("alice:10.0.0.1", record { count = 7; deadline = 900000 }) ∷ [];
  ips = ("10.0.0.1", record { count = 7; deadline = 900000 }) ∷ [];
}

one_counter_cleared : (clear_user_brute_force_counters "alice" 50000 alice_failed).0 ≡ 1
unfolding clear_user_brute_force_counters count_prefixed remove_prefixed lookup account_prefix
one_counter_cleared = refl

-- A login clears the counter of the account, and leaves that of the address.
login_clears : (clear_brute_force_counter "alice" "10.0.0.1" alice_failed).accounts ≡ []
unfolding clear_brute_force_counter remove normalize_ip brute_force_account_key account_prefix
login_clears = refl
