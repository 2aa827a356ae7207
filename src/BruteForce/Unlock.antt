-- ===== src/BruteForce/Unlock.antt =====
-- What clears the counters of brute-force.ts: a login, and an administrator who unlocks a user.
use auth_sso.Base.{
  ℕ, String, ◌≡◌, refl, ◌∙◌, true, none, some, List, [], ◌∷◌, lookup, remove, lookup-remove, arith,
  eq_iff, starts_with-append,
}
use auth_sso.BruteForce.{
  BruteForceConfig, Counter, AttemptStore, normalize_ip, account_prefix, brute_force_account_key,
  get_count, judge_counts, check_brute_force, check_ip_rate_limit, clear_user_brute_force_counters,
  remove_prefixed,
}
use Prim.Native.String

lookup-remove_prefixed :
    (prefix rest : String) (m : List (String × Counter))
    → lookup (String.◌++◌ prefix rest) (remove_prefixed prefix m) ≡ none
unfolding lookup remove_prefixed
lookup-remove_prefixed prefix rest [] = refl
lookup-remove_prefixed prefix rest ((at, c) ∷ m) = ground (
  arith,
  lookup-remove_prefixed prefix rest m,
  eq_iff at (String.◌++◌ prefix rest),
  starts_with-append prefix rest,
)

brute_force_account_key-none :
    (user ip : String) (m : List (String × Counter))
    → lookup
        (brute_force_account_key user ip)
        (remove user (remove_prefixed (account_prefix user) m))
      ≡ none
unfolding brute_force_account_key
brute_force_account_key-none user ip m =
    lookup-remove user _ (remove_prefixed (account_prefix user) m)
    ∙ ground (arith, lookup-remove_prefixed (account_prefix user) (normalize_ip ip) m)

-- Where Redis is there and an administrator has unlocked a user, no address finds the account
-- locked, at any time and under any thresholds, while an address that is limited stays limited:
-- a check of the user judges by no failure of the account and by the failures of the address as
-- before, and the check of the address alone answers as before.
unlock_frees_every_address :
    (user ip : String) (config : BruteForceConfig) (at now : ℕ) (s : AttemptStore)
    → s.redis_up ≡ true
    → (check_brute_force user ip now config (clear_user_brute_force_counters user at s).1
        ≡ some (
            judge_counts config
              (record { account = 0; ip = get_count (normalize_ip ip) now s.ips })))
      × (check_ip_rate_limit ip now config (clear_user_brute_force_counters user at s).1
          ≡ check_ip_rate_limit ip now config s)
unfolding check_brute_force check_ip_rate_limit clear_user_brute_force_counters get_count
unlock_frees_every_address user ip config at now s up =
    (ground (arith, up, brute_force_account_key-none user ip s.accounts), ground (arith, up))
