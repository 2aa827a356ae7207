-- ===== src/BruteForce/Addresses.antt =====
-- Failed logins from one address and the checks of brute-force.ts from another.
use auth_sso.Base.{
  ℕ, String, ◌≡◌, ◌≢◌, refl, sym, ap, ◌∙◌, subst, true, some, List, [], ◌∷◌, lookup-insert, arith,
  eq_iff, append_cancel_left,
}
use auth_sso.BruteForce.{
  BruteForceConfig, Counter, AttemptStore, normalize_ip, account_prefix, brute_force_account_key,
  live_count, get_count, bump, check_brute_force, increment_brute_force,
}
use auth_sso.BruteForce.Locks.{increment-up}

-- The failures of a user from several addresses.
unfoldable failed_from : String → BruteForceConfig → List (String × ℕ) → AttemptStore → AttemptStore
failed_from user config [] s = s
failed_from user config ((ip, t) ∷ rest) s =
    failed_from user config rest (increment_brute_force (some user) ip t config s)

-- No address of the list is this one.
abbrev Elsewhere : String → List (String × ℕ) → Type 0
Elsewhere ip [] = Unit
Elsewhere ip ((at, t) ∷ rest) = (normalize_ip at ≢ normalize_ip ip) × Elsewhere ip rest

get_count-bump :
    (key other : String) (window t now : ℕ) (m : List (String × Counter))
    → key ≢ other
    → get_count other now (bump key window t m) ≡ get_count other now m
unfolding get_count bump
get_count-bump key other window t now m ne =
    ap (live_count now) (lookup-insert key other _ m ∙ ground (arith, eq_iff key other))

account_key-eq :
    (user ip other : String)
    → brute_force_account_key user ip ≡ brute_force_account_key user other
    → normalize_ip ip ≡ normalize_ip other
unfolding brute_force_account_key
account_key-eq user ip other = append_cancel_left (account_prefix user) _ _

-- The counters of an address that the store keeps, as a check reads them.
SameCounts : String → String → ℕ → AttemptStore → AttemptStore → Type 0
SameCounts user ip now s r =
    (s.redis_up ≡ true)
    × (r.redis_up ≡ true)
    × (get_count (brute_force_account_key user ip) now s.accounts
        ≡ get_count (brute_force_account_key user ip) now r.accounts)
    × (get_count (normalize_ip ip) now s.ips ≡ get_count (normalize_ip ip) now r.ips)

SameCounts-increment :
    (user ip at : String) (config : BruteForceConfig) (t now : ℕ) (s : AttemptStore)
    → s.redis_up ≡ true
    → normalize_ip at ≢ normalize_ip ip
    → SameCounts user ip now (increment_brute_force (some user) at t config s) s
unfolding SameCounts
SameCounts-increment user ip at config t now s up ne =
    subst (λ r. SameCounts user ip now r s) (sym (increment-up user at config t s up))
      (
        up,
        up,
        get_count-bump _ _ _ t now s.accounts (λ e. ne (account_key-eq user at ip e)),
        get_count-bump _ _ _ t now s.ips ne,
      )

SameCounts-check :
    (user ip : String) (config : BruteForceConfig) (now : ℕ) (s r : AttemptStore)
    → SameCounts user ip now s r
    → check_brute_force user ip now config s ≡ check_brute_force user ip now config r
unfolding SameCounts check_brute_force
SameCounts-check user ip config now s r (up, up', a, i) = ground (arith, up, up', a, i)

-- Where Redis is there, failures of a user from other addresses, however many, at whatever times
-- and under whatever thresholds, change nothing in what a check of the user from this address
-- answers.
other_addresses_lock_nothing :
    (user ip : String) (config : BruteForceConfig) (now : ℕ) (failures : List (String × ℕ))
    (s : AttemptStore)
    → s.redis_up ≡ true
    → Elsewhere ip failures
    → check_brute_force user ip now config (failed_from user config failures s)
      ≡ check_brute_force user ip now config s
unfolding failed_from SameCounts
other_addresses_lock_nothing user ip config now [] s up h = refl
other_addresses_lock_nothing user ip config now ((at, t) ∷ rest) s up (ne, h) =
    let same = SameCounts-increment user ip at config t now s up ne in
    other_addresses_lock_nothing user ip config now rest _ same.0 h
    ∙ SameCounts-check user ip config now _ s same
