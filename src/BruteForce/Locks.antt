-- ===== src/BruteForce/Locks.antt =====
-- What failed logins do to the counters of brute-force.ts.
use auth_sso.Base.{
  ℕ, ◌+◌, ◌<◌, ◌≤◌, String, ◌≡◌, refl, sym, ap, ◌∙◌, subst, true, Option, none, some, List, [], ◌∷◌,
  if◌then◌else◌, lookup, lookup-insert, length, leb, arith, eq_refl,
}
use auth_sso.BruteForce.{
  BruteForceConfig, Counter, AttemptStore, normalize_ip, brute_force_account_key, minutes,
  live_count, get_count, bump, bumped, judge_counts, check_brute_force, check_ip_rate_limit,
  increment_brute_force,
}

-- The failures of a user from one address, at the times given.
unfoldable pub failed_at : String → String → BruteForceConfig → List ℕ → AttemptStore → AttemptStore
failed_at user ip config [] s = s
failed_at user ip config (t ∷ ts) s =
    failed_at user ip config ts (increment_brute_force (some user) ip t config s)

abbrev Before : ℕ → List ℕ → Type 0
Before end [] = Unit
Before end (t ∷ ts) = (t < end) × Before end ts

-- The counter of the key is live until its deadline.
pub Running : String → ℕ → ℕ → List (String × Counter) → Type 0
Running key n end m = lookup key m ≡ some (record { count = n; deadline = end })

Running-bump :
    (key : String) (window t n end : ℕ) (m : List (String × Counter))
    → Running key (1 + n) end m
    → t < end
    → Running key (1 + (1 + n)) end (bump key window t m)
unfolding bump Running
Running-bump key window t n end m h lt =
    lookup-insert key key _ m ∙ ground (arith, eq_refl key, h, lt)

fresh_bump :
    (window t : ℕ) (c : Option Counter)
    → live_count t c ≡ 0
    → bumped window t c ≡ record { count = 1; deadline = t + minutes window }
fresh_bump window t none h = refl
fresh_bump window t (some c) h = ground arith

Running-start :
    (key : String) (window t : ℕ) (m : List (String × Counter))
    → get_count key t m ≡ 0
    → Running key 1 (t + minutes window) (bump key window t m)
unfolding bump Running get_count
Running-start key window t m h =
    lookup-insert key key _ m ∙ ground (arith, eq_refl key, fresh_bump window t (lookup key m) h)

Running-get_count :
    (key : String) (n end now : ℕ) (m : List (String × Counter))
    → Running key n end m
    → now < end
    → get_count key now m ≡ n
unfolding get_count Running
Running-get_count key n end now m h lt = ap (live_count now) h ∙ ground (arith, lt)

abbrev pub counted : String → String → BruteForceConfig → ℕ → AttemptStore → AttemptStore
counted user ip config t s = record s {
  accounts = bump (brute_force_account_key user ip) config.window_minutes t s.accounts;
  ips = bump (normalize_ip ip) config.ip_window_minutes t s.ips;
}

pub increment-up :
    (user ip : String) (config : BruteForceConfig) (t : ℕ) (s : AttemptStore)
    → s.redis_up ≡ true
    → increment_brute_force (some user) ip t config s ≡ counted user ip config t s
unfolding increment_brute_force
increment-up user ip config t s up = ap (λ b. if b then counted user ip config t s else s) up

-- Redis is there, and both counters of the pair are live.
pub Both : String → String → ℕ → ℕ → ℕ → AttemptStore → Type 0
Both user ip n end ip_end s =
    (s.redis_up ≡ true)
    × Running (brute_force_account_key user ip) n end s.accounts
    × Running (normalize_ip ip) n ip_end s.ips

pub Both-increment :
    (user ip : String) (config : BruteForceConfig) (n end ip_end t : ℕ) (s : AttemptStore)
    → Both user ip (1 + n) end ip_end s
    → t < end
    → t < ip_end
    → Both user ip (1 + (1 + n)) end ip_end (increment_brute_force (some user) ip t config s)
unfolding Both
Both-increment user ip config n end ip_end t s (up, a, i) lt ltc =
    subst (Both user ip (1 + (1 + n)) end ip_end) (sym (increment-up user ip config t s up))
      (up, Running-bump _ _ t n end s.accounts a lt, Running-bump _ _ t n ip_end s.ips i ltc)

Both-failed :
    (user ip : String) (config : BruteForceConfig) (n end ip_end : ℕ) (ts : List ℕ)
    (s : AttemptStore)
    → Both user ip (1 + n) end ip_end s
    → Before end ts
    → Before ip_end ts
    → Both user ip (1 + (n + length ts)) end ip_end (failed_at user ip config ts s)
unfolding failed_at
Both-failed user ip config n end ip_end [] s h b c =
    subst (λ m. Both user ip (1 + m) end ip_end s) (omega arith) h
Both-failed user ip config n end ip_end (t ∷ ts) s h (lt, b) (ltc, c) =
    subst (λ m. Both user ip (1 + m) end ip_end (failed_at user ip config (t ∷ ts) s)) (omega arith)
      (Both-failed user ip config (1 + n) end ip_end ts _
        (Both-increment user ip config n end ip_end t s h lt ltc) b c)

pub Both-start :
    (user ip : String) (config : BruteForceConfig) (t : ℕ) (s : AttemptStore)
    → s.redis_up ≡ true
    → get_count (brute_force_account_key user ip) t s.accounts ≡ 0
    → get_count (normalize_ip ip) t s.ips ≡ 0
    → Both user ip 1
        (t + minutes config.window_minutes)
        (t + minutes config.ip_window_minutes)
        (increment_brute_force (some user) ip t config s)
unfolding Both
Both-start user ip config t s up a i =
    subst
      (Both user ip 1 (t + minutes config.window_minutes) (t + minutes config.ip_window_minutes))
      (sym (increment-up user ip config t s up))
      (up, Running-start _ _ t s.accounts a, Running-start _ _ t s.ips i)

pub Both-check :
    (user ip : String) (config : BruteForceConfig) (n end ip_end now : ℕ) (s : AttemptStore)
    → Both user ip n end ip_end s
    → now < end
    → now < ip_end
    → check_brute_force user ip now config s
      ≡ some (judge_counts config (record { account = n; ip = n }))
unfolding Both check_brute_force
Both-check user ip config n end ip_end now s (up, a, i) lt ltc = ground (
  arith,
  up,
  Running-get_count _ n end now s.accounts a lt,
  Running-get_count _ n ip_end now s.ips i ltc,
)

pub Both-check_ip :
    (user ip : String) (config : BruteForceConfig) (n end ip_end now : ℕ) (s : AttemptStore)
    → Both user ip n end ip_end s
    → now < ip_end
    → check_ip_rate_limit ip now config s ≡ some (leb config.ip_max_attempts n)
unfolding Both check_ip_rate_limit
Both-check_ip user ip config n end ip_end now s (up, a, i) lt =
    ground (arith, up, Running-get_count _ n ip_end now s.ips i lt)

-- Counters that have ended count as none.
pub Both-ended :
    (user ip : String) (n end ip_end now : ℕ) (s : AttemptStore)
    → Both user ip n end ip_end s
    → end ≤ now
    → ip_end ≤ now
    → (s.redis_up ≡ true)
      × (get_count (brute_force_account_key user ip) now s.accounts ≡ 0)
      × (get_count (normalize_ip ip) now s.ips ≡ 0)
unfolding Both Running get_count
Both-ended user ip n end ip_end now s (up, a, i) le lei =
    (up, ap (live_count now) a ∙ ground (arith, le), ap (live_count now) i ∙ ground (arith, lei))

-- The counters alone matter.
pub Both-of_counters :
    (user ip : String) (n end ip_end : ℕ) (s r : AttemptStore)
    → r.redis_up ≡ s.redis_up
    → r.accounts ≡ s.accounts
    → r.ips ≡ s.ips
    → Both user ip n end ip_end s
    → Both user ip n end ip_end r
unfolding Both Running
Both-of_counters user ip n end ip_end s r up acc ips (u, a, i) = (
  up ∙ u,
  ap (lookup (brute_force_account_key user ip)) acc ∙ a,
  ap (lookup (normalize_ip ip)) ips ∙ i,
)

-- Where Redis is there, no failure of the pair and none of the address is counted, and the user
-- then fails from the address at t and at each time of ts, all before both windows that open at t
-- have ended, a check within the windows judges by exactly 1 + length ts failures, for the
-- account and for the address.
failures_counted :
    (user ip : String) (config : BruteForceConfig) (t now : ℕ) (ts : List ℕ) (s : AttemptStore)
    → s.redis_up ≡ true
    → get_count (brute_force_account_key user ip) t s.accounts ≡ 0
    → get_count (normalize_ip ip) t s.ips ≡ 0
    → Before (t + minutes config.window_minutes) (now ∷ ts)
    → Before (t + minutes config.ip_window_minutes) (now ∷ ts)
    → check_brute_force user ip now config (failed_at user ip config (t ∷ ts) s)
      ≡ some (judge_counts config (record { account = 1 + length ts; ip = 1 + length ts }))
unfolding failed_at
failures_counted user ip config t now ts s up a i (lt, b) (ltc, c) =
    Both-check user ip config (1 + length ts) _ _ now _
      (subst
        (λ m.
          Both user ip (1 + m) (t + minutes config.window_minutes)
            (t + minutes config.ip_window_minutes) (failed_at user ip config (t ∷ ts) s))
        (omega arith)
        (Both-failed user ip config 0 _ _ ts _ (Both-start user ip config t s up a i) b c))
      lt ltc
