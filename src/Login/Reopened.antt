-- ===== src/Login/Reopened.antt =====
-- The end of a lock.
use auth_sso.Base.{
  ℕ, ◌+◌, ◌≤◌, ◌<◌, String, true, ◌≡◌, ap, ◌∙◌, some, List, ◌∷◌, or_else, length, if_true, arith,
}
use auth_sso.Errors.{ok}
use auth_sso.Domain.Auth.Authorize.{validate_login_credentials}
use auth_sso.BruteForce.{
  BruteForceConfig, AttemptStore, minutes, normalize_ip, brute_force_account_key, get_count,
}
use auth_sso.BruteForce.Locks.{Both-ended}
use auth_sso.Login.{
  LoginUser, LoginInput, LoginServices, LoginAnswer, session, address, bound_session,
  answer_session, by_rules, by_gate, by_user, by_address, attempt_login, login,
}
use auth_sso.Login.Checks.{open_check, fresh-check_ip, fresh-check}
use auth_sso.Login.Lockout.{after_guesses, AllWrong, guesses-Both}

-- Where as many wrong passwords as the threshold have locked an account at an address, the lock ends by
-- itself: from the end of the windows that the first of them opened, a login with the right password
-- gets a session, if its token can be signed.
pub lock_ends :
    (sv : LoginServices) (config : BruteForceConfig) (input : LoginInput) (user : LoginUser)
    (hash : String) (first token : String) (t now : ℕ) (rest : List (String × ℕ)) (s : AttemptStore)
    → sv.users input.email ≡ some user
    → validate_login_credentials user.status user.password_hash ≡ ok tt
    → user.password_hash ≡ some hash
    → s.redis_up ≡ true
    → s.db_up ≡ true
    → get_count (brute_force_account_key user.id (address input)) t s.accounts ≡ 0
    → get_count (normalize_ip (address input)) t s.ips ≡ 0
    → 1 + length rest ≡ config.max_attempts
    → config.max_attempts < config.ip_max_attempts
    → AllWrong sv hash
        (t + minutes config.window_minutes)
        (t + minutes config.ip_window_minutes)
        ((first, t) ∷ rest)
    → t + minutes config.window_minutes ≤ now
    → t + minutes config.ip_window_minutes ≤ now
    → sv.bcrypt_compare input.password hash ≡ true
    → sv.sign user.id (bound_session sv config input now) ≡ some token
    → (login sv config (some input) now (after_guesses sv config input ((first, t) ∷ rest) s)).0
      ≡ session token (bound_session sv config input now)
unfolding login attempt_login open_check
lock_ends sv config input user hash first token t now rest s row may has up db a i enough lt w le
      lei right signs =
    let (both, db') =
      guesses-Both sv config input user hash row may has first t rest s up db a i (omega arith)
        (omega arith) w in
    let r = after_guesses sv config input ((first, t) ∷ rest) s in
    let (up', a', i') = Both-ended user.id (address input) _ _ _ now r both le lei in
    ap (λ (x : LoginAnswer × AttemptStore). x.0)
      (ap (by_address sv config input now r)
          (fresh-check_ip (address input) config now r up' i' (omega arith))
        ∙ if_true r.db_up _ db'
        ∙ ap (by_user sv config input now r) row
        ∙ ap (by_gate sv config input now user r)
            (fresh-check user.id (address input) config now r up' a' i' (omega arith) (omega arith))
        ∙ ap (by_rules sv config input now user r) may
        ∙ if_true _ _ (ap (λ o. sv.bcrypt_compare input.password (or_else o "")) has ∙ right))
    ∙ ap (answer_session sv config input now user (bound_session sv config input now)) signs
