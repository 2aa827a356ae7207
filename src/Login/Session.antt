-- ===== src/Login/Session.antt =====
-- What a login has shown before it gets a session.
use auth_sso.Base.{
  ℕ, String, Bool, true, false, ◌≡◌, refl, sym, ap, ◌∙◌, ◌⊎◌, inl, inr, Option, none, some,
  if_cases, or_else, truthy_text, eq_iff, arith, subst,
}
use auth_sso.Contracts.{UserStatus, user_is_active}
use auth_sso.Errors.{Checked, ok, err}
use auth_sso.Domain.Auth.Authorize.{validate_login_credentials}
use auth_sso.BruteForce.{
  BruteForceConfig, AttemptStore, BruteCheck, check_ip_rate_limit, check_brute_force,
}
use auth_sso.Login.{
  LoginUser, LoginInput, LoginServices, LoginAnswer, session, address, same_binding,
  resolve_bound_session_id, bound_session, answer_session, by_rules, by_gate, by_user, by_address,
  attempt_login, login,
}

-- The session is bound to no authorization request, or to the one that the request names and whose
-- binding is the cookie of this browser.
abbrev pub IsBoundBy :
    (String → Option String) → Option String → Option String → Option String → Type 0
IsBoundBy bindings cookie id bound =
    (bound ≡ none)
    ⊎ ((i c : String) × (bound ≡ some i)
        × (id ≡ some i)
        × (cookie ≡ some c)
        × (truthy_text c ≡ true)
        × (bindings i ≡ some c))

same_binding-true :
    (o p : Option String)
    → same_binding o p ≡ true
    → (cookie : String) × (o ≡ some cookie) × (truthy_text cookie ≡ true) × (p ≡ some cookie)
same_binding-true none p h = cc
same_binding-true (some c) none h = cc
same_binding-true (some c) (some d) h =
    (c, refl, ground arith, ap some ((eq_iff d c).0 (ground arith)))

resolve_bound_session_id-IsBoundBy :
    (bindings : String → Option String) (cookie id : Option String)
    → IsBoundBy bindings cookie id (resolve_bound_session_id bindings cookie id)
unfolding resolve_bound_session_id
resolve_bound_session_id-IsBoundBy bindings cookie none = inl refl
resolve_bound_session_id-IsBoundBy bindings cookie (some id) =
    if_cases (IsBoundBy bindings cookie (some id)) (truthy_text id)
      (λ _.
        if_cases (IsBoundBy bindings cookie (some id)) (same_binding cookie (bindings id))
          (λ same.
            let (c, has, given, stored) = same_binding-true cookie (bindings id) same in
            inr (id, c, refl, refl, has, given, stored))
          (λ _. inl refl))
      (λ _. inl refl)

validate_login-active :
    (status : UserStatus) (hash : Option String)
    → validate_login_credentials status hash ≡ ok tt
    → (user_is_active status ≡ true) × ((h : String) × (hash ≡ some h))
unfolding validate_login_credentials
validate_login-active UserStatus.active none h = cc
validate_login-active UserStatus.active (some x) h = (refl, (x, refl))
validate_login-active UserStatus.locked hash h = cc
validate_login-active UserStatus.disabled hash h = cc
validate_login-active UserStatus.deleted hash h = cc

module _ (sv : LoginServices) (config : BruteForceConfig) (input : LoginInput) (now : ℕ)
    (token : String) (bound : Option String) where
  -- The user's row, its password, and the signature.
  abbrev pub ShowsPassword : LoginUser → Type 0
  ShowsPassword user =
      (user_is_active user.status ≡ true)
      × ((hash : String) × (user.password_hash ≡ some hash)
          × (sv.bcrypt_compare input.password hash ≡ true))
      × (bound ≡ bound_session sv config input now)
      × (sv.sign user.id bound ≡ some token)

  -- Neither gate is shut.
  abbrev pub IsAdmitted : AttemptStore → LoginUser → Type 0
  IsAdmitted s user =
      (check_ip_rate_limit (address input) now config s ≡ some false)
      × ((check : BruteCheck) × (check_brute_force user.id (address input) now config s
            ≡ some check)
          × (check.rate_limited ≡ false)
          × (check.locked ≡ false))

  answer_session-given :
      (user : LoginUser) (o : Option String)
      → answer_session sv config input now user (bound_session sv config input now) o
        ≡ session token bound
      → (bound ≡ bound_session sv config input now) × (o ≡ some token)
  answer_session-given user none h = cc
  answer_session-given user (some t) h = (cc, cc)

  by_rules-session :
      (user : LoginUser) (s : AttemptStore) (r : Checked)
      → validate_login_credentials user.status user.password_hash ≡ r
      → (by_rules sv config input now user s r).0 ≡ session token bound
      → ShowsPassword user
  by_rules-session user s (err e) v h = cc
  by_rules-session user s (ok _) v h =
      let (active, (hash, has)) = validate_login-active user.status user.password_hash v in
      if_cases (λ (r : LoginAnswer × AttemptStore). r.0 ≡ session token bound → ShowsPassword user)
        (sv.bcrypt_compare input.password (or_else user.password_hash ""))
        (λ valid q.
          let (b, t) =
            answer_session-given user (sv.sign user.id (bound_session sv config input now)) q in
          (
            active,
            (
              hash,
              has,
              sym (ap (λ o. sv.bcrypt_compare input.password (or_else o "")) has) ∙ valid,
            ),
            b,
            ap (sv.sign user.id) b ∙ t,
          ))
        (λ _ q. cc) h

  by_gate-session :
      (user : LoginUser) (s : AttemptStore) (o : Option BruteCheck)
      → (by_gate sv config input now user s o).0 ≡ session token bound
      → ((check : BruteCheck) × (o ≡ some check)
          × (check.rate_limited ≡ false)
          × (check.locked ≡ false))
        × ShowsPassword user
  by_gate-session user s none h = cc
  by_gate-session user s (some check) h = by_limit check.rate_limited refl check.locked refl h
    where
      by_limit :
          (r : Bool)
          → check.rate_limited ≡ r
          → (l : Bool) → check.locked ≡ l
          → (by_gate sv config input now user s (
              some (record {
                locked = l;
                rate_limited = r;
                retry_after_seconds = check.retry_after_seconds;
              }))).0
            ≡ session token bound
          → ((c : BruteCheck) × (some check ≡ some c)
              × (c.rate_limited ≡ false)
              × (c.locked ≡ false))
            × ShowsPassword user
      by_limit true r l k q = cc
      by_limit false r true k q = cc
      by_limit false r false k q = ((check, refl, r, k), by_rules-session user s _ refl q)

  by_user-session :
      (s : AttemptStore) (o : Option LoginUser)
      → (by_user sv config input now s o).0 ≡ session token bound
      → (user : LoginUser) × (o ≡ some user)
        × ((check : BruteCheck) × (check_brute_force user.id (address input) now config s
              ≡ some check)
            × (check.rate_limited ≡ false)
            × (check.locked ≡ false))
        × ShowsPassword user
  by_user-session s none h = cc
  by_user-session s (some user) h =
      let (gate, shown) = by_gate-session user s _ h in (user, refl, gate, shown)

  by_address-session :
      (s : AttemptStore) (o : Option Bool)
      → check_ip_rate_limit (address input) now config s ≡ o
      → (by_address sv config input now s o).0 ≡ session token bound
      → (user : LoginUser) × (sv.users input.email ≡ some user)
        × IsAdmitted s user
        × ShowsPassword user
  by_address-session s none e h = cc
  by_address-session s (some true) e h = cc
  by_address-session s (some false) e h =
      if_cases
        (λ (r : LoginAnswer × AttemptStore).
          r.0 ≡ session token bound
          → (user : LoginUser) × (sv.users input.email ≡ some user)
            × IsAdmitted s user
            × ShowsPassword user)
        s.db_up
        (λ _ q.
          let (user, row, gate, shown) = by_user-session s (sv.users input.email) q in
          (user, row, (e, gate), shown))
        (λ _ q. cc) h

  -- A login that gets a session is that of a user whose row has the email and is active, whose
  -- stored hash the password matches, at a moment when neither the address nor the account at it is
  -- limited or locked; the token is signed for that user, and for no authorization request or for the one
  -- that the request names, whose stored binding is the cookie of this browser.
  pub session_needs_credentials :
      (s : AttemptStore)
      → (login sv config (some input) now s).0 ≡ session token bound
      → (user : LoginUser) × (sv.users input.email ≡ some user)
        × IsAdmitted s user
        × ShowsPassword user
        × IsBoundBy sv.bindings input.binding_cookie input.session_id bound
  unfolding login attempt_login
  session_needs_credentials s h =
      let (user, row, admitted, shown) =
        by_address-session s (check_ip_rate_limit (address input) now config s) refl h in
      (
        user,
        row,
        admitted,
        shown,
        subst (IsBoundBy sv.bindings input.binding_cookie input.session_id) (sym shown.2)
            (resolve_bound_session_id-IsBoundBy sv.bindings input.binding_cookie input.session_id),
      )
