-- ===== src/Tokens/Keys/Once.antt =====
-- The lock of signing-keys.ts: of the requests that wait for it together, the first alone renews.
use auth_sso.Base.{
  ℕ, ◌+◌, ◌≤◌, String, false, ◌≡◌, refl, sym, ap, ◌∙◌, subst, Option, none, some, List, ltb,
  if_cases, if_false, All, All-at, arith,
}
use auth_sso.Tokens.Keys.{
  JwkRow, KeyStore, NewPair, key_lifetime, newest, newer, ends_before, row_of,
  create_and_cache_entry, generate_and_persist_key_pair, load_or_generate, reusable,
  renew_under_lock, reset_signing_key_cache,
}
use auth_sso.Tokens.Keys.Lifetime.{newest-Among, load_row-rows}

-- The newest row does not end before the time.
abbrev Current : ℕ → List JwkRow → Type 0
Current time rows = (r : JwkRow) × (newest rows ≡ some r) × (ends_before time r ≡ false)

-- No row was created after the time.
abbrev CreatedBy : ℕ → List JwkRow → Type 0
CreatedBy now rows = All (λ row. row.created_at ≤ now) rows

newer-first :
    (row : JwkRow) (o : Option JwkRow)
    → ((r : JwkRow) → o ≡ some r → r.created_at ≤ row.created_at)
    → newer row o ≡ row
newer-first row none h = refl
newer-first row (some r) h = ground (arith, h r refl)

generate-Current :
    (time now : ℕ) (pair : NewPair) (s : KeyStore)
    → CreatedBy now s.rows
    → time ≤ now + key_lifetime
    → Current time (generate_and_persist_key_pair now pair (reset_signing_key_cache s)).1.rows
unfolding generate_and_persist_key_pair create_and_cache_entry row_of newest
generate-Current time now pair s c le = (
  row_of now pair,
  ap some (
      newer-first (row_of now pair) (newest s.rows)
        (λ r q. All-at (λ row. row.created_at ≤ now) s.rows c (newest-Among s.rows r q))),
  ground arith,
)

ends_before-earlier :
    (time earlier : ℕ) (r : JwkRow)
    → earlier ≤ time
    → ends_before time r ≡ false
    → ends_before earlier r ≡ false
ends_before-earlier time earlier r le h = sooner r.expires_at h
  where
    sooner :
        (o : Option ℕ)
        → elim o [ none ↦ false | some e ↦ ltb e time ] ≡ false
        → elim o [ none ↦ false | some e ↦ ltb e earlier ] ≡ false
    sooner none q = refl
    sooner (some e) q = ground arith

module _ (import_jwk : String → Option String) where
  renew_under_lock-Current :
      (renew_before now : ℕ) (pair : NewPair) (s : KeyStore)
      → CreatedBy now s.rows
      → renew_before ≤ now + key_lifetime
      → Current renew_before (renew_under_lock import_jwk renew_before now pair s).1.rows
  unfolding renew_under_lock
  renew_under_lock-Current renew_before now pair s c le = choose (newest s.rows) refl
    where
      choose :
          (o : Option JwkRow)
          → newest s.rows ≡ o
          → Current renew_before
              (load_or_generate import_jwk (reusable renew_before o) now pair s).1.rows
      choose none q = generate-Current renew_before now pair s c le
      choose (some r) q =
          if_cases (λ o. Current renew_before (load_or_generate import_jwk o now pair s).1.rows)
            (ends_before renew_before r) (λ _. generate-Current renew_before now pair s c le)
            (λ lasts.
              subst (Current renew_before) (sym (load_row-rows import_jwk r now s)) (r, q, lasts))

  reuse-rows :
      (time renew_before now : ℕ) (pair : NewPair) (s : KeyStore)
      → Current time s.rows
      → renew_before ≤ time
      → (renew_under_lock import_jwk renew_before now pair s).1.rows ≡ s.rows
  unfolding renew_under_lock
  reuse-rows time renew_before now pair s (r, q, lasts) le =
      ap (λ o. (load_or_generate import_jwk o now pair s).1.rows)
        (ap (reusable renew_before) q
          ∙ if_false _ none (ends_before-earlier time renew_before r le lasts))
      ∙ load_row-rows import_jwk r now s

  -- After one request has held the lock, in a table with no row from the future, the next that
  -- holds it adds no key, if it began to wait no later than the first.
  one_key_for_all_waiters :
      (renew_before now : ℕ) (pair : NewPair) (other later : ℕ) (second : NewPair) (s : KeyStore)
      → CreatedBy now s.rows
      → renew_before ≤ now + key_lifetime
      → other ≤ renew_before
      → (renew_under_lock import_jwk other later second
          (renew_under_lock import_jwk renew_before now pair s).1).1.rows
        ≡ (renew_under_lock import_jwk renew_before now pair s).1.rows
  one_key_for_all_waiters renew_before now pair other later second s c le waits =
      reuse-rows renew_before other later second _
        (renew_under_lock-Current renew_before now pair s c le) waits
