-- ===== src/Tokens/Keys/Lifetime.antt =====
-- How long the keys of signing-keys.ts serve: the active key, and its publication.
use auth_sso.Base.{
  ℕ, ◌+◌, ◌≤◌, String, Bool, true, false, ◌≡◌, refl, sym, ap, ◌∙◌, subst, ◌⊎◌, inl, inr, Option,
  none, some, List, [], ◌∷◌, leb, if◌then◌else◌, if_cases, Among, arith, some_inj,
}
use auth_sso.Tokens.Keys.{
  JwkRow, CachedSigningKey, KeyStore, NewPair, renew_ahead, key_lifetime, create_and_cache_entry,
  newest, newer, ends_before, needs_generation, row_of, generate_and_persist_key_pair, import_row,
  load_row, or_load, get_signing_key_by_kid, load_or_generate, load_newest, reusable,
  renew_under_lock, get_active_signing_key, reset_signing_key_cache,
}
use auth_sso.Tokens.Keys.Sound.{IsSound, get_cached_key-rows, load_row-Answers}

pub newest-Among : (rows : List JwkRow) (r : JwkRow) → newest rows ≡ some r → Among r rows
unfolding newest
newest-Among [] r h = cc
newest-Among (x ∷ rows) r h = pick (newest rows) (newest-Among rows) (some_inj h)
  where
    pick :
        (o : Option JwkRow)
        → ((y : JwkRow) → o ≡ some y → Among y rows)
        → newer x o ≡ r
        → (r ≡ x) ⊎ Among r rows
    pick none m e = inl (sym e)
    pick (some y) m e = choose (leb y.created_at x.created_at) e
      where
        choose : (b : Bool) → (if b then x else y) ≡ r → (r ≡ x) ⊎ Among r rows
        choose true e = inl (sym e)
        choose false e = inr (subst (λ z. Among z rows) e (m y refl))

-- The answer is the key of a row that does not end before the time.
abbrev Lasts : ℕ → Option CachedSigningKey × KeyStore → Type 0
Lasts time r =
    (e : CachedSigningKey)
    → r.0 ≡ some e
    → (row : JwkRow) × Among row r.1.rows × (row.kid ≡ e.key_id) × (ends_before time row ≡ false)

generate-Lasts :
    (time now : ℕ) (pair : NewPair) (s : KeyStore)
    → time ≤ now + key_lifetime
    → Lasts time (generate_and_persist_key_pair now pair s)
unfolding generate_and_persist_key_pair create_and_cache_entry row_of
generate-Lasts time now pair s h e found = (
  row_of now pair,
  inl refl,
  ap (λ (k : CachedSigningKey). k.key_id) (some_inj found),
  ground arith,
)

module _ (import_jwk : String → Option String) where
  import_row-rows :
      (r : JwkRow) (now : ℕ) (s : KeyStore) (a b : Option String)
      → (import_row import_jwk r now s a b).1.rows ≡ s.rows
  unfolding create_and_cache_entry
  import_row-rows r now s (some a) (some b) = refl
  import_row-rows r now s (some a) none = refl
  import_row-rows r now s none b = refl

  or_load-rows :
      (found : Option JwkRow) (now : ℕ) (c : Option CachedSigningKey × KeyStore)
      → (or_load import_jwk found now c).1.rows ≡ c.1.rows
  or_load-rows found now (some e, s) = refl
  or_load-rows none now (none, s) = refl
  or_load-rows (some r) now (none, s) = import_row-rows r now s _ _

  pub load_row-rows :
      (r : JwkRow) (now : ℕ) (s : KeyStore) → (load_row import_jwk r now s).1.rows ≡ s.rows
  unfolding load_row
  load_row-rows r now s = or_load-rows (some r) now _ ∙ get_cached_key-rows import_jwk r.kid now s

  pub get_signing_key_by_kid-rows :
      (kid : String) (now : ℕ) (s : KeyStore)
      → (get_signing_key_by_kid import_jwk kid now s).1.rows ≡ s.rows
  unfolding get_signing_key_by_kid
  get_signing_key_by_kid-rows kid now s =
      or_load-rows _ now _ ∙ get_cached_key-rows import_jwk kid now s

  load_row-Lasts :
      (time : ℕ) (r : JwkRow) (now : ℕ) (s : KeyStore)
      → IsSound import_jwk s
      → Among r s.rows
      → ends_before time r ≡ false
      → Lasts time (load_row import_jwk r now s)
  load_row-Lasts time r now s h m ends e found = (
    r,
    subst (Among r) (sym (load_row-rows r now s)) m,
    sym ((load_row-Answers import_jwk r now s h m).1 e found).0,
    ends,
  )

  renew_under_lock-Lasts :
      (renew_before now : ℕ) (pair : NewPair) (s : KeyStore)
      → IsSound import_jwk s
      → renew_before ≤ now + key_lifetime
      → Lasts renew_before (renew_under_lock import_jwk renew_before now pair s)
  unfolding renew_under_lock
  renew_under_lock-Lasts renew_before now pair s h le = choose (newest s.rows) (newest-Among s.rows)
    where
      choose :
          (o : Option JwkRow)
          → ((r : JwkRow) → o ≡ some r → Among r s.rows)
          → Lasts renew_before (load_or_generate import_jwk (reusable renew_before o) now pair s)
      choose none m = generate-Lasts renew_before now pair (reset_signing_key_cache s) le
      choose (some r) m =
          if_cases (λ o. Lasts renew_before (load_or_generate import_jwk o now pair s))
            (ends_before renew_before r)
            (λ _. generate-Lasts renew_before now pair (reset_signing_key_cache s) le)
            (load_row-Lasts renew_before r now s h (m r refl))

  pub get_active_signing_key-Lasts :
      (now later : ℕ) (pair : NewPair) (s held : KeyStore)
      → IsSound import_jwk s
      → IsSound import_jwk held
      → now ≤ later
      → Lasts (now + renew_ahead) (get_active_signing_key import_jwk now later pair s held)
  unfolding get_active_signing_key
  get_active_signing_key-Lasts now later pair s held h k le =
      choose (newest s.rows) (newest-Among s.rows)
    where
      locked :
          Lasts
            (now + renew_ahead)
            (renew_under_lock import_jwk (now + renew_ahead) later pair held)
      locked = renew_under_lock-Lasts (now + renew_ahead) later pair held k (omega arith)

      choose :
          (o : Option JwkRow)
          → ((r : JwkRow) → o ≡ some r → Among r s.rows)
          → Lasts (now + renew_ahead) (
              if needs_generation (now + renew_ahead) o
              then renew_under_lock import_jwk (now + renew_ahead) later pair held
              else load_newest import_jwk o now s)
      choose none m = locked
      choose (some r) m =
          if_cases (Lasts (now + renew_ahead)) (ends_before (now + renew_ahead) r) (λ _. locked)
            (load_row-Lasts (now + renew_ahead) r now s h (m r refl))
