-- ===== src/Tokens/Keys/Published.antt =====
-- A token outlives neither its key nor the key's publication by the endpoint of the JWKS.
use auth_sso.Base.{
  ℕ, ◌+◌, ◌*◌, ◌≤◌, ◌<◌, String, true, false, ◌≡◌, refl, sym, subst, inl, inr, Option, none, some,
  List, [], ◌∷◌, ltb, if_cases, lookup, keep, Among, Among-keep, Among-map, arith,
}
use auth_sso.Tokens.Ttl.{access_token_ttl, access_bounds, clamp_token_ttl_bounds}
use auth_sso.Tokens.Access.{AccessRequest, access_claims}
use auth_sso.Tokens.Keys.{
  JwkRow, CachedSigningKey, KeyStore, NewPair, renew_ahead, publish_grace, ends_before, newest,
  row_of, create_and_cache_entry, generate_and_persist_key_pair, load_row, get_signing_key_by_kid,
  load_or_generate, reusable, renew_under_lock, get_active_signing_key, reset_signing_key_cache,
  is_published, published_kids,
}
use auth_sso.Tokens.Keys.Sound.{
  IsPair, IsSound, create_and_cache_entry-Answers, load_row-Answers, get_signing_key_by_kid-Answers,
}
use auth_sso.Tokens.Keys.Lifetime.{
  newest-Among, load_row-rows, get_signing_key_by_kid-rows, get_active_signing_key-Lasts,
}

-- The rows of a kid that are published.
published_kids-Among :
    (time : ℕ) (rows : List JwkRow) (r : JwkRow)
    → Among r rows
    → is_published time r ≡ true
    → Among r.kid (published_kids time rows)
unfolding published_kids
published_kids-Among time rows r m h =
    Among-map (λ row. row.kid) (keep (is_published time) rows) r
      ((Among-keep (is_published time) rows r).1 (m, h))

-- A key that does not end before a day from `now` is published until two hours later still.
is_published-of_ends :
    (now time : ℕ) (r : JwkRow)
    → ends_before (now + renew_ahead) r ≡ false
    → time < now + renew_ahead + publish_grace
    → is_published time r ≡ true
is_published-of_ends now time r h lt = published r.expires_at h
  where
    published :
        (o : Option ℕ)
        → elim o [ none ↦ false | some e ↦ ltb e (now + renew_ahead) ] ≡ false
        → elim o [ none ↦ true | some e ↦ ltb time (e + publish_grace) ] ≡ true
    published none q = refl
    published (some e) q = ground arith

module _ (import_jwk : String → Option String) where
  -- What a request does to the table and the cache: it looks a kid up, loads a row of the table,
  -- or holds the lock. A process that restarts has an empty cache.
  pub data KeyStep : KeyStore → KeyStore → Type 0 where
    looked_up :
        (s : KeyStore) (kid : String) (now : ℕ)
        → KeyStep s (get_signing_key_by_kid import_jwk kid now s).1
    loaded :
        (s : KeyStore) (row : JwkRow) (now : ℕ)
        → Among row s.rows
        → KeyStep s (load_row import_jwk row now s).1
    locked :
        (s : KeyStore) (renew_before now : ℕ) (pair : NewPair)
        → IsPair import_jwk pair
        → KeyStep s (renew_under_lock import_jwk renew_before now pair s).1
    restarted : (s : KeyStore) → KeyStep s (reset_signing_key_cache s)

  pub data KeySteps (s : KeyStore) : KeyStore → Type 0 where
    here : KeySteps s s
    next : {t u : KeyStore} → KeySteps s t → KeyStep t u → KeySteps s u

  emptied-IsSound : (s : KeyStore) → IsSound import_jwk (reset_signing_key_cache s)
  unfolding lookup
  emptied-IsSound s k e found = cc

  generate-IsSound :
      (now : ℕ) (pair : NewPair) (s : KeyStore)
      → IsPair import_jwk pair
      → IsSound import_jwk (generate_and_persist_key_pair now pair (reset_signing_key_cache s)).1
  unfolding generate_and_persist_key_pair row_of lookup
  generate-IsSound now pair s p =
      (create_and_cache_entry-Answers import_jwk (row_of now pair) pair.private_key pair.public_key
        now (record { rows = row_of now pair ∷ s.rows; cache = [] }) (λ k e found. cc) (inl refl)
        p.0 p.1).0

  -- What holds after a load of the newest row and after a generation holds after the lock.
  under_lock {κ} :
      (P : KeyStore → Type κ) (renew_before now : ℕ) (pair : NewPair) (s : KeyStore)
      → P (generate_and_persist_key_pair now pair (reset_signing_key_cache s)).1
      → ((r : JwkRow) → Among r s.rows → P (load_row import_jwk r now s).1)
      → P (renew_under_lock import_jwk renew_before now pair s).1
  unfolding renew_under_lock
  under_lock P renew_before now pair s g l = choose (newest s.rows) (newest-Among s.rows)
    where
      choose :
          (o : Option JwkRow)
          → ((r : JwkRow) → o ≡ some r → Among r s.rows)
          → P (load_or_generate import_jwk (reusable renew_before o) now pair s).1
      choose none m = g
      choose (some r) m =
          if_cases (λ o. P (load_or_generate import_jwk o now pair s).1)
            (ends_before renew_before r) (λ _. g) (λ _. l r (m r refl))

  KeyStep-IsSound : {s t : KeyStore} → KeyStep s t → IsSound import_jwk s → IsSound import_jwk t
  KeyStep-IsSound (looked_up s kid now) h =
      (get_signing_key_by_kid-Answers import_jwk kid now s h).0
  KeyStep-IsSound (loaded s row now m) h = (load_row-Answers import_jwk row now s h m).0
  KeyStep-IsSound (locked s renew_before now pair p) h =
      under_lock (IsSound import_jwk) renew_before now pair s (generate-IsSound now pair s p)
        (λ r m. (load_row-Answers import_jwk r now s h m).0)
  KeyStep-IsSound (restarted s) h = emptied-IsSound s

  KeySteps-IsSound : {s t : KeyStore} → KeySteps s t → IsSound import_jwk s → IsSound import_jwk t
  KeySteps-IsSound here h = h
  KeySteps-IsSound (next steps step) h = KeyStep-IsSound step (KeySteps-IsSound steps h)

  generate-Among :
      (r : JwkRow) (now : ℕ) (pair : NewPair) (s : KeyStore)
      → Among r s.rows
      → Among r (generate_and_persist_key_pair now pair s).1.rows
  unfolding generate_and_persist_key_pair create_and_cache_entry
  generate-Among r now pair s m = inr m

  -- No step takes a row away.
  KeyStep-Among : {s t : KeyStore} (r : JwkRow) → KeyStep s t → Among r s.rows → Among r t.rows
  KeyStep-Among r (looked_up s kid now) m =
      subst (Among r) (sym (get_signing_key_by_kid-rows import_jwk kid now s)) m
  KeyStep-Among r (loaded s row now _) m =
      subst (Among r) (sym (load_row-rows import_jwk row now s)) m
  KeyStep-Among r (locked s renew_before now pair p) m =
      under_lock (λ t. Among r t.rows) renew_before now pair s
        (generate-Among r now pair (reset_signing_key_cache s) m)
        (λ row _. subst (Among r) (sym (load_row-rows import_jwk row now s)) m)
  KeyStep-Among r (restarted s) m = m

  KeySteps-Among : {s t : KeyStore} (r : JwkRow) → KeySteps s t → Among r s.rows → Among r t.rows
  KeySteps-Among r here m = m
  KeySteps-Among r (next steps step) m = KeyStep-Among r step (KeySteps-Among r steps m)

-- From a sound cache, let a request fetch the active key, with any steps of other requests while
-- it waits for the lock, and sign an access token within two hours. Then at every moment before
-- the token expires, after any further steps of any requests and restarts, the endpoint publishes
-- the kid of the key.
pub signing_key_stays_published :
    (import_jwk : String → Option String) (now later time : ℕ) (pair : NewPair)
    (s held final : KeyStore) (e : CachedSigningKey) (r : AccessRequest)
    → IsSound import_jwk s
    → KeySteps import_jwk s held
    → now ≤ later
    → (get_active_signing_key import_jwk now later pair s held).0 ≡ some e
    → KeySteps import_jwk (get_active_signing_key import_jwk now later pair s held).1 final
    → r.now ≤ now + publish_grace
    → time < (access_claims r).exp * 1000
    → Among e.key_id (published_kids time final.rows)
unfolding access_claims
signing_key_stays_published import_jwk now later time pair s held final e r h steps le found after
      soon unexpired =
    let (row, m, kid, lasts) =
      get_active_signing_key-Lasts import_jwk now later pair s held h
        (KeySteps-IsSound import_jwk steps h) le e found in
    subst (λ k. Among k (published_kids time final.rows)) kid
      (published_kids-Among time final.rows row (KeySteps-Among import_jwk row after m) (
        is_published-of_ends now time row lasts
          (omega (arith, clamp_token_ttl_bounds r.client_ttl access_token_ttl access_bounds))))
