-- ===== src/Tokens/Keys/Sound.antt =====
-- The cache of signing-keys.ts stands for rows of the table: what the operations answer.
use auth_sso.Base.{
  ℕ, String, Bool, true, false, ◌≡◌, refl, sym, ◌∙◌, subst, ◌⊎◌, inl, inr, Option, none, some, List,
  ◌==◌, if◌then◌else◌, Bool-cases, lookup, remove, if_true, if_false, lookup-insert, lookup-remove,
  find-eq-some, Among, eq_iff, arith, some_inj,
}
use auth_sso.Tokens.Keys.{
  JwkRow, CachedSigningKey, KeyStore, NewPair, fresh_entry, keep_entry, or_load, load_found,
  get_cached_key, create_and_cache_entry, import_row, load_row, get_signing_key_by_kid,
}

fresh_entry-some :
    (now : ℕ) (o : Option CachedSigningKey) (e : CachedSigningKey)
    → fresh_entry now o ≡ some e
    → o ≡ some e
fresh_entry-some now none e h = h
fresh_entry-some now (some c) e h = ground arith

module _ (import_jwk : String → Option String) where
  -- The row holds the keys of the entry.
  abbrev Backs : CachedSigningKey → JwkRow → Type 0
  Backs e r =
      (r.kid ≡ e.key_id)
      × (import_jwk r.private_key ≡ some e.private_key)
      × (import_jwk r.public_key ≡ some e.public_key)
      × (r.public_key ≡ e.public_jwk)

  abbrev Backed : List JwkRow → CachedSigningKey → Type 0
  Backed rows e = (r : JwkRow) × Among r rows × Backs e r

  -- What the stored texts of a new pair import to is the pair.
  abbrev pub IsPair : NewPair → Type 0
  IsPair p =
      (import_jwk p.stored_private ≡ some p.private_key)
      × (import_jwk p.public_jwk ≡ some p.public_key)

  -- Every cached entry stands under its own kid, and holds the keys of a row.
  abbrev pub IsSound : KeyStore → Type 0
  IsSound s =
      (k : String) (e : CachedSigningKey)
      → lookup k s.cache ≡ some e
      → (e.key_id ≡ k) × Backed s.rows e

  -- The state is sound, and an answer is a key of that kid which a row holds.
  abbrev pub Answers : String → Option CachedSigningKey × KeyStore → Type 0
  Answers kid r =
      IsSound r.1 × ((e : CachedSigningKey) → r.0 ≡ some e → (e.key_id ≡ kid) × Backed r.1.rows e)

  IsSound-remove :
      (kid : String) (s : KeyStore) → IsSound s → IsSound (record s { cache = remove kid s.cache })
  IsSound-remove kid s h k e found =
      h k e (removed (kid == k) (sym (lookup-remove kid k s.cache) ∙ found))
    where
      removed :
          (b : Bool) → (if b then none else lookup k s.cache) ≡ some e → lookup k s.cache ≡ some e
      removed true q = cc
      removed false q = q

  keep_entry-Answers :
      (kid : String) (s : KeyStore) (o : Option CachedSigningKey)
      → IsSound s
      → ((e : CachedSigningKey) → o ≡ some e → lookup kid s.cache ≡ some e)
      → Answers kid (keep_entry kid s o)
  keep_entry-Answers kid s none h found = (IsSound-remove kid s h, λ e q. cc)
  keep_entry-Answers kid s (some entry) h found = (h, λ e q. h kid e (found e q))

  get_cached_key-Answers :
      (kid : String) (now : ℕ) (s : KeyStore) → IsSound s → Answers kid (get_cached_key kid now s)
  unfolding get_cached_key
  get_cached_key-Answers kid now s h =
      keep_entry-Answers kid s (fresh_entry now (lookup kid s.cache)) h
        (fresh_entry-some now (lookup kid s.cache))

  pub create_and_cache_entry-Answers :
      (r : JwkRow) (a b : String) (now : ℕ) (s : KeyStore)
      → IsSound s
      → Among r s.rows
      → import_jwk r.private_key ≡ some a
      → import_jwk r.public_key ≡ some b
      → Answers r.kid (create_and_cache_entry r.kid a b r.public_key now s)
  unfolding create_and_cache_entry
  create_and_cache_entry-Answers r a b now s h m p q = (
    λ k e found.
        inserted (Bool-cases (r.kid == k)) e (sym (lookup-insert r.kid k _ s.cache) ∙ found),
    λ e found. backed r.kid e refl (some_inj found),
  )
    where
      entry : CachedSigningKey
      entry = record {
        key_id = r.kid;
        private_key = a;
        public_key = b;
        public_jwk = r.public_key;
        fetched_at = now;
      }

      backed :
          (k : String) (e : CachedSigningKey)
          → r.kid ≡ k
          → entry ≡ e
          → (e.key_id ≡ k) × Backed s.rows e
      backed k e ke ee =
          subst (λ e. (e.key_id ≡ k) × Backed s.rows e) ee (ke, (r, m, (refl, p, q, refl)))

      inserted :
          {k : String}
          → ((r.kid == k) ≡ true) ⊎ ((r.kid == k) ≡ false)
          → (e : CachedSigningKey) → (if r.kid == k then some entry else lookup k s.cache) ≡ some e
          → (e.key_id ≡ k) × Backed s.rows e
      inserted {k} (inl t) e found =
          backed k e ((eq_iff r.kid k).0 t) (some_inj (sym (if_true _ _ t) ∙ found))
      inserted {k} (inr f) e found = h k e (sym (if_false _ _ f) ∙ found)

  import_row-Answers :
      (r : JwkRow) (now : ℕ) (s : KeyStore) (a b : Option String)
      → IsSound s
      → Among r s.rows
      → import_jwk r.private_key ≡ a
      → import_jwk r.public_key ≡ b
      → Answers r.kid (import_row import_jwk r now s a b)
  import_row-Answers r now s (some a) (some b) h m p q =
      create_and_cache_entry-Answers r a b now s h m p q
  import_row-Answers r now s none b h m p q = (h, λ e found. cc)
  import_row-Answers r now s (some a) none h m p q = (h, λ e found. cc)

  -- The row that was found, if any, has the kid that is asked for.
  or_load-Answers :
      (kid : String) (found : Option JwkRow) (now : ℕ) (c : Option CachedSigningKey × KeyStore)
      → Answers kid c
      → ((r : JwkRow) → found ≡ some r → (r.kid ≡ kid) × Among r c.1.rows)
      → Answers kid (or_load import_jwk found now c)
  or_load-Answers kid found now (some e, s) h row = h
  or_load-Answers kid none now (none, s) h row = (h.0, λ e q. cc)
  or_load-Answers kid (some r) now (none, s) h row =
      subst (λ k. Answers k (load_found import_jwk (some r) now s)) (row r refl).0
        (import_row-Answers r now s _ _ h.0 (row r refl).1 refl refl)

  pub get_cached_key-rows :
      (kid : String) (now : ℕ) (s : KeyStore) → (get_cached_key kid now s).1.rows ≡ s.rows
  unfolding get_cached_key
  get_cached_key-rows kid now s = ground arith

  pub load_row-Answers :
      (r : JwkRow) (now : ℕ) (s : KeyStore)
      → IsSound s
      → Among r s.rows
      → Answers r.kid (load_row import_jwk r now s)
  unfolding load_row
  load_row-Answers r now s h m =
      or_load-Answers r.kid (some r) now _ (get_cached_key-Answers r.kid now s h) (λ o q.
        subst (λ o. (o.kid ≡ r.kid) × Among o (get_cached_key r.kid now s).1.rows) (some_inj q)
          (refl, subst (Among r) (sym (get_cached_key-rows r.kid now s)) m))

  -- Where the cache is sound, looking up a kid keeps it sound, and a key that it answers is the key
  -- of that kid, imported from a row of the table.
  pub get_signing_key_by_kid-Answers :
      (kid : String) (now : ℕ) (s : KeyStore)
      → IsSound s
      → Answers kid (get_signing_key_by_kid import_jwk kid now s)
  unfolding get_signing_key_by_kid
  get_signing_key_by_kid-Answers kid now s h =
      or_load-Answers kid _ now _ (get_cached_key-Answers kid now s h) (λ r q.
        let (same, m) = find-eq-some (λ row. row.kid == kid) s.rows r q in
        ((eq_iff r.kid kid).0 same, subst (Among r) (sym (get_cached_key-rows kid now s)) m))
