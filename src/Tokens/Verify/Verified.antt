-- ===== src/Tokens/Verify/Verified.antt =====
-- What a token that `verifyAccessToken` accepts has passed.
use auth_sso.Base.{
  ℕ, String, ◌≡◌, refl, ◌∙◌, subst, Bool, true, false, Option, none, some, Among, arith,
  truthy_text, if◌then◌else◌, List, if_cases, ◌≢◌,
}
use auth_sso.Session.Jti.{JtiStore}
use auth_sso.Tokens.Keys.{JwkRow, CachedSigningKey, KeyStore, get_signing_key_by_kid}
use auth_sso.Tokens.Keys.Sound.{IsSound, Answers, get_signing_key_by_kid-Answers}
use auth_sso.Tokens.Verify.{
  Jose, JwtHeader, PortalJwtClaims, typ_fits, jti_revoked, unless_revoked, with_key, with_kid,
  with_header, verify_access_token,
}

module _ (jose : Jose) (token : String) (audience : Option String) where
  -- The row holds a key that the text verifies by.
  abbrev VerifiesBy : ℕ → PortalJwtClaims → JwkRow → Type 0
  VerifiesBy now c row =
      (pk : String) × (jose.import_jwk row.public_key ≡ some pk)
      × (jose.jwt_verify token pk audience now ≡ some c)

  unless_revoked-some :
      (now : ℕ) (jtis : JtiStore) (o : Option PortalJwtClaims) (c : PortalJwtClaims)
      → unless_revoked now jtis o ≡ some c
      → (o ≡ some c) × (jti_revoked now jtis c.jti ≡ false)
  unless_revoked-some now jtis none c h = cc
  unless_revoked-some now jtis (some d) c h = ground arith

  -- It verified by some key at this time, its header could be decoded, and its jti is not blocked.
  abbrev Passed : ℕ → JtiStore → PortalJwtClaims → Type 0
  Passed now jtis c =
      (jose.decode_header token ≢ none)
      × (jti_revoked now jtis c.jti ≡ false)
      × ((pk : String) × (jose.jwt_verify token pk audience now ≡ some c))

  with_key-Passed :
      (now : ℕ) (jtis : JtiStore) (a : Option CachedSigningKey × KeyStore) (c : PortalJwtClaims)
      → jose.decode_header token ≢ none
      → (with_key jose token audience now jtis a).0 ≡ some c
      → Passed now jtis c
  with_key-Passed now jtis (none, keys) c d h = cc
  with_key-Passed now jtis (some key, keys) c d h =
      let (valid, live) = unless_revoked-some now jtis _ c h in (d, live, (key.public_key, valid))

  with_kid-Passed :
      (now : ℕ) (keys : KeyStore) (jtis : JtiStore) (o : Option String) (c : PortalJwtClaims)
      → jose.decode_header token ≢ none
      → (with_kid jose token audience now keys jtis o).0 ≡ some c
      → Passed now jtis c
  with_kid-Passed now keys jtis none c d h = cc
  with_kid-Passed now keys jtis (some kid) c d h =
      if_cases (λ (r : Option PortalJwtClaims × KeyStore). r.0 ≡ some c → Passed now jtis c)
        (truthy_text kid)
        (λ _. with_key-Passed now jtis (get_signing_key_by_kid jose.import_jwk kid now keys) c d)
        (λ _ q. cc) h

  -- In any state of the keys.
  pub verify_access_token-Passed :
      (expected : Option String) (now : ℕ) (keys : KeyStore) (jtis : JtiStore) (c : PortalJwtClaims)
      → (verify_access_token jose token audience expected now keys jtis).0 ≡ some c
      → Passed now jtis c
  unfolding verify_access_token
  verify_access_token-Passed expected now keys jtis c h =
      by_header (jose.decode_header token) refl h
    where
      by_header :
          (o : Option JwtHeader)
          → jose.decode_header token ≡ o
          → (with_header jose token audience expected now keys jtis o).0 ≡ some c
          → Passed now jtis c
      by_header none d q = cc
      by_header (some header) d q =
          if_cases (λ (r : Option PortalJwtClaims × KeyStore). r.0 ≡ some c → Passed now jtis c)
            (typ_fits expected header.typ)
            (λ _. with_kid-Passed now keys jtis header.kid c (λ e. cc)) (λ _ q. cc) q

  with_key-some :
      (kid : String) (now : ℕ) (jtis : JtiStore) (a : Option CachedSigningKey × KeyStore)
      (c : PortalJwtClaims)
      → Answers jose.import_jwk kid a
      → (with_key jose token audience now jtis a).0 ≡ some c
      → (jti_revoked now jtis c.jti ≡ false)
        × ((row : JwkRow) × Among row a.1.rows × (row.kid ≡ kid) × VerifiesBy now c row)
  with_key-some kid now jtis (none, keys) c h e = cc
  with_key-some kid now jtis (some key, keys) c h e =
      let (same, (row, m, (k, _, imported, _))) = h.1 key refl in
      let (valid, live) = unless_revoked-some now jtis _ c e in
      (live, (row, m, k ∙ same, (key.public_key, imported, valid)))

  -- What an accepted token has passed: by its header, the keys and the blocklist.
  abbrev pub Accepted :
      Option String → ℕ → JtiStore → List JwkRow → PortalJwtClaims → JwtHeader → String → Type 0
  Accepted expected now jtis rows c h kid =
      (jose.decode_header token ≡ some h)
      × (typ_fits expected h.typ ≡ true)
      × (h.kid ≡ some kid)
      × (jti_revoked now jtis c.jti ≡ false)
      × ((row : JwkRow) × Among row rows × (row.kid ≡ kid) × VerifiesBy now c row)

  with_kid-some :
      (now : ℕ) (keys : KeyStore) (jtis : JtiStore) (o : Option String) (c : PortalJwtClaims)
      → IsSound jose.import_jwk keys
      → (with_kid jose token audience now keys jtis o).0 ≡ some c
      → (kid : String) × (o ≡ some kid)
        × (jti_revoked now jtis c.jti ≡ false)
        × ((row : JwkRow) × Among row (with_kid jose token audience now keys jtis o).1.rows
            × (row.kid ≡ kid)
            × VerifiesBy now c row)
  with_kid-some now keys jtis none c h e = cc
  with_kid-some now keys jtis (some kid) c h e = test (truthy_text kid) e
    where
      found : Option CachedSigningKey × KeyStore
      found = get_signing_key_by_kid jose.import_jwk kid now keys

      test :
          (b : Bool)
          → (if b then with_key jose token audience now jtis found else (none, keys)).0 ≡ some c
          → (k : String) × (some kid ≡ some k)
            × (jti_revoked now jtis c.jti ≡ false)
            × ((row : JwkRow) × Among row
                  (if b then with_key jose token audience now jtis found else (none, keys)).1.rows
                × (row.kid ≡ k)
                × VerifiesBy now c row)
      test true q =
          let (live, (row, m, k, v)) =
            with_key-some kid now jtis found c
              (get_signing_key_by_kid-Answers jose.import_jwk kid now keys h) q in
          (kid, refl, live, (row, subst (Among row) (rows found) m, k, v))
        where
          rows :
              (a : Option CachedSigningKey × KeyStore)
              → a.1.rows ≡ (with_key jose token audience now jtis a).1.rows
          rows (none, s) = refl
          rows (some key, s) = refl
      test false q = cc

  -- Where the cache of keys is sound, an access token that is accepted has a header of the
  -- expected type, verifies for the audience, at this time, by the key of a row of the table with the
  -- header's kid, and has no jti on the blocklist.
  pub verify_access_token_sound :
      (expected : Option String) (now : ℕ) (keys : KeyStore) (jtis : JtiStore) (c : PortalJwtClaims)
      → IsSound jose.import_jwk keys
      → (verify_access_token jose token audience expected now keys jtis).0 ≡ some c
      → (h : JwtHeader) × (kid : String) × Accepted expected now jtis
          (verify_access_token jose token audience expected now keys jtis).1.rows
          c
          h
          kid
  unfolding verify_access_token
  verify_access_token_sound expected now keys jtis c sound e =
      by_header (jose.decode_header token) refl e
    where
      by_header :
          (o : Option JwtHeader)
          → jose.decode_header token ≡ o
          → (with_header jose token audience expected now keys jtis o).0 ≡ some c
          → (h : JwtHeader) × (kid : String) × Accepted expected now jtis
              (with_header jose token audience expected now keys jtis o).1.rows
              c
              h
              kid
      by_header none d q = cc
      by_header (some h) d q = by_typ (typ_fits expected h.typ) refl q
        where
          by_typ :
              (b : Bool)
              → typ_fits expected h.typ ≡ b
              → (if b then with_kid jose token audience now keys jtis h.kid else (none, keys)).0
                ≡ some c
              → (header : JwtHeader) × (kid : String) × Accepted expected now jtis
                  (if b
                    then with_kid jose token audience now keys jtis h.kid
                    else (none, keys)).1.rows
                  c
                  header
                  kid
          by_typ true t q =
              let (kid, k, live, row) = with_kid-some now keys jtis h.kid c sound q in
              (h, kid, (d, t, k, live, row))
          by_typ false t q = cc
