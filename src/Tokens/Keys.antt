-- ===== src/Tokens/Keys.antt =====
-- apps/portal/src/lib/auth/token/signing-keys.ts over the table `jwks`, and the endpoint
-- app/api/auth/jwks/route.ts that publishes the public keys. A CryptoKey is a text; its import from
-- a stored text (decryption, JSON.parse and jose) is the parameter `import_jwk`, `none` where that
-- throws. `kid` is NOT NULL, so that `row.kid ?? row.id` is the kid.
pub mod Sound
pub mod Lifetime
pub mod Published
pub mod Once
use auth_sso.Base.{
  ℕ, ◌+◌, ◌*◌, String, Bool, true, false, Option, none, some, List, [], ◌∷◌, map, ◌==◌, ltb, leb,
  if◌then◌else◌, find, keep, lookup, insert, remove,
}

pub record JwkRow : Type 0 where
  pub id : String
  pub kid : String
  pub public_key : String
  pub private_key : String
  pub created_at : ℕ
  pub expires_at : Option ℕ

pub record CachedSigningKey : Type 0 where
  pub key_id : String
  pub private_key : String
  pub public_key : String
  pub public_jwk : String
  pub fetched_at : ℕ

-- The table, and the memory of the process.
pub record KeyStore : Type 0 where
  pub rows : List JwkRow
  pub cache : List (String × CachedSigningKey)

abbrev key_cache_ttl : ℕ
key_cache_ttl = 300000

-- JWKS_RENEW_AHEAD_SECS and JWKS_PUBLISH_GRACE_SECS, in milliseconds.
abbrev pub renew_ahead : ℕ
renew_ahead = 24 * 3600 * 1000

abbrev pub publish_grace : ℕ
publish_grace = 2 * 3600 * 1000

abbrev pub key_lifetime : ℕ
key_lifetime = 90 * 24 * 60 * 60 * 1000

abbrev pub reset_signing_key_cache : KeyStore → KeyStore
reset_signing_key_cache s = record s { cache = [] }

abbrev is_fresh : ℕ → CachedSigningKey → Bool
is_fresh now entry = ltb now (entry.fetched_at + key_cache_ttl)

abbrev pub fresh_entry : ℕ → Option CachedSigningKey → Option CachedSigningKey
fresh_entry now none = none
fresh_entry now (some entry) = if is_fresh now entry then some entry else none

-- An entry that is too old is dropped.
abbrev pub keep_entry :
    String → KeyStore → Option CachedSigningKey → Option CachedSigningKey × KeyStore
keep_entry kid s none = (none, record s { cache = remove kid s.cache })
keep_entry kid s (some entry) = (some entry, s)

unfoldable pub get_cached_key : String → ℕ → KeyStore → Option CachedSigningKey × KeyStore
get_cached_key kid now s = keep_entry kid s (fresh_entry now (lookup kid s.cache))

unfoldable pub create_and_cache_entry :
    String → String → String → String → ℕ → KeyStore → Option CachedSigningKey × KeyStore
create_and_cache_entry kid private_key public_key public_jwk now s =
    let entry : CachedSigningKey = record {
      key_id = kid;
      private_key = private_key;
      public_key = public_key;
      public_jwk = public_jwk;
      fetched_at = now;
    } in
    (some entry, record s { cache = insert kid entry s.cache })

-- The newest of two rows.
abbrev pub newer : JwkRow → Option JwkRow → JwkRow
newer row none = row
newer row (some other) = if leb other.created_at row.created_at then row else other

-- SELECT * FROM jwks ORDER BY created_at DESC LIMIT 1; of equal times, the row inserted last.
unfoldable pub newest : List JwkRow → Option JwkRow
newest [] = none
newest (row ∷ rows) = some (newer row (newest rows))

-- Whether the row's key ends before the time; one with no end never does.
abbrev pub ends_before : ℕ → JwkRow → Bool
ends_before time row = elim row.expires_at [ none ↦ false | some e ↦ ltb e time ]

abbrev pub needs_generation : ℕ → Option JwkRow → Bool
needs_generation renew_before none = true
needs_generation renew_before (some row) = ends_before renew_before row

-- What the generator draws: the pair, as CryptoKeys and as the texts that are stored.
pub record NewPair : Type 0 where
  pub id : String
  pub kid : String
  pub private_key : String
  pub public_key : String
  pub public_jwk : String
  pub stored_private : String

unfoldable pub row_of : ℕ → NewPair → JwkRow
row_of now pair = record {
  id = pair.id;
  kid = pair.kid;
  public_key = pair.public_jwk;
  private_key = pair.stored_private;
  created_at = now;
  expires_at = some (now + key_lifetime);
}

unfoldable pub generate_and_persist_key_pair :
    ℕ → NewPair → KeyStore → Option CachedSigningKey × KeyStore
generate_and_persist_key_pair now pair s =
    create_and_cache_entry pair.kid pair.private_key pair.public_key pair.public_jwk now
      (record s { rows = row_of now pair ∷ s.rows })

abbrev pub reusable : ℕ → Option JwkRow → Option JwkRow
reusable renew_before none = none
reusable renew_before (some row) = if ends_before renew_before row then none else some row

module _ (import_jwk : String → Option String) where
  -- The import of the two keys of a row, each of which may throw.
  abbrev pub import_row :
      JwkRow → ℕ → KeyStore → Option String → Option String → Option CachedSigningKey × KeyStore
  import_row row now s (some private_key) (some public_key) =
      create_and_cache_entry row.kid private_key public_key row.public_key now s
  import_row row now s _ _ = (none, s)

  abbrev pub load_found : Option JwkRow → ℕ → KeyStore → Option CachedSigningKey × KeyStore
  load_found none now s = (none, s)
  load_found (some row) now s =
      import_row row now s (import_jwk row.private_key) (import_jwk row.public_key)

  -- `if (cached) return cached`, or else the row.
  abbrev pub or_load :
      Option JwkRow → ℕ → Option CachedSigningKey × KeyStore → Option CachedSigningKey × KeyStore
  or_load found now (some entry, s) = (some entry, s)
  or_load found now (none, s) = load_found found now s

  unfoldable pub load_row : JwkRow → ℕ → KeyStore → Option CachedSigningKey × KeyStore
  load_row row now s = or_load (some row) now (get_cached_key row.kid now s)

  -- `none` is also the answer where no row has the kid.
  unfoldable pub get_signing_key_by_kid : String → ℕ → KeyStore → Option CachedSigningKey × KeyStore
  get_signing_key_by_kid kid now s =
      or_load (find (λ row. row.kid == kid) s.rows) now (get_cached_key kid now s)

  abbrev pub load_or_generate :
      Option JwkRow → ℕ → NewPair → KeyStore → Option CachedSigningKey × KeyStore
  load_or_generate none now pair s =
      generate_and_persist_key_pair now pair (reset_signing_key_cache s)
  load_or_generate (some row) now pair s = load_row row now s

  abbrev pub load_newest : Option JwkRow → ℕ → KeyStore → Option CachedSigningKey × KeyStore
  load_newest none now s = (none, s)
  load_newest (some row) now s = load_row row now s

  -- What runs under the lock: `reuseConcurrentlyCreatedKey`, or else a new pair.
  unfoldable pub renew_under_lock : ℕ → ℕ → NewPair → KeyStore → Option CachedSigningKey × KeyStore
  renew_under_lock renew_before now pair s =
      load_or_generate (reusable renew_before (newest s.rows)) now pair s

  -- The table is read at `now` in the first state; where the lock is needed, it is held from
  -- `later` on, in the second state.
  unfoldable pub get_active_signing_key :
      ℕ → ℕ → NewPair → KeyStore → KeyStore → Option CachedSigningKey × KeyStore
  get_active_signing_key now later pair s held =
      let first = newest s.rows in
      if needs_generation (now + renew_ahead) first
      then renew_under_lock (now + renew_ahead) later pair held
      else load_newest first now s

-- WHERE expires_at > now - grace OR expires_at IS NULL
abbrev pub is_published : ℕ → JwkRow → Bool
is_published now row = elim row.expires_at [ none ↦ true | some e ↦ ltb now (e + publish_grace) ]

-- The kids that the endpoint answers.
unfoldable pub published_kids : ℕ → List JwkRow → List String
published_kids now rows = map (λ row. row.kid) (keep (is_published now) rows)
