-- ===== src/Tokens/Rows.antt =====
-- The table `refresh_tokens` (apps/portal/src/db/schema/auth.ts) and
-- apps/portal/src/lib/auth/token/revocation.ts. A table is the list of its rows; an UPDATE maps its
-- rows by the WHERE clause of the source, and a time is a number of milliseconds.
pub mod Growth
pub mod Updates
pub mod Owned
pub mod Revoked
use auth_sso.Base.{
  ℕ, zero, suc, String, Bool, true, false, ◌&&◌, Option, none, some, List, [], ◌∷◌, map, ◌==◌,
  if◌then◌else◌, includes, truthy, find, keep, length,
}

pub record RefreshToken : Type 0 where
  pub id : String
  pub token_hash : String
  pub user_id : String
  pub client_id : String
  pub scopes : String
  pub revoked : Option ℕ
  pub expires_at : ℕ
  pub created_at : ℕ

-- .set({ revoked: now })
abbrev pub mark_revoked : ℕ → RefreshToken → RefreshToken
mark_revoked now row = record row { revoked = some now }

-- `if (row.revoked)`
abbrev pub is_revoked : RefreshToken → Bool
is_revoked row = elim row.revoked [ none ↦ false | some _ ↦ true ]

-- UPDATE refresh_tokens SET revoked = now WHERE test
unfoldable pub revoke_where : (RefreshToken → Bool) → ℕ → List RefreshToken → List RefreshToken
revoke_where test now [] = []
revoke_where test now (row ∷ rows) =
    (if test row then mark_revoked now row else row) ∷ revoke_where test now rows

unfoldable pub revoke_refresh_token_by_id : String → ℕ → List RefreshToken → List RefreshToken
revoke_refresh_token_by_id id = revoke_where (λ row. row.id == id)

-- The second argument is `opts?.clientId`; the empty text is falsy.
abbrev hash_clause : String → Option String → RefreshToken → Bool
hash_clause hash none row = row.token_hash == hash
hash_clause hash (some client) row =
    if truthy (some client)
    then row.token_hash == hash && row.client_id == client
    else row.token_hash == hash

unfoldable pub revoke_refresh_token_by_token_hash :
    String → Option String → ℕ → List RefreshToken → List RefreshToken
revoke_refresh_token_by_token_hash hash client = revoke_where (hash_clause hash client)

-- The clause of a family: the tokens of one user at one client.
abbrev pub in_family : String → String → RefreshToken → Bool
in_family user client row = row.user_id == user && row.client_id == client

unfoldable pub revoke_refresh_token_family :
    String → String → ℕ → List RefreshToken → List RefreshToken
revoke_refresh_token_family user client = revoke_where (in_family user client)

unfoldable pub revoke_user_refresh_tokens : String → ℕ → List RefreshToken → List RefreshToken
revoke_user_refresh_tokens user = revoke_where (λ row. row.user_id == user)

-- `opts?.tokenIds`: an empty list counts as none.
abbrev client_clause : String → Option (List String) → RefreshToken → Bool
client_clause client (some (id ∷ ids)) row =
    row.client_id == client
    && (includes (id ∷ ids) row.id && elim row.revoked [ none ↦ true | some _ ↦ false ])
client_clause client _ row =
    row.client_id == client && elim row.revoked [ none ↦ true | some _ ↦ false ]

-- The updated table, and the number of rows that the UPDATE returned.
unfoldable pub revoke_client_refresh_tokens :
    String → Option (List String) → ℕ → List RefreshToken → List RefreshToken × ℕ
revoke_client_refresh_tokens client ids now rows = (
  revoke_where (client_clause client ids) now rows,
  length (keep (client_clause client ids) rows),
)

-- SELECT ... WHERE token_hash = hash LIMIT 1
unfoldable pub find_by_hash : String → List RefreshToken → Option RefreshToken
find_by_hash hash = find (λ row. row.token_hash == hash)
