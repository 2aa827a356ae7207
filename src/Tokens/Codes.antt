-- ===== src/Tokens/Codes.antt =====
-- The table `authorization_codes` (apps/portal/src/db/schema/auth.ts), with the claim and the search
-- for a consumed code of apps/portal/src/lib/auth/oauth-grant.ts.
use auth_sso.Base.{
  ℕ, String, Bool, true, false, not, ◌&&◌, Option, none, some, List, [], ◌∷◌, ◌==◌, ltb,
  if◌then◌else◌, find,
}

-- A row of `authorization_codes`; `code` is the hash of the code's text.
pub record AuthorizationCode : Type 0 where
  pub code : String
  pub client_id : String
  pub user_id : String
  pub redirect_uri : String
  pub scope : String
  pub nonce : Option String
  pub code_challenge : Option String
  pub code_challenge_method : Option String
  pub expires_at : ℕ
  pub used : Option Bool
  pub created_at : ℕ

-- The WHERE clause of the claim.
abbrev pub claimable : String → String → String → ℕ → AuthorizationCode → Bool
claimable hash client uri now row =
    row.code == hash
    && (row.client_id == client
        && (row.redirect_uri == uri
            && (elim row.used [ some b ↦ not b | none ↦ false ] && ltb now row.expires_at)))

abbrev pub mark_used : AuthorizationCode → AuthorizationCode
mark_used row = record row { used = some true }

-- UPDATE ... SET used = true WHERE test
unfoldable pub use_where :
    (AuthorizationCode → Bool) → List AuthorizationCode → List AuthorizationCode
use_where test [] = []
use_where test (row ∷ rows) = (if test row then mark_used row else row) ∷ use_where test rows

abbrev pub returned : Option AuthorizationCode → Option AuthorizationCode
returned none = none
returned (some row) = some (mark_used row)

-- The first row that RETURNING gives, and the table.
unfoldable pub claim_authorization_code :
    String
    → String
    → String
    → ℕ
    → List AuthorizationCode
    → Option AuthorizationCode × List AuthorizationCode
claim_authorization_code hash client uri now rows = (
  returned (find (claimable hash client uri now) rows),
  use_where (claimable hash client uri now) rows,
)

abbrev pub consumed : String → String → AuthorizationCode → Bool
consumed hash client row =
    row.code == hash && (row.client_id == client && elim row.used [ some b ↦ b | none ↦ false ])

unfoldable pub find_consumed_code :
    String → String → List AuthorizationCode → Option AuthorizationCode
find_consumed_code hash client rows = find (consumed hash client) rows
