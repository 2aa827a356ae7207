-- ===== src/Tokens/Grant/Writes.antt =====
-- What requests do to the table of authorization codes, and the codes that stay spent under it.
use auth_sso.Base.{
  ℕ, String, ◌≡◌, refl, ap, ◌∙◌, Bool, true, false, none, some, List, [], ◌∷◌, ◌++◌, arith, eq_iff,
  find, includes,
}
use auth_sso.Tokens.Codes.{AuthorizationCode, claimable, use_where, claim_authorization_code}

abbrev Holder : Type 0
Holder = String × String

-- Every row of this code is used, and was issued to this user for this client.
abbrev pub IsSpent : Holder → AuthorizationCode → Type 0
IsSpent (user, client) row =
    (row.used ≡ some true) × (row.user_id ≡ user) × (row.client_id ≡ client)

abbrev pub Spent : String → Holder → List AuthorizationCode → Type 0
Spent hash o [] = Unit
Spent hash o (row ∷ rows) = (row.code ≡ hash → IsSpent o row) × Spent hash o rows

-- The column has a UNIQUE constraint.
abbrev pub code_column : List AuthorizationCode → List String
code_column [] = []
code_column (row ∷ rows) = row.code ∷ code_column rows

-- What requests do to the table: claims, and new codes that the constraint admits.
pub data CodeWrite : List AuthorizationCode → List AuthorizationCode → Type 0 where
  claim :
      (hash client uri : String) (now : ℕ) (rows : List AuthorizationCode)
      → CodeWrite rows (claim_authorization_code hash client uri now rows).1
  issue :
      (row : AuthorizationCode) (rows : List AuthorizationCode)
      → includes (code_column rows) row.code ≡ false
      → CodeWrite rows (rows ++ row ∷ [])

pub data CodeWrites (rows : List AuthorizationCode) : List AuthorizationCode → Type 0 where
  done : CodeWrites rows rows
  more : {t u : List AuthorizationCode} → CodeWrites rows t → CodeWrite t u → CodeWrites rows u

-- The code is known and spent.
abbrev pub Gone : String → Holder → List AuthorizationCode → Type 0
Gone hash o rows = (includes (code_column rows) hash ≡ true) × Spent hash o rows

pub column-use_where :
    (test : AuthorizationCode → Bool) (rows : List AuthorizationCode)
    → code_column (use_where test rows) ≡ code_column rows
unfolding use_where
column-use_where test [] = refl
column-use_where test (row ∷ rows) = ground (arith, column-use_where test rows)

module _ (hash : String) (o : Holder) where
  pub Spent-use_where :
      (test : AuthorizationCode → Bool) (rows : List AuthorizationCode)
      → Spent hash o rows
      → Spent hash o (use_where test rows)
  unfolding use_where
  Spent-use_where test [] h = tt
  Spent-use_where test (row ∷ rows) (h, k) =
      (λ e. ground (arith, h, e), Spent-use_where test rows k)

  Spent-issue :
      (row : AuthorizationCode) (rows : List AuthorizationCode)
      → (row.code ≡ hash → ⊥)
      → Spent hash o rows
      → Spent hash o (rows ++ row ∷ [])
  Spent-issue row [] n h = (λ e. elim (n e) [ ], tt)
  Spent-issue row (r ∷ rows) n (h, k) = (h, Spent-issue row rows n k)

  column-issue :
      (row : AuthorizationCode) (rows : List AuthorizationCode)
      → includes (code_column rows) hash ≡ true
      → includes (code_column (rows ++ row ∷ [])) hash ≡ true
  column-issue row [] h = cc
  column-issue row (r ∷ rows) h = ground (arith, h, column-issue row rows)

  Gone-write :
      {rows rows' : List AuthorizationCode}
      → CodeWrite rows rows'
      → Gone hash o rows
      → Gone hash o rows'
  unfolding claim_authorization_code
  Gone-write (claim h c u n rows) (i, s) =
      (ap (λ l. includes l hash) (column-use_where _ rows) ∙ i, Spent-use_where _ rows s)
  Gone-write (issue row rows n) (i, s) = (column-issue row rows i, Spent-issue row rows (λ e. cc) s)

  pub Gone-writes :
      {rows rows' : List AuthorizationCode}
      → CodeWrites rows rows'
      → Gone hash o rows
      → Gone hash o rows'
  Gone-writes done g = g
  Gone-writes (more ws w) g = Gone-write w (Gone-writes ws g)

  pub Spent-absent :
      (rows : List AuthorizationCode) → includes (code_column rows) hash ≡ false → Spent hash o rows
  Spent-absent [] h = tt
  Spent-absent (row ∷ rows) h =
      (λ e. ground (arith, h, e, eq_iff row.code hash), Spent-absent rows (ground (arith, h)))

  -- A spent code is not claimed again.
  pub claim-Spent :
      (client uri : String) (now : ℕ) (rows : List AuthorizationCode)
      → Spent hash o rows
      → find (claimable hash client uri now) rows ≡ none
  claim-Spent client uri now [] h = refl
  claim-Spent client uri now (row ∷ rows) (h, k) =
      ground (arith, h, eq_iff row.code hash, claim-Spent client uri now rows k)
