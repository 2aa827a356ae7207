-- ===== src/Tokens/Rows/Revoked.antt =====
-- The rows that the revocations by a user and by a token's hash leave revoked.
use auth_sso.Base.{
  ℕ, String, Bool, true, ◌≡◌, refl, none, some, List, [], ◌∷◌, ◌==◌, All, All-at, arith,
  find-eq-some,
}
use auth_sso.Tokens.Rows.{
  RefreshToken, is_revoked, mark_revoked, revoke_where, revoke_user_refresh_tokens,
  revoke_refresh_token_by_token_hash, find_by_hash,
}

-- Every row that the test holds of is revoked.
abbrev pub RevokedWhere : (RefreshToken → Bool) → List RefreshToken → Type 0
RevokedWhere test = All (λ r. test r ≡ true → is_revoked r ≡ true)

module _ (test : RefreshToken → Bool) (now : ℕ)
    (same : (r : RefreshToken) → test (mark_revoked now r) ≡ test r) where
  revoke_where-RevokedWhere :
      (rows : List RefreshToken) → RevokedWhere test (revoke_where test now rows)
  unfolding revoke_where
  revoke_where-RevokedWhere [] = tt
  revoke_where-RevokedWhere (r ∷ rows) =
      (λ h. ground (arith, same r), revoke_where-RevokedWhere rows)

  RevokedWhere-revoke_where :
      (other : RefreshToken → Bool) (rows : List RefreshToken)
      → RevokedWhere test rows
      → RevokedWhere test (revoke_where other now rows)
  unfolding revoke_where
  RevokedWhere-revoke_where other [] h = tt
  RevokedWhere-revoke_where other (r ∷ rows) h =
      (λ t. ground (arith, h.0, same r), RevokedWhere-revoke_where other rows h.1)

pub revoke_user-RevokedWhere :
    (user : String) (now : ℕ) (rows : List RefreshToken)
    → RevokedWhere (λ r. r.user_id == user) (revoke_user_refresh_tokens user now rows)
unfolding revoke_user_refresh_tokens
revoke_user-RevokedWhere user now rows =
    revoke_where-RevokedWhere (λ r. r.user_id == user) now (λ r. refl) rows

pub revoke_hash-RevokedWhere :
    (hash : String) (now : ℕ) (rows : List RefreshToken)
    → RevokedWhere
        (λ r. r.token_hash == hash)
        (revoke_refresh_token_by_token_hash hash none now rows)
unfolding revoke_refresh_token_by_token_hash
revoke_hash-RevokedWhere hash now rows =
    revoke_where-RevokedWhere (λ r. r.token_hash == hash) now (λ r. refl) rows

-- A later revocation of a user's tokens keeps the hash revoked.
pub revoke_user-keeps_hash :
    (hash user : String) (now : ℕ) (rows : List RefreshToken)
    → RevokedWhere (λ r. r.token_hash == hash) rows
    → RevokedWhere (λ r. r.token_hash == hash) (revoke_user_refresh_tokens user now rows)
unfolding revoke_user_refresh_tokens
revoke_user-keeps_hash hash user now rows =
    RevokedWhere-revoke_where (λ r. r.token_hash == hash) now (λ r. refl) (λ r. r.user_id == user)
      rows

pub found-IsRevoked :
    (hash : String) (rows : List RefreshToken) (r : RefreshToken)
    → RevokedWhere (λ row. row.token_hash == hash) rows
    → find_by_hash hash rows ≡ some r
    → is_revoked r ≡ true
unfolding find_by_hash
found-IsRevoked hash rows r h found =
    let (meets, among) = find-eq-some (λ row. row.token_hash == hash) rows r found in
    All-at (λ row. (row.token_hash == hash) ≡ true → is_revoked row ≡ true) rows h among meets
