-- ===== src/Tokens/Rows/Owned.antt =====
-- What a revocation by a token's hash, limited to a client, does to the rows of that client and of
-- the others.
use auth_sso.Base.{
  ℕ, String, ◌≡◌, ◌≢◌, refl, sym, ◌∙◌, Bool, true, false, ◌&&◌, some, List, [], ◌∷◌, ◌==◌, eq_iff,
  arith, find, keep, if◌then◌else◌, truthy_text, some_inj, if_true, if_false, false≢true, subst,
  Bool-cases, inl, inr,
}
use auth_sso.Tokens.Rows.{
  RefreshToken, is_revoked, mark_revoked, revoke_where, hash_clause,
  revoke_refresh_token_by_token_hash,
}
use auth_sso.Tokens.Rows.Growth.{Grows, Later, Grows-revoke_where}

abbrev pub owned_by : String → String → RefreshToken → Bool
owned_by hash client row = row.token_hash == hash && row.client_id == client

hash_clause-owned :
    (hash client : String) (x : RefreshToken)
    → owned_by hash client x ≡ true
    → hash_clause hash (some client) x ≡ true
hash_clause-owned hash client x h = ground arith

pub revoked-owned :
    (hash client : String) (now : ℕ) (rows : List RefreshToken) (r : RefreshToken)
    → find (owned_by hash client) (revoke_refresh_token_by_token_hash hash (some client) now rows)
      ≡ some r
    → is_revoked r ≡ true
unfolding revoke_refresh_token_by_token_hash revoke_where
revoked-owned hash client now [] r h = cc
revoked-owned hash client now (x ∷ rows) r h =
    at_row (owned_by hash client x) refl (hash_clause hash (some client) x)
      (hash_clause-owned hash client x) h (revoked-owned hash client now rows r)
  where
    at_row :
        (b : Bool)
        → owned_by hash client x ≡ b
        → (t : Bool) → (owned_by hash client x ≡ true → t ≡ true)
        → find (owned_by hash client) (
            (if t then mark_revoked now x else x)
            ∷ revoke_where (hash_clause hash (some client)) now rows)
          ≡ some r
        → (find (owned_by hash client) (revoke_where (hash_clause hash (some client)) now rows)
              ≡ some r
            → is_revoked r ≡ true)
        → is_revoked r ≡ true
    at_row true o true k q ih =
        subst (λ row. is_revoked row ≡ true) (some_inj (sym (if_true _ _ o) ∙ q)) refl
    at_row true o false k q ih = absurd (false≢true (k o))
    at_row false o true k q ih = ih (sym (if_false _ _ o) ∙ q)
    at_row false o false k q ih = ih (sym (if_false _ _ o) ∙ q)

-- A client's row of a hash is found at every later time.
find-Grows :
    (hash client : String) (s t : List RefreshToken) (r : RefreshToken)
    → Grows s t
    → find (owned_by hash client) s ≡ some r
    → (u : RefreshToken) × (find (owned_by hash client) t ≡ some u) × Later r u
find-Grows hash client [] t r g h = cc
find-Grows hash client (x ∷ s) [] r g h = elim g [ ]
find-Grows hash client (x ∷ s) (y ∷ t) r g h = elim (Bool-cases (owned_by hash client x)) [
  | inl hit ↦ (
    y,
    if_true (owned_by hash client y) _ (same g.0 ∙ hit),
    subst (λ z. Later z y) (some_inj (sym (if_true (owned_by hash client x) _ hit) ∙ h)) g.0,
  )
  | inr miss ↦
      let (u, found, later) =
        find-Grows hash client s t r g.1 (sym (if_false (owned_by hash client x) _ miss) ∙ h) in
      (u, if_false (owned_by hash client y) _ (same g.0 ∙ miss) ∙ found, later)
]
  where
    same : Later x y → owned_by hash client y ≡ owned_by hash client x
    same l = rw (l.same_hash, l.same_client) refl

-- A row that was there when the client revoked the token is the one that is found later, and revoked.
pub revoked-later :
    (hash client : String) (now : ℕ) (rows later : List RefreshToken) (r u : RefreshToken)
    → find (owned_by hash client) rows ≡ some r
    → Grows (revoke_refresh_token_by_token_hash hash (some client) now rows) later
    → find (owned_by hash client) later ≡ some u
    → is_revoked u ≡ true
unfolding revoke_refresh_token_by_token_hash
revoked-later hash client now rows later r u listed grows found =
    let revoked = revoke_where (hash_clause hash (some client)) now rows in
    let (v, at, _) =
      find-Grows hash client rows revoked r
        (Grows-revoke_where (hash_clause hash (some client)) now rows) listed in
    let (w, end, stays) = find-Grows hash client revoked later v grows at in
    subst (λ (x : RefreshToken). is_revoked x ≡ true) (some_inj (sym end ∙ found))
      (stays.stays_revoked (revoked-owned hash client now rows v at))

pub keep-other_client :
    (hash client other : String) (now : ℕ) (rows : List RefreshToken)
    → truthy_text client ≡ true
    → other ≢ client
    → keep
        (λ row. row.client_id == other)
        (revoke_refresh_token_by_token_hash hash (some client) now rows)
      ≡ keep (λ row. row.client_id == other) rows
unfolding revoke_refresh_token_by_token_hash revoke_where
keep-other_client hash client other now [] t ne = refl
keep-other_client hash client other now (x ∷ rows) t ne = ground (
  arith,
  keep-other_client hash client other now rows t ne,
  eq_iff x.client_id client,
  eq_iff x.client_id other,
)
