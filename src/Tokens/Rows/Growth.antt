-- ===== src/Tokens/Rows/Growth.antt =====
-- What every operation on refresh tokens does to the table: rows are appended, never removed, and
-- a row only ever changes by being revoked.
use auth_sso.Base.{
  ℕ, String, ◌≡◌, refl, ◌∙◌, Bool, true, false, some, List, [], ◌∷◌, ◌++◌, ◌==◌, if◌then◌else◌,
  subst, Bool-cases, inl, inr, some_inj,
}
use auth_sso.Tokens.Rows.{RefreshToken, is_revoked, mark_revoked, revoke_where, find_by_hash}

-- `u` is the row `r` at a later time.
pub record Later (r u : RefreshToken) : Type 0 where
  pub same_id : u.id ≡ r.id
  pub same_hash : u.token_hash ≡ r.token_hash
  pub same_user : u.user_id ≡ r.user_id
  pub same_client : u.client_id ≡ r.client_id
  pub same_scopes : u.scopes ≡ r.scopes
  pub same_expiry : u.expires_at ≡ r.expires_at
  pub stays_revoked : is_revoked r ≡ true → is_revoked u ≡ true

Later-refl : (r : RefreshToken) → Later r r
Later-refl r = record {
  same_id = refl;
  same_hash = refl;
  same_user = refl;
  same_client = refl;
  same_scopes = refl;
  same_expiry = refl;
  stays_revoked = λ h. h;
}

Later-trans : {r u v : RefreshToken} → Later r u → Later u v → Later r v
Later-trans h k = record {
  same_id = k.same_id ∙ h.same_id;
  same_hash = k.same_hash ∙ h.same_hash;
  same_user = k.same_user ∙ h.same_user;
  same_client = k.same_client ∙ h.same_client;
  same_scopes = k.same_scopes ∙ h.same_scopes;
  same_expiry = k.same_expiry ∙ h.same_expiry;
  stays_revoked = λ e. k.stays_revoked (h.stays_revoked e);
}

Later-mark_revoked : (now : ℕ) (r : RefreshToken) → Later r (mark_revoked now r)
Later-mark_revoked now r = record {
  same_id = refl;
  same_hash = refl;
  same_user = refl;
  same_client = refl;
  same_scopes = refl;
  same_expiry = refl;
  stays_revoked = λ h. refl;
}

Later-if : (b : Bool) (now : ℕ) (r : RefreshToken) → Later r (if b then mark_revoked now r else r)
Later-if true now r = Later-mark_revoked now r
Later-if false now r = Later-refl r

-- Each row of `s` stands at its place in `t`, at a later time.
abbrev pub Grows : List RefreshToken → List RefreshToken → Type 0
Grows [] t = Unit
Grows (r ∷ s) [] = ⊥
Grows (r ∷ s) (u ∷ t) = Later r u × Grows s t

pub Grows-refl : (s : List RefreshToken) → Grows s s
Grows-refl [] = tt
Grows-refl (r ∷ s) = (Later-refl r, Grows-refl s)

pub Grows-trans : (s t u : List RefreshToken) → Grows s t → Grows t u → Grows s u
Grows-trans [] t u h k = tt
Grows-trans (r ∷ s) [] u h k = elim h [ ]
Grows-trans (r ∷ s) (v ∷ t) [] h k = elim k [ ]
Grows-trans (r ∷ s) (v ∷ t) (w ∷ u) h k = (Later-trans h.0 k.0, Grows-trans s t u h.1 k.1)

pub Grows-append : (s t : List RefreshToken) → Grows s (s ++ t)
Grows-append [] t = tt
Grows-append (r ∷ s) t = (Later-refl r, Grows-append s t)

pub Grows-revoke_where :
    (test : RefreshToken → Bool) (now : ℕ) (s : List RefreshToken)
    → Grows s (revoke_where test now s)
unfolding revoke_where
Grows-revoke_where test now [] = tt
Grows-revoke_where test now (r ∷ s) = (Later-if (test r) now r, Grows-revoke_where test now s)

-- The row that a hash finds is found at every later time.
pub find_by_hash-Grows :
    (hash : String) (s t : List RefreshToken) (r : RefreshToken)
    → Grows s t
    → find_by_hash hash s ≡ some r
    → (u : RefreshToken) × (find_by_hash hash t ≡ some u) × Later r u
unfolding find_by_hash
find_by_hash-Grows hash [] t r g h = cc
find_by_hash-Grows hash (x ∷ s) [] r g h = elim g [ ]
find_by_hash-Grows hash (x ∷ s) (y ∷ t) r g h = elim (Bool-cases (x.token_hash == hash)) [
  | inl hit ↦ (y, rw (g.0.same_hash, hit) refl, subst (λ z. Later z y) (some_inj (rw hit at h)) g.0)
  | inr miss ↦ rw (g.0.same_hash, miss) (find_by_hash-Grows hash s t r g.1 (rw miss at h))
]
