-- ===== src/Tokens/Grant/Issued.antt =====
-- What stands behind the tokens that an exchange issues.
use auth_sso.Base.{
  ◌+◌, ◌*◌, codes, String, ◌≡◌, ◌≢◌, refl, subst, Bool, true, false, Option, none, some, List, [],
  ◌∷◌, ◌++◌, arith, if◌then◌else◌, find, truthy, same_text_iff, or_else, Among, find-eq-some, map,
}
use auth_sso.Permissions.{IssuancePermission, allowed, refused}
use auth_sso.Tokens.Ttl.{clamp_token_ttl, refresh_token_ttl, refresh_bounds}
use auth_sso.Tokens.Access.{SignedToken}
use auth_sso.Tokens.Rows.{RefreshToken}
use auth_sso.Tokens.Codes.{
  AuthorizationCode, claimable, mark_used, use_where, claim_authorization_code, returned,
}
use auth_sso.Tokens.Pkce.{verify_pkce, verify_pkce-digest, unescaped}
use auth_sso.Tokens.Grant.{
  AuthorizationCodeExchange, GrantServices, GrantDraws, GrantState, ExchangeResult,
  OauthTokenResponse, issued, offline, open_id, refresh_row, has_challenge, response, answer_id,
  answer_open_id, insert_refresh, answer_access, answer_permission, answer_pkce, answer_challenge,
  answer_claim, exchange_authorization_code,
}
use auth_sso.Tokens.Grant.Once.{IsClaimable, claimable-IsClaimable, never_issued}

-- The tokens answer for the row of the code: who they are for and with which scope, and that a
-- refresh token and an ID token are among them exactly if the scope asks for them.
pub record Answers (row : AuthorizationCode) (t : OauthTokenResponse) (d : GrantDraws)
    : Type 0 where
  pub same_scope : t.scope ≡ row.scope
  pub refresh_given : t.refresh_token ≡ (if offline row then some d.refresh_token else none)
  pub id_given : open_id row ≡ true → t.id_token ≢ none
  pub id_withheld : open_id row ≡ false → t.id_token ≡ none

issued_inj : {t u : OauthTokenResponse} → issued t ≡ issued u → t ≡ u
issued_inj h = cc

response-Answers :
    (tok : SignedToken) (id_token : Option String) (row : AuthorizationCode)
    (t : OauthTokenResponse) (d : GrantDraws)
    → (open_id row ≡ true → id_token ≢ none)
    → (open_id row ≡ false → id_token ≡ none)
    → response tok (offline row) id_token row d ≡ issued t
    → Answers row t d
response-Answers tok id_token row t d given withheld h =
    subst (λ u. Answers row u d) (issued_inj h)
      (record { same_scope = refl; refresh_given = refl; id_given = given; id_withheld = withheld })

answer_id-Answers :
    (o : Option String) (tok : SignedToken) (row : AuthorizationCode) (t : OauthTokenResponse)
    (d : GrantDraws)
    → open_id row ≡ true
    → answer_id o tok row d ≡ issued t
    → Answers row t d
answer_id-Answers none tok row t d e h = cc
answer_id-Answers (some id_token) tok row t d e h =
    response-Answers tok (some id_token) row t d (λ _ q. cc) (λ w. cc) h

-- What an exchange that issues tokens went through, and what it wrote.
pub record IsIssued (sv : GrantServices) (input : AuthorizationCodeExchange) (d : GrantDraws)
    (row : AuthorizationCode) (t : OauthTokenResponse) (tokens tokens' : List RefreshToken)
    : Type 0 where
  pub answers : Answers row t d
  pub proven :
      (challenge : String) × (row.code_challenge ≡ some challenge)
      × (row.code_challenge_method ≡ some "S256")
      × (sv.atob (map unescaped (codes challenge)) ≡ some (sv.digest input.code_verifier))
  pub stored : tokens' ≡ (
      if offline row
      then tokens
        ++ record {
          id = d.session_id;
          token_hash = sv.base.hash_token d.refresh_token;
          user_id = row.user_id;
          client_id = input.client_id;
          scopes = row.scope;
          revoked = none;
          expires_at =
              d.now
              + clamp_token_ttl input.refresh_token_ttl refresh_token_ttl refresh_bounds * 1000;
          created_at = d.now;
        }
          ∷ []
      else tokens)

module _ (sv : GrantServices) (input : AuthorizationCodeExchange) (d : GrantDraws)
    (row : AuthorizationCode) (t : OauthTokenResponse) where
  answer_open_id-Answers :
      (b : Bool) (tok : SignedToken)
      → open_id row ≡ b
      → answer_open_id sv b tok row input d ≡ issued t
      → Answers row t d
  answer_open_id-Answers true tok e h = answer_id-Answers _ tok row t d e h
  answer_open_id-Answers false tok e h = response-Answers tok none row t d (λ w. cc) (λ _. refl) h

  insert_refresh-if :
      (b : Bool) (rows : List RefreshToken)
      → insert_refresh sv b row input d rows
        ≡ (if b then rows ++ refresh_row sv row input d ∷ [] else rows)
  insert_refresh-if true rows = refl
  insert_refresh-if false rows = refl

  -- The answers and the writes of the steps after the verification.
  Finished : ExchangeResult × GrantState → List RefreshToken → Type 0
  Finished r tokens =
      r.0 ≡ issued t
      → Answers row t d
        × (r.1.auth.tokens
            ≡ (if offline row then tokens ++ refresh_row sv row input d ∷ [] else tokens))

  answer_access-Finished :
      (o : Option SignedToken) (s : GrantState)
      → Finished (answer_access sv o row input d s) s.auth.tokens
  unfolding Finished
  answer_access-Finished none s = λ h. cc
  answer_access-Finished (some tok) s = λ h. (
    answer_open_id-Answers (open_id row) tok refl h,
    insert_refresh-if (offline row) s.auth.tokens,
  )

  answer_permission-Finished :
      (p : IssuancePermission) (s : GrantState)
      → Finished (answer_permission sv p row input d s) s.auth.tokens
  unfolding Finished
  answer_permission-Finished (refused r) s = λ h. cc
  answer_permission-Finished (allowed b) s = answer_access-Finished _ _

  answer_challenge-IsIssued :
      (b : Bool) (s : GrantState)
      → has_challenge row ≡ b
      → (answer_challenge sv b row input d s).0 ≡ issued t
      → IsIssued sv input d row t s.auth.tokens (answer_challenge sv b row input d s).1.auth.tokens
  unfolding Finished
  answer_challenge-IsIssued false s e h = cc
  answer_challenge-IsIssued true s e h =
      verified (verify_pkce sv.digest sv.atob input.code_verifier (or_else row.code_challenge ""))
        refl h
    where
      present : (o : Option String) → truthy o ≡ true → o ≡ some (or_else o "")
      present none q = cc
      present (some c) q = refl

      verified :
          (v : Bool)
          → verify_pkce sv.digest sv.atob input.code_verifier (or_else row.code_challenge "") ≡ v
          → (answer_pkce sv v row input d s).0 ≡ issued t
          → IsIssued sv input d row t s.auth.tokens (answer_pkce sv v row input d s).1.auth.tokens
      verified false w q = cc
      verified true w q =
          let (a, b) = answer_permission-Finished _ _ q in
          record {
            answers = a;
            proven = (
              or_else row.code_challenge "",
              present row.code_challenge (ground (arith, e)),
              (same_text_iff row.code_challenge_method (some "S256")).0 (ground (arith, e)),
              verify_pkce-digest sv.digest sv.atob input.code_verifier
                  (or_else row.code_challenge "") w,
            );
            stored = b;
          }

IsIssued-unmarked :
    {sv : GrantServices} {input : AuthorizationCodeExchange} {d : GrantDraws}
    {row : AuthorizationCode} {t : OauthTokenResponse} {tokens tokens' : List RefreshToken}
    → IsIssued sv input d (mark_used row) t tokens tokens'
    → IsIssued sv input d row t tokens tokens'
IsIssued-unmarked i = record {
  answers = record {
    same_scope = i.answers.same_scope;
    refresh_given = i.answers.refresh_given;
    id_given = i.answers.id_given;
    id_withheld = i.answers.id_withheld;
  };
  proven = i.proven;
  stored = i.stored;
}

abbrev claimed : GrantServices → AuthorizationCodeExchange → GrantDraws → GrantState → GrantState
claimed sv input d s = record s {
  codes =
      use_where (claimable (sv.base.hash_token input.code) input.client_id input.redirect_uri d.now)
        s.codes;
}

-- An exchange that issues tokens found an unused and unexpired row of that code for that client and
-- that redirect URI, whose S256 challenge decodes to the digest of the verifier presented. The
-- tokens have the scope of the row; a refresh token and an ID token are among them exactly if
-- the scope asks for them; and the only change to the table of refresh tokens is one new row, where
-- there is a refresh token: unrevoked, with the hash of that token, the user and the scope of the
-- code and the client that asked, and with the configured lifetime, clamped, as its expiry.
pub exchange_issues :
    (sv : GrantServices) (input : AuthorizationCodeExchange) (d : GrantDraws) (s : GrantState)
    (t : OauthTokenResponse)
    → (exchange_authorization_code sv input d s).0 ≡ issued t
    → (row : AuthorizationCode) × Among row s.codes
      × IsClaimable (sv.base.hash_token input.code) input.client_id input.redirect_uri d.now row
      × IsIssued sv input d row t s.auth.tokens
          (exchange_authorization_code sv input d s).1.auth.tokens
unfolding exchange_authorization_code claim_authorization_code
exchange_issues sv input d s t h =
    split
      (find (claimable (sv.base.hash_token input.code) input.client_id input.redirect_uri d.now)
        s.codes)
      refl h
  where
    split :
        (o : Option AuthorizationCode)
        → find
            (claimable (sv.base.hash_token input.code) input.client_id input.redirect_uri d.now)
            s.codes
          ≡ o
        → (answer_claim sv (returned o) input d (claimed sv input d s)).0 ≡ issued t
        → (row : AuthorizationCode) × Among row s.codes
          × IsClaimable (sv.base.hash_token input.code) input.client_id input.redirect_uri d.now row
          × IsIssued sv input d row t s.auth.tokens
              (answer_claim sv (returned o) input d (claimed sv input d s)).1.auth.tokens
    split none e q = elim (never_issued sv input d s _ _ t q) [ ]
    split (some row) e q =
        let (c, m) = find-eq-some _ s.codes row e in
        (
          row,
          m,
          claimable-IsClaimable _ _ _ _ row c,
          IsIssued-unmarked (
              answer_challenge-IsIssued sv input d (mark_used row) t (has_challenge (mark_used row))
                (claimed sv input d s) refl q),
        )
