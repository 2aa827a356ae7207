-- ===== src/Tokens/Grant/Once.antt =====
-- An authorization code is exchanged at most once, whatever other requests do in between.
use auth_sso.Base.{
  ℕ, String, ◌≡◌, ◌≢◌, refl, sym, ap, ◌∙◌, subst, Bool, true, false, not, ◌||◌, if_true, if_false,
  Option, none, some, List, [], ◌∷◌, arith, ◌==◌, eq_iff, some_inj, false≢true, if◌then◌else◌, ltb,
  find, includes, Unique,
}
use auth_sso.Tokens.Rows.{revoke_refresh_token_family}
use auth_sso.Tokens.Rows.Updates.{FamilyRevoked, revoke_family-FamilyRevoked}
use auth_sso.Tokens.Codes.{
  AuthorizationCode, claimable, mark_used, use_where, claim_authorization_code, consumed,
  find_consumed_code, returned,
}
use auth_sso.Tokens.Grant.{
  AuthorizationCodeExchange, GrantServices, GrantDraws, GrantState, ExchangeResult,
  OauthTokenResponse, issued, replayed, answer_claim, answer_consumed, exchange_authorization_code,
}
use auth_sso.Tokens.Grant.Writes.{
  Spent-use_where, Spent-absent, Gone-writes, claim-Spent, IsSpent, Spent, code_column, CodeWrites,
  Gone, column-use_where,
}

-- What the claim requires of the row.
pub record IsClaimable (hash client uri : String) (now : ℕ) (row : AuthorizationCode) : Type 0 where
  pub same_code : row.code ≡ hash
  pub same_client : row.client_id ≡ client
  pub same_uri : row.redirect_uri ≡ uri
  pub unused : row.used ≡ some false
  pub unexpired : ltb now row.expires_at ≡ true

pub claimable-IsClaimable :
    (hash client uri : String) (now : ℕ) (row : AuthorizationCode)
    → claimable hash client uri now row ≡ true
    → IsClaimable hash client uri now row
claimable-IsClaimable hash client uri now row h = record {
  same_code = (eq_iff row.code hash).0 (ground (arith, h));
  same_client = (eq_iff row.client_id client).0 (ground (arith, h));
  same_uri = (eq_iff row.redirect_uri uri).0 (ground (arith, h));
  unused = unused_flag row.used (ground (arith, h));
  unexpired = ground (arith, h);
}
  where
    unused_flag :
        (o : Option Bool) → elim o [ some b ↦ not b | none ↦ false ] ≡ true → o ≡ some false
    unused_flag none h = cc
    unused_flag (some true) h = cc
    unused_flag (some false) h = refl

found-column :
    (hash client uri : String) (now : ℕ) (rows : List AuthorizationCode) (row : AuthorizationCode)
    → find (claimable hash client uri now) rows ≡ some row
    → includes (code_column rows) hash ≡ true
found-column hash client uri now [] row h = cc
found-column hash client uri now (r ∷ rows) row h =
    ground (arith, h, found-column hash client uri now rows row)

-- A claim that succeeds spends the code.
Gone-claim :
    (hash client uri : String) (now : ℕ) (rows : List AuthorizationCode) (row : AuthorizationCode)
    → Unique (code_column rows)
    → find (claimable hash client uri now) rows ≡ some row
    → Spent hash (row.user_id, client) (use_where (claimable hash client uri now) rows)
unfolding use_where
Gone-claim hash client uri now [] row u h = tt
Gone-claim hash client uri now (r ∷ rows) row u h =
    here (claimable hash client uri now r) refl h (Gone-claim hash client uri now rows row u.1)
  where
    here :
        (b : Bool)
        → claimable hash client uri now r ≡ b
        → (if b then some r else find (claimable hash client uri now) rows) ≡ some row
        → (find (claimable hash client uri now) rows ≡ some row
            → Spent hash (row.user_id, client) (use_where (claimable hash client uri now) rows))
        → ((if b then mark_used r else r).code ≡ hash
            → IsSpent (row.user_id, client) (if b then mark_used r else r))
          × Spent hash (row.user_id, client) (use_where (claimable hash client uri now) rows)
    here true e q k =
        let c = claimable-IsClaimable hash client uri now r e in
        (
          λ _. (refl, ap (λ x. x.user_id) (some_inj q), c.same_client),
          Spent-absent hash (row.user_id, client) (use_where (claimable hash client uri now) rows)
              (ap (λ l. includes l hash) (column-use_where _ rows)
                ∙ ap (includes (code_column rows)) (sym c.same_code)
                ∙ u.0),
        )
    here false e q k = (
      λ w.
          elim (false≢true (
            sym u.0
            ∙ (ap (includes (code_column rows)) w
                ∙ found-column hash client uri now rows row q))) [ ],
      k q,
    )

returned-some :
    (o : Option AuthorizationCode) (row : AuthorizationCode)
    → returned o ≡ some row
    → (r : AuthorizationCode) × (o ≡ some r) × (row.user_id ≡ r.user_id)
returned-some none row h = cc
returned-some (some r) row h = (r, refl, ap (λ x. x.user_id) (sym (some_inj h)))

-- A spent code is found, with its holder.
find-Spent :
    (hash user client : String) (rows : List AuthorizationCode)
    → Gone hash (user, client) rows
    → (row : AuthorizationCode) × (find_consumed_code hash client rows ≡ some row)
      × (row.user_id ≡ user)
      × (row.client_id ≡ client)
unfolding find_consumed_code
find-Spent hash user client [] (i, s) = cc
find-Spent hash user client (r ∷ rows) (i, s) =
    split (r.code == hash) refl i (λ j. find-Spent hash user client rows (j, s.1))
  where
    split :
        (b : Bool)
        → (r.code == hash) ≡ b
        → (b || includes (code_column rows) hash) ≡ true
        → (includes (code_column rows) hash ≡ true
            → (row : AuthorizationCode) × (find_consumed_code hash client rows ≡ some row)
              × (row.user_id ≡ user)
              × (row.client_id ≡ client))
        → (row : AuthorizationCode) × (find_consumed_code hash client (r ∷ rows) ≡ some row)
          × (row.user_id ≡ user)
          × (row.client_id ≡ client)
    split true e j k =
        let (used, same_user, same_client) = s.0 ((eq_iff r.code hash).0 e) in
        (
          r,
          if_true (consumed hash client r) _
              (ground (arith, e, used, (eq_iff r.client_id client).1 same_client)),
          same_user,
          same_client,
        )
    split false e j k =
        let (row, f, u, c) = k j in
        (row, if_false (consumed hash client r) (some r) (ground (arith, e)) ∙ f, u, c)

module _ (sv : GrantServices) (input : AuthorizationCodeExchange) (d : GrantDraws)
    (s : GrantState) where
  abbrev after_claim : List AuthorizationCode
  after_claim =
      use_where (claimable (sv.base.hash_token input.code) input.client_id input.redirect_uri d.now)
        s.codes

  -- Where nothing is claimed, the search for a consumed code decides.
  pub refused_claim :
      find
          (claimable (sv.base.hash_token input.code) input.client_id input.redirect_uri d.now)
          s.codes
        ≡ none
      → exchange_authorization_code sv input d s
        ≡ answer_consumed sv
            (find_consumed_code (sv.base.hash_token input.code) input.client_id after_claim)
            d
            (record s { codes = after_claim })
  unfolding exchange_authorization_code claim_authorization_code
  refused_claim n =
      ap (λ o. answer_claim sv (returned o) input d (record s { codes = after_claim })) n

  pub never_issued :
      (o : Option AuthorizationCode) (s' : GrantState) (t : OauthTokenResponse)
      → (answer_consumed sv o d s').0 ≢ issued t
  never_issued none s' t h = cc
  never_issued (some row) s' t h = cc

  refused_consumed :
      (user : String) (row : AuthorizationCode) (s' : GrantState)
      → row.user_id ≡ user
      → row.client_id ≡ input.client_id
      → ((answer_consumed sv (some row) d s').0 ≡ replayed)
        × FamilyRevoked user input.client_id (answer_consumed sv (some row) d s').1.auth.tokens
  refused_consumed user row s' e f = (
    refl,
    subst
        (λ v.
          FamilyRevoked v input.client_id
            (revoke_refresh_token_family row.user_id row.client_id d.now s'.auth.tokens))
        e
        (subst
          (λ v.
            FamilyRevoked row.user_id v
              (revoke_refresh_token_family row.user_id row.client_id d.now s'.auth.tokens))
          f (revoke_family-FamilyRevoked row.user_id row.client_id d.now s'.auth.tokens)),
  )

  Gone-refuses :
      (user client : String)
      → Gone (sv.base.hash_token input.code) (user, client) s.codes
      → ((t : OauthTokenResponse) → (exchange_authorization_code sv input d s).0 ≢ issued t)
        × (input.client_id ≡ client
            → ((exchange_authorization_code sv input d s).0 ≡ replayed)
              × FamilyRevoked user input.client_id
                  (exchange_authorization_code sv input d s).1.auth.tokens)
  Gone-refuses user client g =
      let hash = sv.base.hash_token input.code in
      let e =
        refused_claim
          (claim-Spent hash (user, client) input.client_id input.redirect_uri d.now s.codes g.1) in
      let s' = record s { codes = after_claim } in
      (
        λ t h.
            never_issued (find_consumed_code hash input.client_id after_claim) s' t
              (sym (ap (λ r. r.0) e) ∙ h),
        λ same.
            let (row, f, same_user, same_client) =
              find-Spent hash user input.client_id after_claim (
                ap (λ l. includes l hash) (column-use_where _ s.codes) ∙ g.0,
                Spent-use_where hash (user, input.client_id) _ s.codes
                    (subst (λ c. Spent hash (user, c) s.codes) (sym same) g.1),
              ) in
            subst
              (λ (r : ExchangeResult × GrantState).
                (r.0 ≡ replayed) × FamilyRevoked user input.client_id r.1.auth.tokens)
              (sym (e ∙ ap (λ o. answer_consumed sv o d s') f))
              (refused_consumed user row s' same_user same_client),
      )

-- Once an exchange has claimed a code, then after any claims of other requests, and any new codes
-- that the UNIQUE constraint of the column admits, no exchange of the same code issues tokens,
-- whoever asks and with whatever verifier. If it is the same client that asks, the answer is that
-- the code was replayed, and every refresh token of the code's user at that client is revoked.
pub code_exchanged_once :
    (sv : GrantServices) (input input' : AuthorizationCodeExchange) (now : ℕ) (d' : GrantDraws)
    (rows : List AuthorizationCode) (row : AuthorizationCode) (s' : GrantState)
    → Unique (code_column rows)
    → (claim_authorization_code
        (sv.base.hash_token input.code)
        input.client_id
        input.redirect_uri
        now
        rows).0
      ≡ some row
    → CodeWrites
        (claim_authorization_code
          (sv.base.hash_token input.code)
          input.client_id
          input.redirect_uri
          now
          rows).1
        s'.codes
    → input'.code ≡ input.code
    → ((t : OauthTokenResponse) → (exchange_authorization_code sv input' d' s').0 ≢ issued t)
      × (input'.client_id ≡ input.client_id
          → ((exchange_authorization_code sv input' d' s').0 ≡ replayed)
            × FamilyRevoked row.user_id input.client_id
                (exchange_authorization_code sv input' d' s').1.auth.tokens)
unfolding claim_authorization_code
code_exchanged_once sv input input' now d' rows row s' u h ws same =
    let hash = sv.base.hash_token input.code in
    let (r, f, e) =
      returned-some (find (claimable hash input.client_id input.redirect_uri now) rows) row h in
    let gone =
      Gone-writes hash (r.user_id, input.client_id) ws
        (
          ap (λ l. includes l hash) (column-use_where _ rows)
              ∙ found-column hash input.client_id input.redirect_uri now rows r f,
          Gone-claim hash input.client_id input.redirect_uri now rows r u f,
        ) in
    let (never, again) = Gone-refuses sv input' d' s' r.user_id input.client_id (
      subst (λ c. Gone (sv.base.hash_token c) (r.user_id, input.client_id) s'.codes) (sym same)
        gone) in
    (
      never,
      λ c.
          let (a, b) = again c in
          (
            a,
            subst
                (λ v.
                  FamilyRevoked v input.client_id
                    (exchange_authorization_code sv input' d' s').1.auth.tokens)
                (sym e)
                (subst
                  (λ v.
                    FamilyRevoked r.user_id v
                      (exchange_authorization_code sv input' d' s').1.auth.tokens)
                  c b),
          ),
    )
