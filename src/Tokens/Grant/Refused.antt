-- ===== src/Tokens/Grant/Refused.antt =====
-- An exchange that claims no row: the code stays as it was, for its client to present again.
use auth_sso.Base.{
  ◌≡◌, ◌≢◌, refl, sym, ap, ◌∙◌, subst, Bool, Option, none, some, List, [], ◌∷◌, arith, find,
}
use auth_sso.Tokens.Rows.{revoke_refresh_token_family}
use auth_sso.Tokens.Codes.{AuthorizationCode, claimable, use_where, find_consumed_code}
use auth_sso.Tokens.Grant.{
  AuthorizationCodeExchange, GrantServices, GrantDraws, GrantState, ExchangeResult, replayed,
  answer_consumed, exchange_authorization_code,
}
use auth_sso.Tokens.Grant.Once.{refused_claim}

use_where-none :
    (test : AuthorizationCode → Bool) (rows : List AuthorizationCode)
    → find test rows ≡ none
    → use_where test rows ≡ rows
unfolding use_where
use_where-none test [] h = refl
use_where-none test (row ∷ rows) h = ground (arith, h, use_where-none test rows)

-- How a refused exchange is answered, by the row of a consumed code.
abbrev Refusal :
    Option AuthorizationCode → GrantDraws → GrantState → ExchangeResult × GrantState → Type 0
Refusal none d s r = (r.0 ≢ replayed) × (r.1 ≡ s)
Refusal (some row) d s r =
    (r.0 ≡ replayed)
    × (r.1.codes ≡ s.codes)
    × (r.1.auth.jtis ≡ s.auth.jtis)
    × (r.1.auth.cache ≡ s.auth.cache)
    × (r.1.auth.tokens ≡ revoke_refresh_token_family row.user_id row.client_id d.now s.auth.tokens)

Refusal-consumed :
    (sv : GrantServices) (o : Option AuthorizationCode) (d : GrantDraws) (s : GrantState)
    → Refusal o d s (answer_consumed sv o d s)
Refusal-consumed sv none d s = ((λ h. cc), refl)
Refusal-consumed sv (some row) d s = (refl, refl, refl, refl, refl)

-- An exchange with the wrong client, redirect URI, or time, or of an unknown code, claims no row and
-- leaves the table of codes as it was, so that a later exchange with the right ones is not
-- affected by it. If no code of that text was consumed by that client, then nothing changes at
-- all, and the answer is not that of a replay; otherwise it is, and all that changes is that the
-- refresh tokens of the consumed code's user at its client are revoked.
refused_exchange_keeps_code :
    (sv : GrantServices) (input : AuthorizationCodeExchange) (d : GrantDraws) (s : GrantState)
    → find
        (claimable (sv.base.hash_token input.code) input.client_id input.redirect_uri d.now)
        s.codes
      ≡ none
    → ((exchange_authorization_code sv input d s).1.codes ≡ s.codes)
      × Refusal
          (find_consumed_code (sv.base.hash_token input.code) input.client_id s.codes)
          d
          s
          (exchange_authorization_code sv input d s)
refused_exchange_keeps_code sv input d s h =
    subst (λ r. (r.1.codes ≡ s.codes) × Refusal found d s r) (sym answered)
      (consumed-codes found, Refusal-consumed sv found d s)
  where
    found : Option AuthorizationCode
    found = find_consumed_code (sv.base.hash_token input.code) input.client_id s.codes

    answered : exchange_authorization_code sv input d s ≡ answer_consumed sv found d s
    answered =
        refused_claim sv input d s h
        ∙ ap
            (λ l.
              answer_consumed sv
                (find_consumed_code (sv.base.hash_token input.code) input.client_id l) d
                (record s { codes = l }))
            (use_where-none _ s.codes h)

    consumed-codes : (o : Option AuthorizationCode) → (answer_consumed sv o d s).1.codes ≡ s.codes
    consumed-codes none = refl
    consumed-codes (some row) = refl
