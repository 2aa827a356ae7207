-- ===== src/Oauth/Endpoints/Revoked.antt =====
-- A client that revokes a token of its own and asks again: the two endpoints together.
use auth_sso.Base.{
  ℕ, ◌+◌, ◌*◌, ◌≤◌, ◌<◌, String, true, false, ◌≡◌, ◌≢◌, refl, sym, ap, ◌∙◌, ◌⊎◌, inl, inr, Option,
  none, some, truthy_text, eq_refl, suc, arith, some_inj, false≢true, if_true, lookup-insert, subst,
  List, find,
}
use auth_sso.Errors.{Result}
use auth_sso.Session.Jti.{JtiStore, seconds, remaining, revoke_jti, is_jti_revoked}
use auth_sso.Session.Jti.Later.{JtiWrites, JtiWrites-revoked}
use auth_sso.Tokens.Keys.{KeyStore}
use auth_sso.Tokens.Rows.{RefreshToken, is_revoked}
use auth_sso.Tokens.Rows.Owned.{owned_by, revoked-later}
use auth_sso.Tokens.Rows.Growth.{Grows}
use auth_sso.Tokens.Rotation.{Services}
use auth_sso.Tokens.Rotation.Writes.{Writes, Grows-Writes}
use auth_sso.Tokens.Verify.{Jose, PortalJwtClaims, jti_revoked}
use auth_sso.Tokens.Verify.Verified.{verify_access_token-Passed}
use auth_sso.Oauth.Clients.{ClientCredentials}
use auth_sso.Oauth.Endpoints.{
  OauthServices, OauthState, caller, block_own, verified, revoke_token, revoke_endpoint, revoke_by,
  revoke_given, RevokeAnswer, is_active, by_row, introspect_claims, introspect_given, introspect_by,
  introspect_endpoint,
}

-- What jose documents: the claims that it verifies are those that the text holds, and they have
-- not expired.
pub record JoseLaws (jose : Jose) : Type 0 where
  pub same_claims :
      (token pk : String) (audience : Option String) (now : ℕ) (c : PortalJwtClaims)
      → jose.jwt_verify token pk audience now ≡ some c
      → jose.decode_payload token ≡ some c
  pub unexpired :
      (token pk : String) (audience : Option String) (now exp : ℕ) (c : PortalJwtClaims)
      → jose.jwt_verify token pk audience now ≡ some c
      → c.exp ≡ some exp
      → seconds now < exp

pub block_jti-blocks :
    (now later exp : ℕ) (jti : String) (jtis : JtiStore)
    → now ≤ later
    → seconds later < exp
    → is_jti_revoked jti later (revoke_jti jti exp now jtis) ≡ true
unfolding is_jti_revoked revoke_jti
block_jti-blocks now later exp jti jtis le lt =
    ground
      (arith, lookup-insert jti jti (now + remaining exp now * 1000) jtis.blocklist, eq_refl jti)

by_row-inactive :
    (now : ℕ) (o : Option RefreshToken)
    → ((r : RefreshToken) → o ≡ some r → is_revoked r ≡ true)
    → is_active (by_row now o) ≡ false
by_row-inactive now none h = refl
by_row-inactive now (some r) h = ground (arith, h r refl)

block_own-own :
    (client jti : String) (now exp : ℕ) (d : PortalJwtClaims) (jtis : JtiStore)
    → d.client_id ≡ some client
    → d.jti ≡ some jti
    → truthy_text jti ≡ true
    → d.exp ≡ some (suc exp)
    → block_own client now (some d) jtis ≡ revoke_jti jti (suc exp) now jtis
block_own-own client jti now exp d jtis owner j t x = ground (arith, eq_refl client, owner, j, t, x)

jti_revoked-blocked :
    (later : ℕ) (jti : String) (o : Option String) (jtis : JtiStore)
    → o ≡ some jti
    → truthy_text jti ≡ true
    → is_jti_revoked jti later jtis ≡ true
    → jti_revoked later jtis o ≡ true
jti_revoked-blocked later jti o jtis j t h = ap (jti_revoked later jtis) j ∙ ground (arith, t, h)

up-revoke_jti : (jti : String) (exp now : ℕ) (s : JtiStore) → (revoke_jti jti exp now s).up ≡ s.up
unfolding revoke_jti
up-revoke_jti jti exp now s = ground arith

pub revoke_endpoint-own :
    (sv : OauthServices) (creds : Result ClientCredentials) (client token : String) (now : ℕ)
    (s : OauthState)
    → caller sv creds ≡ some client
    → truthy_text token ≡ true
    → revoke_endpoint sv creds (some token) now s
      ≡ (RevokeAnswer.done, revoke_token sv client token now s)
unfolding revoke_endpoint
revoke_endpoint-own sv creds client token now s who given =
    ap (λ o. revoke_by sv o (some token) now s) who
    ∙ ap (λ o. revoke_given sv client o now s) (if_true _ none given)

-- The token is the client's: opaque, as a refresh token is, or an access token that verifies now,
-- issued to the client, with a jti and an expiry. In the second case, what is written to Redis
-- afterwards does not block its jti until an earlier expiry than its own.
abbrev IsOwn : OauthServices → String → String → ℕ → OauthState → JtiStore → Type 0
IsOwn sv client token now s jtis =
    (sv.jose.decode_header token ≡ none)
    ⊎ ((c : PortalJwtClaims) × (jti : String) × (exp : ℕ) × ((verified sv token now s).0 ≡ some c)
        × (c.client_id ≡ some client)
        × (c.jti ≡ some jti)
        × (truthy_text jti ≡ true)
        × (c.exp ≡ some (suc exp))
        × JtiWrites jti (suc exp) (revoke_token sv client token now s).jtis jtis)

-- The table has a row of the client for the token, or no such row is there later.
abbrev HasRow : OauthServices → String → String → List RefreshToken → List RefreshToken → Type 0
HasRow sv client token before after =
    ((r : RefreshToken) × (find (owned_by (sv.hash_token token) client) before ≡ some r))
    ⊎ (find (owned_by (sv.hash_token token) client) after ≡ none)

module _ (sv : OauthServices) (laws : JoseLaws sv.jose) (client token : String) (now later : ℕ)
    (le : now ≤ later) (s t : OauthState) where
  not-verified-later :
      s.jtis.up ≡ true
      → IsOwn sv client token now s t.jtis
      → (c : PortalJwtClaims) → (verified sv token later t).0 ≢ some c
  not-verified-later up (inl opaque) c h =
      (verify_access_token-Passed sv.jose token none _ later t.keys _ c h).0 opaque
  not-verified-later up (inr (d, jti, exp, v, owner, j, tj, x, writes)) c h =
      let (_, live, (pk, valid)) =
        verify_access_token-Passed sv.jose token none _ later t.keys _ c h in
      let (_, _, (pk', valid')) =
        verify_access_token-Passed sv.jose token none _ now s.keys s.jtis d v in
      let same : c ≡ d = some_inj (
        sym (laws.same_claims token pk none later c valid)
        ∙ laws.same_claims token pk' none now d valid') in
      let blocked : block_own client now (verified sv token now s).0 s.jtis
          ≡ revoke_jti jti (suc exp) now s.jtis =
        ap (λ o. block_own client now o s.jtis) v
        ∙ block_own-own client jti now exp d s.jtis owner j tj x in
      let lives =
        laws.unexpired token pk none later (suc exp) c valid
          (ap (λ (e : PortalJwtClaims). e.exp) same ∙ x) in
      false≢true (
        sym live
        ∙ jti_revoked-blocked later jti c.jti t.jtis (ap (λ (e : PortalJwtClaims). e.jti) same ∙ j)
            tj
            (JtiWrites-revoked jti (suc exp) later (omega arith)
              (up-revoke_jti jti (suc exp) now s.jtis ∙ up)
              (block_jti-blocks now later (suc exp) jti s.jtis le lives)
              (subst (λ r. JtiWrites jti (suc exp) r t.jtis) blocked writes)))

  rows-inactive :
      sv.written ≡ true
      → HasRow sv client token s.tokens t.tokens
      → Grows (revoke_token sv client token now s).tokens t.tokens
      → is_active (by_row later (find (owned_by (sv.hash_token token) client) t.tokens)) ≡ false
  rows-inactive taken (inl (r, listed)) grows = by_row-inactive later _ (λ u found.
      revoked-later (sv.hash_token token) client now s.tokens t.tokens r u listed
        (subst (λ rows. Grows rows t.tokens) (if_true sv.written _ taken) grows) found)
  rows-inactive taken (inr absent) grows = ap (λ o. is_active (by_row later o)) absent

  claims-inactive :
      (o : Option PortalJwtClaims)
      → ((c : PortalJwtClaims) → o ≢ some c)
      → is_active (by_row later (find (owned_by (sv.hash_token token) client) t.tokens)) ≡ false
      → is_active (introspect_claims sv client token later t.tokens o) ≡ false
  claims-inactive none h rows = rows
  claims-inactive (some c) h rows = absurd (h c refl)

-- Let a client that authenticates revoke a token, with Redis there and a database that takes it: one of the opaque texts that refresh
-- tokens are, or an access token that verifies at that moment, was issued to the client, and has a jti
-- and an expiry. If jose answers only the claims that a text holds, and none that have expired, then the
-- answer is that it is done; and at any later time the same client's introspection of the token is
-- answered as inactive, whatever keys are stored then, whatever requests have written to the table of
-- refresh tokens (`Writes`) and whatever has been written to Redis (`JtiWrites`), as long as no row
-- for the text is issued to the client where there was none, and nothing blocks the access token's jti
-- until an earlier expiry than its own.
pub revoked_is_inactive :
    (sv : OauthServices) (laws : JoseLaws sv.jose) (rs : Services) (client token : String)
    (now later : ℕ) (le : now ≤ later) (s : OauthState) (rows : List RefreshToken) (jtis : JtiStore)
    (keys : KeyStore) (creds : Result ClientCredentials)
    → s.jtis.up ≡ true
    → sv.written ≡ true
    → caller sv creds ≡ some client
    → truthy_text token ≡ true
    → IsOwn sv client token now s jtis
    → HasRow sv client token s.tokens rows
    → Writes rs (revoke_endpoint sv creds (some token) now s).1.tokens rows
    → ((revoke_endpoint sv creds (some token) now s).0 ≡ RevokeAnswer.done)
      × (is_active
            (introspect_endpoint sv creds
              (some token)
              later
              (record { tokens = rows; jtis = jtis; keys = keys })).0
          ≡ false)
unfolding introspect_endpoint
revoked_is_inactive sv laws rs client token now later le s rows jtis keys creds up taken who given
      own row writes =
    let revoked = revoke_endpoint-own sv creds client token now s who given in
    let t : OauthState = record { tokens = rows; jtis = jtis; keys = keys } in
    (
      ap (λ (r : RevokeAnswer × OauthState). r.0) revoked,
      ap (λ o. is_active (introspect_by sv o (some token) later t).0) who
          ∙ ap (λ o. is_active (introspect_given sv client o later t).0) (if_true _ none given)
          ∙ claims-inactive sv laws client token now later le s t (verified sv token later t).0
              (not-verified-later sv laws client token now later le s t up own)
              (rows-inactive sv laws client token now later le s t taken row (
                Grows-Writes rs (
                  subst (λ (r : RevokeAnswer × OauthState). Writes rs r.1.tokens rows) revoked
                    writes))),
    )
