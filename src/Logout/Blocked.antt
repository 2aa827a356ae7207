-- ===== src/Logout/Blocked.antt =====
-- What a logout writes to the blocklist, and what it means for a text that has verified once.
use auth_sso.Base.{
  ℕ, suc, ◌≤◌, ◌<◌, String, Bool, true, ◌≡◌, ◌≢◌, refl, sym, ap, ◌∙◌, Option, none, some,
  truthy_text, not, nat_eq, if_cases, arith, false≢true, some_inj, ◌&&◌,
}
use auth_sso.Session.Jti.{JtiStore, seconds, is_jti_revoked, revoke_jti}
use auth_sso.Session.Jti.Later.{JtiWrites, done, more, blocks}
use auth_sso.Tokens.Keys.{KeyStore}
use auth_sso.Tokens.Verify.{Jose, PortalJwtClaims, jti_revoked, verify_access_token}
use auth_sso.Tokens.Verify.Verified.{verify_access_token-Passed}
use auth_sso.Oauth.Endpoints.{block_jti}
use auth_sso.Oauth.Endpoints.Revoked.{JoseLaws, block_jti-blocks}

pub JtiWrites-trans :
    {jti : String} {exp : ℕ} {s t u : JtiStore}
    → JtiWrites jti exp s t
    → JtiWrites jti exp t u
    → JtiWrites jti exp s u
JtiWrites-trans h done = h
JtiWrites-trans h (more k w) = more (JtiWrites-trans h k) w

-- Blocking another jti.
pub block_jti-JtiWrites :
    (jti : String) (exp now : ℕ) (o : Option String) (until : Option ℕ) (s : JtiStore)
    → o ≢ some jti
    → JtiWrites jti exp s (block_jti now o until s)
block_jti-JtiWrites jti exp now none until s ne = done
block_jti-JtiWrites jti exp now (some other) none s ne = done
block_jti-JtiWrites jti exp now (some other) (some until) s ne =
    if_cases (JtiWrites jti exp s) (truthy_text other && not (nat_eq until 0))
      (λ _. more done (blocks other until now s (λ e. absurd (ne (ap some e))))) (λ _. done)

-- Blocking this one, which leaves Redis there.
pub block_jti-own :
    (now later exp : ℕ) (jti : String) (s : JtiStore)
    → truthy_text jti ≡ true
    → s.up ≡ true
    → now ≤ later
    → seconds later < suc exp
    → (is_jti_revoked jti later (block_jti now (some jti) (some (suc exp)) s) ≡ true)
      × ((block_jti now (some jti) (some (suc exp)) s).up ≡ true)
unfolding revoke_jti
block_jti-own now later exp jti s t up le lt = (
  ap (is_jti_revoked jti later) own ∙ block_jti-blocks now later (suc exp) jti s le lt,
  ap (λ (r : JtiStore). r.up) own ∙ ground (arith, up),
)
  where
    own : block_jti now (some jti) (some (suc exp)) s ≡ revoke_jti jti (suc exp) now s
    own = ground (arith, t)

-- A text that verified once does not verify again while its jti is blocked.
pub blocked-refused :
    (jose : Jose) (laws : JoseLaws jose) (token pk jti : String) (audience other : Option String)
    (typ : Option String) (now later exp : ℕ) (keys : KeyStore) (jtis : JtiStore)
    (c d : PortalJwtClaims)
    → jose.jwt_verify token pk audience now ≡ some c
    → c.jti ≡ some jti
    → truthy_text jti ≡ true
    → c.exp ≡ some exp
    → (seconds later < exp → is_jti_revoked jti later jtis ≡ true)
    → (verify_access_token jose token other typ later keys jtis).0 ≢ some d
blocked-refused jose laws token pk jti audience other typ now later exp keys jtis c d valid j t x b
      h =
    let (_, live, (pk', again)) =
      verify_access_token-Passed jose token other typ later keys jtis d h in
    let same : d ≡ c = some_inj (
      sym (laws.same_claims token pk' other later d again)
      ∙ laws.same_claims token pk audience now c valid) in
    let lives =
      laws.unexpired token pk' other later exp d again
        (ap (λ (e : PortalJwtClaims). e.exp) same ∙ x) in
    false≢true (
      sym live
      ∙ ap (jti_revoked later jtis) (ap (λ (e : PortalJwtClaims). e.jti) same ∙ j)
      ∙ blocked_text (is_jti_revoked jti later jtis) (b lives))
  where
    blocked_text : (r : Bool) → r ≡ true → (truthy_text jti && r) ≡ true
    blocked_text r q = ground (arith, t, q)

pub block_jti-users :
    (now : ℕ) (jti : Option String) (exp : Option ℕ) (s : JtiStore)
    → (block_jti now jti exp s).users ≡ s.users
unfolding revoke_jti
block_jti-users now none exp s = refl
block_jti-users now (some jti) none s = refl
block_jti-users now (some jti) (some exp) s = ground arith
