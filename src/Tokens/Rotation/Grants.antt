-- ===== src/Tokens/Rotation/Grants.antt =====
-- When `rotateRefreshToken` answers with tokens, and what it leaves behind when it does not.
use auth_sso.Base.{
  ℕ, ◌+◌, ◌*◌, ◌≤◌, String, ◌≡◌, refl, sym, ap, ◌∙◌, subst, Bool, false, Option, none, some, List,
  [], ◌∷◌, ◌++◌, arith, some_inj,
}
use auth_sso.Permissions.{IssuancePermission, allowed, refused}
use auth_sso.Tokens.Ttl.{clamp_token_ttl_bounds, refresh_token_ttl, refresh_bounds}
use auth_sso.Tokens.Access.{sign_access_token, access_token_lifetime, SignedToken}
use auth_sso.Tokens.Rows.{RefreshToken, is_revoked, revoke_refresh_token_by_id, find_by_hash}
use auth_sso.Tokens.Rotation.{
  Services, Draws, Rotated, AuthState, RefreshTokenResult, wrong_client, rotate_transaction,
  finish_rotation, rotate_refresh_token, answer_signed, sign_granted, access_request, refresh_of,
}
use auth_sso.Tokens.Rotation.OneTime.{rotate_transaction-IsCommitted}

-- The row that a rotation owes for another: unrevoked, of the same user, client and scope, with the
-- hash of the new token, that expires after a lifetime in seconds.
abbrev issued_row : Services → RefreshToken → Draws → ℕ → RefreshToken
issued_row sv rt d lifetime = record {
  id = d.row_id;
  token_hash = sv.hash_token d.refresh_token;
  user_id = rt.user_id;
  client_id = rt.client_id;
  scopes = rt.scopes;
  revoked = none;
  expires_at = d.now + lifetime * 1000;
  created_at = d.now;
}

-- What an answer of a rotation says: the row that was found, the tests that it passed, and the
-- table afterwards.
pub record IsGranted (sv : Services) (old : String) (expected : Option String) (d : Draws)
    (before : List RefreshToken) (res : RefreshTokenResult) (after : List RefreshToken)
    : Type 0 where
  pub rt : RefreshToken
  pub listed : find_by_hash (sv.hash_token old) before ≡ some rt
  pub unrevoked : is_revoked rt ≡ false
  pub unexpired : d.now ≤ rt.expires_at
  pub owned : wrong_client expected rt ≡ false
  pub same_scope : res.scope ≡ rt.scopes
  pub new_token : res.refresh_token ≡ d.refresh_token
  pub access_range : (60 ≤ res.expires_in) × (res.expires_in ≤ 86400)
  pub refresh_range : (300 ≤ res.refresh_expires_in) × (res.refresh_expires_in ≤ 2592000)
  pub table :
      after
      ≡ revoke_refresh_token_by_id rt.id d.now before
        ++ issued_row sv rt d res.refresh_expires_in ∷ []

-- The answer to a committed rotation.
record IsFinished (g : Rotated) (tokens : List RefreshToken) (res : RefreshTokenResult)
    (after : List RefreshToken) : Type 0 where
  same_scope : res.scope ≡ g.rt.scopes
  new_token : res.refresh_token ≡ g.new_token
  refresh_ttl : res.refresh_expires_in ≡ g.refresh_ttl
  access_range : (60 ≤ res.expires_in) × (res.expires_in ≤ 86400)
  table : after ≡ tokens

module _ (sv : Services) where
  answer_signed-IsFinished :
      (o : Option SignedToken) (w : Bool) (g : Rotated) (d : Draws) (s : AuthState)
      (res : RefreshTokenResult)
      → ((t : SignedToken) → o ≡ some t → (60 ≤ t.expires_in) × (t.expires_in ≤ 86400))
      → (answer_signed sv o w g d s).0 ≡ some res
      → IsFinished g s.tokens res (answer_signed sv o w g d s).1.tokens
  answer_signed-IsFinished none w g d s res range h = cc
  answer_signed-IsFinished (some t) w g d s res range h =
      subst (λ r. IsFinished g s.tokens r s.tokens) (some_inj h)
        (record {
          same_scope = refl;
          new_token = refl;
          refresh_ttl = refl;
          access_range = range t refl;
          table = refl;
        })

  sign_granted-IsFinished :
      (p : IssuancePermission) (w : Bool) (g : Rotated) (d : Draws) (s : AuthState)
      (res : RefreshTokenResult)
      → (sign_granted sv p w g d s).0 ≡ some res
      → IsFinished g s.tokens res (sign_granted sv p w g d s).1.tokens
  sign_granted-IsFinished (refused r) w g d s res h = cc
  sign_granted-IsFinished (allowed b) w g d s res h =
      answer_signed-IsFinished (sign_access_token sv.sign (access_request sv g d) s.jtis).0 w g d
        (record s { jtis = (sign_access_token sv.sign (access_request sv g d) s.jtis).1 }) res
        (λ t e.
          let l = access_token_lifetime sv.sign (access_request sv g d) s.jtis t e in (l.1, l.2))
        h

  finish_rotation-IsFinished :
      (w : Bool) (o : Option Rotated) (d : Draws) (s : AuthState) (res : RefreshTokenResult)
      → (finish_rotation sv w o d s).0 ≡ some res
      → (g : Rotated) × (o ≡ some g)
        × IsFinished g s.tokens res (finish_rotation sv w o d s).1.tokens
  unfolding finish_rotation
  finish_rotation-IsFinished w none d s res h = cc
  finish_rotation-IsFinished w (some g) d s res h =
      (g, refl, sign_granted-IsFinished _ w g d (record s { cache = _ }) res h)

  -- An answer with tokens was given for a row that was neither revoked nor expired and belongs to
  -- the client that asked; it carries the row's scope and the new token, with lifetimes in range,
  -- and the table has the old row revoked and one new row, unrevoked, with the hash of the new token,
  -- of the same user, client and scope, that expires when the answer's lifetime has passed.
  pub rotation_grants :
      (w : Bool) (old : String) (expected : Option String) (d : Draws) (s : AuthState)
      (res : RefreshTokenResult)
      → (rotate_refresh_token sv w old expected d s).0 ≡ some res
      → IsGranted sv old expected d s.tokens res
          (rotate_refresh_token sv w old expected d s).1.tokens
  unfolding rotate_refresh_token
  rotation_grants w old expected d s res h =
      let t = rotate_transaction sv old expected d s.tokens in
      let (g, e, f) = finish_rotation-IsFinished w t.0 d (record s { tokens = t.1 }) res h in
      let c = rotate_transaction-IsCommitted sv old expected d s.tokens g e in
      record {
        rt = g.rt;
        listed = c.listed;
        unrevoked = c.unrevoked;
        unexpired = ground (arith, c.unexpired);
        owned = c.owned;
        same_scope = f.same_scope;
        new_token = f.new_token ∙ ap (λ x. x.new_token) c.granted;
        access_range = f.access_range;
        refresh_range =
            subst (λ n. (300 ≤ n) × (n ≤ 2592000))
              (sym (f.refresh_ttl ∙ ap (λ x. x.refresh_ttl) c.granted))
              (clamp_token_ttl_bounds (refresh_of (sv.clients g.rt.client_id)) refresh_token_ttl
                refresh_bounds (omega arith) (omega arith));
        table =
            f.table
            ∙ c.written
            ∙ ap
                (λ n.
                  revoke_refresh_token_by_id g.rt.id d.now s.tokens ++ issued_row sv g.rt d n ∷ [])
                (sym (f.refresh_ttl ∙ ap (λ x. x.refresh_ttl) c.granted));
      }
