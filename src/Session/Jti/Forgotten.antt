-- ===== src/Session/Jti/Forgotten.antt =====
-- Tracking a token and revoking its user later: the token is refused, unless a token with a shorter
-- lifetime was tracked for the same user in between, since that one sets the lifetime of the hash.
use auth_sso.Base.{
  ℕ, ◌+◌, ◌*◌, ◌≤◌, ◌<◌, String, ◌≡◌, ◌∙◌, ap, sym, subst, Bool, true, false, some, List, [], arith,
  eq_refl, if◌then◌else◌, lookup, insert, lookup-insert, Distinct, Distinct-insert, if_true,
  if_false, ltb, max,
}
use auth_sso.Session.Jti.{
  JtiStore, seconds, live_entries, user_entries, is_jti_revoked, track_user_jti,
  revoke_user_access_by_user_id, revoke_entries,
}
use auth_sso.Session.Jti.Revoked.{after, revoke_user_access_blocks, run_up}

tracked :
    (user jti : String) (ttl now : ℕ) (s : JtiStore)
    → s.up ≡ true
    → lookup user (track_user_jti user jti ttl now s).users
      ≡ some (record {
        entries = insert jti (seconds now + ttl) (user_entries user now s);
        deadline = now + max ttl 1 * 1000;
      })
unfolding track_user_jti
tracked user jti ttl now s up =
    ap (λ t. lookup user t.users) (if_true s.up s up) ∙ simp (lookup-insert, eq_refl)

up-track :
    (user jti : String) (ttl now : ℕ) (s : JtiStore) → (track_user_jti user jti ttl now s).up ≡ s.up
unfolding track_user_jti
up-track user jti ttl now s = ground arith

-- The hash of a user that has no jti twice keeps having none.
Distinct-track :
    (user jti : String) (ttl now later : ℕ) (s : JtiStore)
    → s.up ≡ true
    → Distinct (user_entries user now s)
    → Distinct (user_entries user later (track_user_jti user jti ttl now s))
Distinct-track user jti ttl now later s up d =
    subst (λ h. Distinct (live_entries later h)) (sym (tracked user jti ttl now s up))
      (Distinct-if (ltb later (now + max ttl 1 * 1000))
        (insert jti (seconds now + ttl) (user_entries user now s))
        (Distinct-insert jti (seconds now + ttl) (user_entries user now s) d))
  where
    Distinct-if :
        (b : Bool) (es : List (String × ℕ)) → Distinct es → Distinct (if b then es else [])
    Distinct-if true es d = d
    Distinct-if false es d = tt

-- While the lifetime of the hash lasts, the tracked jti is found with its expiry.
lookup-track_live :
    (user jti : String) (ttl issued now : ℕ) (s : JtiStore)
    → s.up ≡ true
    → now < issued + ttl * 1000
    → lookup jti (user_entries user now (track_user_jti user jti ttl issued s))
      ≡ some (seconds issued + ttl)
lookup-track_live user jti ttl issued now s up h =
    ap (λ o. lookup jti (live_entries now o)) (tracked user jti ttl issued s up)
    ∙ ap (λ es. lookup jti es) (if_true (ltb now (issued + max ttl 1 * 1000)) _ (ground arith))
    ∙ simp (lookup-insert, eq_refl)

-- After it the hash is empty, whatever it held.
user_entries-track_over :
    (user jti : String) (ttl issued now : ℕ) (s : JtiStore)
    → s.up ≡ true
    → 1 ≤ ttl
    → issued + ttl * 1000 ≤ now
    → user_entries user now (track_user_jti user jti ttl issued s) ≡ []
user_entries-track_over user jti ttl issued now s up p h =
    ap (λ o. live_entries now o) (tracked user jti ttl issued s up)
    ∙ if_false (ltb now (issued + max ttl 1 * 1000)) _ (ground arith)

is_jti_revoked-track :
    (user jti j : String) (ttl issued later : ℕ) (s : JtiStore)
    → is_jti_revoked j later (track_user_jti user jti ttl issued s) ≡ is_jti_revoked j later s
unfolding is_jti_revoked track_user_jti
is_jti_revoked-track user jti j ttl issued later s = ground arith

-- With Redis up, a token of positive lifetime that is tracked, and whose user is revoked while it
-- lives with nothing in between, is refused from the revocation until it expires.
track_then_revoke :
    (user jti : String) (ttl issued now later : ℕ) (s : JtiStore)
    → s.up ≡ true
    → Distinct (user_entries user issued s)
    → now < issued + ttl * 1000
    → now ≤ later
    → later < (seconds issued + ttl) * 1000
    → is_jti_revoked jti later (after user now (track_user_jti user jti ttl issued s)) ≡ true
track_then_revoke user jti ttl issued now later s up d k l m =
    revoke_user_access_blocks user jti (seconds issued + ttl) now later
      (track_user_jti user jti ttl issued s) (up-track user jti ttl issued s ∙ up)
      (Distinct-track user jti ttl issued now s up d)
      (lookup-track_live user jti ttl issued now s up k) l m

-- A defect. A token with a shorter lifetime, tracked for the same user, makes Redis drop the whole
-- hash when that lifetime is over: a revocation after that reports success with nothing blocked,
-- and leaves the status of every jti as it was, also of the user's longer tokens that still live.
pub short_token_forgets :
    (user jti : String) (ttl tracked_at now later : ℕ) (j : String) (s : JtiStore)
    → s.up ≡ true
    → 1 ≤ ttl
    → tracked_at + ttl * 1000 ≤ now
    → ((revoke_user_access_by_user_id user now (track_user_jti user jti ttl tracked_at s)).0
        ≡ record { revoked = 0; failed = false })
      × (is_jti_revoked j later (after user now (track_user_jti user jti ttl tracked_at s))
          ≡ is_jti_revoked j later s)
short_token_forgets user jti ttl tracked_at now later j s up p h = (
  ap (λ r. r.0) nothing,
  ap (λ r. is_jti_revoked j later r.1) nothing
      ∙ is_jti_revoked-track user jti j ttl tracked_at later s,
)
  where
    t : JtiStore
    t = track_user_jti user jti ttl tracked_at s

    nothing : revoke_user_access_by_user_id user now t ≡ (record { revoked = 0; failed = false }, t)
    nothing =
        run_up user now t (up-track user jti ttl tracked_at s ∙ up)
        ∙ ap (λ es. revoke_entries user now es t)
            (user_entries-track_over user jti ttl tracked_at now s up p h)
