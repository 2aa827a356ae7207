-- ===== src/Session/Jti/Revoked.antt =====
-- What revoking a user's access tokens achieves: every token that is still tracked is refused until
-- it expires, and nothing else changes.
use auth_sso.Base.{
  ℕ, ◌+◌, ◌*◌, ◌≤◌, ◌<◌, String, ◌≡◌, refl, true, false, Option, none, some, List, [], ◌∷◌, arith,
  eq_iff, if◌then◌else◌, lookup, lookup-insert, lookup-remove, Distinct, length, inl, inr,
  Bool-cases, ltb, ◌≢◌, ◌⊎◌, subst, false≢true, ◌==◌, ◌∙◌, ap, sym, if_true, if_false, eq_refl,
}
use auth_sso.Session.Jti.{
  JtiStore, UserJtis, remaining, live_entries, user_entries, block, block_all, is_jti_revoked,
  revoke_user_access_by_user_id, revoke_entries,
}

abbrev pub blocked_at : ℕ → Option ℕ → Option ℕ → Option ℕ
blocked_at now none before = before
blocked_at now (some exp) before = some (now + remaining exp now * 1000)

lookup-block_all :
    (now : ℕ) (es b : List (String × ℕ)) (j : String)
    → Distinct es
    → lookup j (block_all now es b) ≡ blocked_at now (lookup j es) (lookup j b)
unfolding block_all lookup
lookup-block_all now [] b j h = refl
lookup-block_all now ((i, e) ∷ es) b j h = ground (
  arith,
  lookup-block_all now es (block now i e b) j,
  lookup-insert i j (now + remaining e now * 1000) b,
  eq_iff i j,
)

lookup-revoke_entries :
    (user : String) (now : ℕ) (es : List (String × ℕ)) (s : JtiStore) (j : String)
    → Distinct es
    → lookup j (revoke_entries user now es s).1.blocklist
      ≡ blocked_at now (lookup j es) (lookup j s.blocklist)
unfolding lookup
lookup-revoke_entries user now [] s j d = refl
lookup-revoke_entries user now (e ∷ es) s j d = lookup-block_all now (e ∷ es) s.blocklist j d

up-revoke_entries :
    (user : String) (now : ℕ) (es : List (String × ℕ)) (s : JtiStore)
    → (revoke_entries user now es s).1.up ≡ s.up
up-revoke_entries user now [] s = refl
up-revoke_entries user now (e ∷ es) s = refl

abbrev pub after : String → ℕ → JtiStore → JtiStore
after user now s = (revoke_user_access_by_user_id user now s).1

users-revoke_entries :
    (user other : String) (now : ℕ) (es : List (String × ℕ)) (s : JtiStore)
    → user ≢ other
    → lookup other (revoke_entries user now es s).1.users ≡ lookup other s.users
users-revoke_entries user other now [] s ne = refl
users-revoke_entries user other now (e ∷ es) s ne =
    ground (arith, lookup-remove user other s.users, eq_iff user other)

live_entries_later :
    (now later : ℕ) (h : Option UserJtis)
    → now ≤ later
    → live_entries now h ≡ []
    → live_entries later h ≡ []
live_entries_later now later none le e = refl
live_entries_later now later (some h) le e = ground arith

user_entries-revoke_entries :
    (user : String) (now later : ℕ) (es : List (String × ℕ)) (s : JtiStore)
    → now ≤ later
    → user_entries user now s ≡ es
    → user_entries user later (revoke_entries user now es s).1 ≡ []
user_entries-revoke_entries user now later [] s le e = live_entries_later now later _ le e
user_entries-revoke_entries user now later (x ∷ es) s le e = simp (lookup-remove, eq_refl)

outcome-revoke_entries :
    (user : String) (now : ℕ) (es : List (String × ℕ)) (s : JtiStore)
    → (revoke_entries user now es s).0 ≡ record { revoked = length es; failed = false }
outcome-revoke_entries user now [] s = refl
outcome-revoke_entries user now (x ∷ es) s = refl

pub run_up :
    (user : String) (now : ℕ) (s : JtiStore)
    → s.up ≡ true
    → revoke_user_access_by_user_id user now s ≡ revoke_entries user now (user_entries user now s) s
unfolding revoke_user_access_by_user_id
run_up user now s up = if_true s.up _ up

pub run_down :
    (user : String) (now : ℕ) (s : JtiStore)
    → s.up ≡ false
    → revoke_user_access_by_user_id user now s ≡ (record { revoked = 0; failed = true }, s)
unfolding revoke_user_access_by_user_id
run_down user now s down = if_false s.up _ down

-- With Redis up, revoking writes for each tracked jti the lifetime that its token still has, and
-- leaves the status of every other jti.
pub lookup-blocklist_after :
    (user : String) (now : ℕ) (s : JtiStore) (j : String)
    → s.up ≡ true
    → Distinct (user_entries user now s)
    → lookup j (after user now s).blocklist
      ≡ blocked_at now (lookup j (user_entries user now s)) (lookup j s.blocklist)
lookup-blocklist_after user now s j up d =
    ap (λ r. lookup j r.1.blocklist) (run_up user now s up)
    ∙ lookup-revoke_entries user now (user_entries user now s) s j d

pub up-after : (user : String) (now : ℕ) (s : JtiStore) → (after user now s).up ≡ s.up
unfolding revoke_user_access_by_user_id
up-after user now s = ground (arith, up-revoke_entries user now (user_entries user now s) s)

still_blocked :
    (exp now later : ℕ)
    → now ≤ later
    → later < exp * 1000
    → ltb later (now + remaining exp now * 1000) ≡ true
still_blocked exp now later h k = ground arith

-- With Redis up, a token that is tracked for the user when he is revoked is refused from then
-- until it expires, if no jti is tracked twice.
pub revoke_user_access_blocks :
    (user jti : String) (exp now later : ℕ) (s : JtiStore)
    → s.up ≡ true
    → Distinct (user_entries user now s)
    → lookup jti (user_entries user now s) ≡ some exp
    → now ≤ later
    → later < exp * 1000
    → is_jti_revoked jti later (after user now s) ≡ true
unfolding is_jti_revoked
revoke_user_access_blocks user jti exp now later s up d e h k =
    simp (up-after, up, lookup-blocklist_after user now s jti up d, e)
      (still_blocked exp now later h k)

pub status-after :
    (user jti : String) (now later : ℕ) (s : JtiStore)
    → s.up ≡ true
    → Distinct (user_entries user now s)
    → lookup jti (user_entries user now s) ≡ none
    → is_jti_revoked jti later (after user now s) ≡ is_jti_revoked jti later s
unfolding is_jti_revoked
status-after user jti now later s up d e =
    ground (arith, up-after user now s, lookup-blocklist_after user now s jti up d)

-- The tokens of a user are gone after his own revocation, and the same after another's.
pub entries-after :
    (user other : String) (now : ℕ) (s : JtiStore)
    → s.up ≡ true
    → ((user ≡ other) × (user_entries other now (after user now s) ≡ []))
      ⊎ ((user ≢ other) × (user_entries other now (after user now s) ≡ user_entries other now s))
entries-after user other now s up = elim (Bool-cases (user == other)) [
  | inl same ↦
      let equal = (eq_iff user other).0 same in
      inl (
        equal,
        subst (λ o. user_entries o now (after user now s) ≡ []) equal
            (ap (λ r. user_entries user now r.1) (run_up user now s up)
              ∙ user_entries-revoke_entries user now now (user_entries user now s) s (omega arith)
                  refl),
      )
  | inr distinct ↦
      let ne : user ≢ other = λ e. false≢true (sym distinct ∙ (eq_iff user other).1 e) in
      inr (
        ne,
        ap (live_entries now) (
            ap (λ r. lookup other r.1.users) (run_up user now s up)
            ∙ users-revoke_entries user other now (user_entries user now s) s ne),
      )
]

-- Revoking touches no one else: the status of a jti that the user has no live entry for, and the
-- hash of every other user, are what they were.
revoke_user_access_frame :
    (user other jti : String) (now later : ℕ) (s : JtiStore)
    → Distinct (user_entries user now s)
    → lookup jti (user_entries user now s) ≡ none
    → user ≢ other
    → (is_jti_revoked jti later (after user now s) ≡ is_jti_revoked jti later s)
      × (lookup other (after user now s).users ≡ lookup other s.users)
revoke_user_access_frame user other jti now later s d e ne = elim (Bool-cases s.up) [
  | inl up ↦ (
    unfold is_jti_revoked in
        ground (arith, up-after user now s, lookup-blocklist_after user now s jti up d),
    ap (λ r. lookup other r.1.users) (run_up user now s up)
        ∙ users-revoke_entries user other now (user_entries user now s) s ne,
  )
  | inr down ↦ (
    ap (λ r. is_jti_revoked jti later r.1) (run_down user now s down),
    ap (λ r. lookup other r.1.users) (run_down user now s down),
  )
]

-- The outcome tells failure from an empty hash, and counts the tokens that were blocked; afterwards
-- the user has no tracked token left.
pub revoke_user_access_outcome :
    (user : String) (now later : ℕ) (s : JtiStore)
    → now ≤ later
    → ((revoke_user_access_by_user_id user now s).0 ≡ (
        if s.up
        then record { revoked = length (user_entries user now s); failed = false }
        else record { revoked = 0; failed = true }))
      × (s.up ≡ true → user_entries user later (after user now s) ≡ [])
revoke_user_access_outcome user now later s h = (
  elim (Bool-cases s.up) [
    | inl up ↦
        ap (λ r. r.0) (run_up user now s up)
        ∙ outcome-revoke_entries user now (user_entries user now s) s
        ∙ sym (if_true s.up _ up)
    | inr down ↦ ap (λ r. r.0) (run_down user now s down) ∙ sym (if_false s.up _ down)
  ],
  λ up.
      ap (λ r. user_entries user later r.1) (run_up user now s up)
      ∙ user_entries-revoke_entries user now later (user_entries user now s) s h refl,
)
