-- ===== src/Effects/Converged.antt =====
-- What the convergence achieves for the access tokens of the users.
use auth_sso.Base.{
  ℕ, ◌+◌, ◌*◌, ◌≤◌, ◌<◌, String, true, false, not, ◌≡◌, ◌≢◌, refl, sym, ap, ◌∙◌, subst, ◌⊎◌, inl,
  inr, none, some, List, [], ◌∷◌, length, lookup, Among, Distinct, arith, if_true,
}
use mathlib.Core.List.{Permᴰ}
use auth_sso.Batch.{BatchOutcome, tally}
use auth_sso.Batch.Settled.{InBatches-Among, InBatches-length, one_by_one, settle_in_batches_once}
use auth_sso.Session.Jti.{JtiStore, user_entries, is_jti_revoked, revoke_user_access_by_user_id}
use auth_sso.Session.Jti.Revoked.{
  after, revoke_user_access_blocks, revoke_user_access_outcome, up-after, status-after,
  entries-after,
}
use auth_sso.Session.Jti.Later.{JtiWrites, JtiWrites-revoked}
use auth_sso.Permissions.{Users}
use auth_sso.Effects.{
  AuthorizationState, revoke_or_throw, revoke_users_access_by_user_id,
  revoke_and_refresh_authorization,
}

none≢some : {A : Type 0} {a : A} → none ≢ some a
none≢some h = cc

revoke_or_throw-up :
    (now : ℕ) (user : String) (s : JtiStore) → s.up ≡ true → (revoke_or_throw now user s).0 ≡ true
unfolding revoke_or_throw
revoke_or_throw-up now user s up =
    ap (λ o. not o.failed)
      ((revoke_user_access_outcome user now now s (omega arith)).0 ∙ if_true s.up _ up)

module _ (user jti : String) (exp now later : ℕ) (le : now ≤ later)
    (live : later < exp * 1000) where
  -- The hashes name a jti once, and this jti is the user's alone.
  abbrev pub OwnsJti : JtiStore → Type 0
  OwnsJti s =
      ((other : String) → Distinct (user_entries other now s))
      × ((other : String) → other ≢ user → lookup jti (user_entries other now s) ≡ none)

  abbrev IsTracked : JtiStore → Type 0
  IsTracked s = lookup jti (user_entries user now s) ≡ some exp

  abbrev Blocked : JtiStore → Type 0
  Blocked s = (is_jti_revoked jti later s ≡ true) × (user_entries user now s ≡ [])

  -- Redis is there, and the jti is still tracked or blocked already.
  abbrev Held : JtiStore → Type 0
  Held s = (s.up ≡ true) × OwnsJti s × (IsTracked s ⊎ Blocked s)

  entries-step {κ} :
      (P : List (String × ℕ) → Type κ) (v other : String) (s : JtiStore)
      → s.up ≡ true
      → P []
      → P (user_entries other now s)
      → P (user_entries other now (after v now s))
  entries-step P v other s up e p = elim (entries-after v other now s up) [
    | inl gone ↦ subst P (sym gone.1) e
    | inr kept ↦ subst P (sym kept.1) p
  ]

  OwnsJti-after : (v : String) (s : JtiStore) → s.up ≡ true → OwnsJti s → OwnsJti (after v now s)
  unfolding lookup
  OwnsJti-after v s up (d, n) = (
    λ other. entries-step Distinct v other s up tt (d other),
    λ other ne. entries-step (λ es. lookup jti es ≡ none) v other s up refl (n other ne),
  )

  -- What the revocation of a user does to the jti; of its owner, it blocks it.
  Held-after :
      (v : String) (s : JtiStore)
      → Held s
      → Held (after v now s) × (v ≡ user → Blocked (after v now s))
  unfolding lookup
  Held-after v s (up, owns, held) = elim (entries-after v user now s up) [
    | inl gone ↦
        let b : Blocked (after v now s) = (own gone.0 held, gone.1) in
        ((up-after v now s ∙ up, OwnsJti-after v s up owns, inr b), λ _. b)
    | inr kept ↦ (
      (
        up-after v now s ∙ up,
        OwnsJti-after v s up owns,
        elim held [
          | inl t ↦ inl (ap (lookup jti) kept.1 ∙ t)
          | inr b ↦
              inr
                (status-after v jti now later s up (owns.0 v) (owns.1 v kept.0) ∙ b.0, kept.1 ∙ b.1)
        ],
      ),
      λ e. absurd (kept.0 e),
    )
  ]
    where
      own : v ≡ user → IsTracked s ⊎ Blocked s → is_jti_revoked jti later (after v now s) ≡ true
      own e (inl t) =
          subst (λ u. is_jti_revoked jti later (after u now s) ≡ true) (sym e)
            (revoke_user_access_blocks user jti exp now later s up (owns.0 user) t le live)
      own e (inr b) =
          subst (λ u. is_jti_revoked jti later (after u now s) ≡ true) (sym e)
            (status-after user jti now later s up (owns.0 user) (ap (lookup jti) b.1) ∙ b.0)

  -- The whole pass: no one fails, and once the owner has been there, the jti is blocked.
  pass-Held :
      (users : List String) (o : BatchOutcome) (s : JtiStore)
      → Held s
      → Held (one_by_one (revoke_or_throw now) users o s).1
        × (Among user users ⊎ Blocked s → Blocked (one_by_one (revoke_or_throw now) users o s).1)
  unfolding one_by_one revoke_or_throw lookup
  pass-Held [] o s h = (h, λ m. elim m [ inl n ↦ absurd n | inr b ↦ b ])
  pass-Held (v ∷ users) o s h =
      let (held, at_owner) = Held-after v s h in
      let (end, blocked) =
        pass-Held users (tally ((revoke_or_throw now v s).0 ∷ []) o) (after v now s) held in
      (
        end,
        λ m. blocked (elim m [
          | inl n ↦ elim n [ inl e ↦ inr (at_owner (sym e)) | inr later_on ↦ inl later_on ]
          | inr b ↦ inr (Held-kept v s h b)
        ]),
      )
    where
      Held-kept : (w : String) (t : JtiStore) → Held t → Blocked t → Blocked (after w now t)
      Held-kept w t k b = elim (Held-after w t (k.0, k.1, inr b)).0.2 [
        | inl still ↦ absurd (untracked w t k.0 b.1 still)
        | inr b' ↦ b'
      ]
        where
          untracked :
              (w : String) (t : JtiStore)
              → t.up ≡ true
              → user_entries user now t ≡ []
              → lookup jti (user_entries user now (after w now t)) ≢ some exp
          untracked w t up e f =
              entries-step (λ es. lookup jti es ≢ some exp) w user t up (λ q. cc)
                (λ q. absurd (none≢some (sym (ap (lookup jti) e) ∙ q))) f

  pass-counts :
      (users : List String) (o : BatchOutcome) (s : JtiStore)
      → s.up ≡ true
      → (one_by_one (revoke_or_throw now) users o s).0
        ≡ record { succeeded = o.succeeded + length users; failed = o.failed }
  unfolding one_by_one
  pass-counts [] o s up = ap (λ n. record { succeeded = n; failed = o.failed }) (omega arith)
  pass-counts (v ∷ users) o s up =
      ap
        (λ b.
          (one_by_one (revoke_or_throw now) users (tally (b ∷ []) o) (revoke_or_throw now v s).1).0)
        (revoke_or_throw-up now v s up)
      ∙ pass-counts users (tally (true ∷ []) o) (revoke_or_throw now v s).1
          (unfold revoke_or_throw in up-after v now s ∙ up)
      ∙ ap (λ n. record { succeeded = n; failed = o.failed }) (omega arith)

  pass-up :
      (users : List String) (o : BatchOutcome) (s : JtiStore)
      → s.up ≡ true
      → (one_by_one (revoke_or_throw now) users o s).1.up ≡ true
  unfolding one_by_one revoke_or_throw
  pass-up [] o s up = up
  pass-up (v ∷ users) o s up = pass-up users _ (after v now s) (up-after v now s ∙ up)

  module _ (order : List String → List String)
      (mixes : (xs : List String) → Permᴰ xs (order xs)) where
    revoked_users :
        (users : List String) (s : JtiStore)
        → Among user users
        → Held s
        → ((revoke_users_access_by_user_id order users now s).0
            ≡ record { succeeded = length users; failed = 0 })
          × Blocked (revoke_users_access_by_user_id order users now s).1
          × ((revoke_users_access_by_user_id order users now s).1.up ≡ true)
    unfolding revoke_users_access_by_user_id
    revoked_users [] s m h = absurd m
    revoked_users (v ∷ users) s m h =
        let start : BatchOutcome = record { succeeded = 0; failed = 0 } in
        let (sched, b, same) =
          (settle_in_batches_once (revoke_or_throw now) order mixes (v ∷ users) s).0 in
        subst
          (λ r.
            (r.0 ≡ record { succeeded = length (v ∷ users); failed = 0 })
            × Blocked r.1
            × (r.1.up ≡ true))
          (sym same)
          (
            pass-counts sched start s h.0
                ∙ ap (λ n. record { succeeded = n; failed = 0 })
                    (omega (arith, InBatches-length b)),
            (pass-Held sched start s h).1 (inl (InBatches-Among user b m)),
            pass-up sched start s h.0,
          )

    -- After a change of rights, when Redis is there, the convergence over the affected users reports
    -- that every one of their revocations succeeded and none failed, in whatever order those of a batch
    -- take effect; and an access token that is tracked for one of them, under a jti that no other user
    -- has, is refused from then until it expires, whatever is written to Redis afterwards (`JtiWrites`),
    -- as long as nothing blocks that jti until an earlier expiry than its own.
    pub authorization_converges :
        (order' : List String → List String) (db : Users) (jitter : String → ℕ)
        (users : List String) (s : AuthorizationState) (jtis : JtiStore)
        → s.jtis.up ≡ true
        → OwnsJti s.jtis
        → IsTracked s.jtis
        → Among user users
        → JtiWrites jti exp
            (revoke_and_refresh_authorization order order' db jitter users now s).1.jtis
            jtis
        → ((revoke_and_refresh_authorization order order' db jitter users now
              s).0.at_revoke_succeeded
            ≡ length users)
          × ((revoke_and_refresh_authorization order order' db jitter users now
                s).0.at_revoke_failed
              ≡ 0)
          × (is_jti_revoked jti later jtis ≡ true)
    unfolding revoke_and_refresh_authorization
    authorization_converges order' db jitter [] s jtis up owns tracked m ws = absurd m
    authorization_converges order' db jitter (v ∷ users) s jtis up owns tracked m ws =
        let (counts, blocked, there) = revoked_users (v ∷ users) s.jtis m (up, owns, inl tracked) in
        (
          ap (λ o. o.succeeded) counts,
          ap (λ o. o.failed) counts,
          JtiWrites-revoked jti exp later live there blocked.0 ws,
        )

revoke_or_throw-down :
    (now : ℕ) (user : String) (s : JtiStore)
    → s.up ≡ false
    → revoke_or_throw now user s ≡ (false, s)
unfolding revoke_or_throw revoke_user_access_by_user_id
revoke_or_throw-down now user s down = ground arith

pass-down :
    (now : ℕ) (users : List String) (o : BatchOutcome) (s : JtiStore)
    → s.up ≡ false
    → one_by_one (revoke_or_throw now) users o s
      ≡ (record { succeeded = o.succeeded; failed = o.failed + length users }, s)
unfolding one_by_one
pass-down now [] o s down =
    ap (λ n. (record { succeeded = o.succeeded; failed = n }, s)) (omega arith)
pass-down now (v ∷ users) o s down =
    ap (λ r. one_by_one (revoke_or_throw now) users (tally (r.0 ∷ []) o) r.1)
      (revoke_or_throw-down now v s down)
    ∙ pass-down now users (tally (false ∷ []) o) s down
    ∙ ap (λ n. (record { succeeded = o.succeeded; failed = n }, s)) (omega arith)

-- When Redis is not there, the convergence reports a failed revocation for every affected user, and
-- no successful one, and changes no record of the tokens, in whatever order those of a batch take
-- effect.
pub outage_is_reported :
    (order order' : List String → List String) (mixes : (xs : List String) → Permᴰ xs (order xs))
    (db : Users) (jitter : String → ℕ) (users : List String) (now : ℕ) (s : AuthorizationState)
    → s.jtis.up ≡ false
    → ((revoke_and_refresh_authorization order order' db jitter users now s).0.at_revoke_succeeded
        ≡ 0)
      × ((revoke_and_refresh_authorization order order' db jitter users now s).0.at_revoke_failed
          ≡ length users)
      × ((revoke_and_refresh_authorization order order' db jitter users now s).1.jtis ≡ s.jtis)
unfolding revoke_and_refresh_authorization revoke_users_access_by_user_id
outage_is_reported order order' mixes db jitter [] now s down = (refl, refl, refl)
outage_is_reported order order' mixes db jitter (v ∷ users) now s down =
    let (sched, b, same) =
      (settle_in_batches_once (revoke_or_throw now) order mixes (v ∷ users) s.jtis).0 in
    let run = same ∙ pass-down now sched (record { succeeded = 0; failed = 0 }) s.jtis down in
    (
      ap (λ r. r.0.succeeded) run,
      ap (λ r. r.0.failed) run ∙ omega (arith, InBatches-length b),
      ap (λ r. r.1) run,
    )
