-- ===== src/Session/Jti/Later.antt =====
-- A token that is blocked, and what is written to Redis afterwards.
use auth_sso.Base.{
  ℕ, ◌+◌, ◌*◌, ◌≤◌, ◌<◌, String, Bool, true, false, ◌≡◌, refl, ◌∙◌, subst, sym, ◌⊎◌, inl, inr,
  Bool-cases, Option, none, some, arith, eq_iff, lookup, lookup-insert, Distinct, ◌==◌,
  if◌then◌else◌,
}
use auth_sso.Session.Jti.{
  JtiStore, remaining, user_entries, is_jti_revoked, revoke_jti, track_user_jti,
  revoke_user_access_by_user_id, block,
}
use auth_sso.Session.Jti.Revoked.{blocked_at, lookup-blocklist_after, run_down}

-- The jti is not tracked, or not with an earlier expiry.
abbrev pub NotEarlier : ℕ → Option ℕ → Type 0
NotEarlier exp none = Unit
NotEarlier exp (some other) = exp ≤ other

-- What the functions on Redis write, where none of them blocks this jti until an earlier expiry than
-- this one, and the hashes name no jti twice; and Redis may go and come back with its data.
pub data JtiWrite (jti : String) (exp : ℕ) : JtiStore → JtiStore → Type 0 where
  blocks :
      (other : String) (until now : ℕ) (s : JtiStore)
      → (other ≡ jti → exp ≤ until)
      → JtiWrite jti exp s (revoke_jti other until now s)
  tracks :
      (user other : String) (ttl now : ℕ) (s : JtiStore)
      → JtiWrite jti exp s (track_user_jti user other ttl now s)
  revokes :
      (user : String) (now : ℕ) (s : JtiStore)
      → Distinct (user_entries user now s)
      → NotEarlier exp (lookup jti (user_entries user now s))
      → JtiWrite jti exp s (revoke_user_access_by_user_id user now s).1
  turns : (up : Bool) (s : JtiStore) → JtiWrite jti exp s (record s { up = up })

-- Any number of them, in any order.
pub data JtiWrites (jti : String) (exp : ℕ) (s : JtiStore) : JtiStore → Type 0 where
  done : JtiWrites jti exp s s
  more : {t u : JtiStore} → JtiWrites jti exp s t → JtiWrite jti exp t u → JtiWrites jti exp s u

module _ (jti : String) (exp later : ℕ) (live : later < exp * 1000) where
  -- The blocklist holds the jti beyond that time, whether Redis can be reached or not.
  abbrev HeldAt : JtiStore → Type 0
  HeldAt s = (d : ℕ) × (lookup jti s.blocklist ≡ some d) × (later < d)

  HeldAt-revoked : (s : JtiStore) → HeldAt s → is_jti_revoked jti later s ≡ true
  unfolding is_jti_revoked
  HeldAt-revoked s (d, e, lt) = ground (arith, e)

  revoked-HeldAt : (s : JtiStore) → s.up ≡ true → is_jti_revoked jti later s ≡ true → HeldAt s
  unfolding is_jti_revoked
  revoked-HeldAt s up h = at (lookup jti s.blocklist) refl
    where
      at : (o : Option ℕ) → lookup jti s.blocklist ≡ o → HeldAt s
      at none e = absurd (ground (arith, up, e, h))
      at (some d) e = (d, e, ground (arith, up, e, h))

  revoke_jti-HeldAt :
      (other : String) (until now : ℕ) (s : JtiStore)
      → (other ≡ jti → exp ≤ until)
      → HeldAt s
      → HeldAt (revoke_jti other until now s)
  unfolding revoke_jti
  revoke_jti-HeldAt other until now s ok (d, e, lt) =
      by_up s.up (by_name (Bool-cases (other == jti)))
    where
      by_name :
          ((other == jti) ≡ true) ⊎ ((other == jti) ≡ false)
          → HeldAt (record s { blocklist = block now other until s.blocklist })
      by_name (inl same) = (
        now + remaining until now * 1000,
        ground
            (arith, lookup-insert other jti (now + remaining until now * 1000) s.blocklist, same),
        by_bound (ok ((eq_iff other jti).0 same)),
      )
        where
          by_bound : exp ≤ until → later < now + remaining until now * 1000
          by_bound le = ground (arith, le)
      by_name (inr distinct) = (
        d,
        ground (
          arith,
          lookup-insert other jti (now + remaining until now * 1000) s.blocklist,
          distinct,
          e,
        ),
        lt,
      )

      by_up :
          (b : Bool)
          → HeldAt (record s { blocklist = block now other until s.blocklist })
          → HeldAt (if b then record s { blocklist = block now other until s.blocklist } else s)
      by_up true h = h
      by_up false h = (d, e, lt)

  blocked_at-HeldAt :
      (now : ℕ) (o before : Option ℕ)
      → NotEarlier exp o
      → (d : ℕ) × (before ≡ some d) × (later < d)
      → (d : ℕ) × (blocked_at now o before ≡ some d) × (later < d)
  blocked_at-HeldAt now none before ok h = h
  blocked_at-HeldAt now (some until) before ok h =
      (now + remaining until now * 1000, refl, ground (arith, ok))

  revoke_user-HeldAt :
      (user : String) (now : ℕ) (s : JtiStore)
      → Distinct (user_entries user now s)
      → NotEarlier exp (lookup jti (user_entries user now s))
      → HeldAt s
      → HeldAt (revoke_user_access_by_user_id user now s).1
  revoke_user-HeldAt user now s distinct ok h = elim (Bool-cases s.up) [
    | inl up ↦
        let (d, e, lt) =
          blocked_at-HeldAt now (lookup jti (user_entries user now s)) (lookup jti s.blocklist) ok
            h in
        (d, lookup-blocklist_after user now s jti up distinct ∙ e, lt)
    | inr down ↦ subst (λ r. HeldAt r.1) (sym (run_down user now s down)) h
  ]

  JtiWrite-HeldAt : {s t : JtiStore} → JtiWrite jti exp s t → HeldAt s → HeldAt t
  JtiWrite-HeldAt (blocks other until now s ok) h = revoke_jti-HeldAt other until now s ok h
  JtiWrite-HeldAt (tracks user other ttl now s) (d, e, lt) =
      (d, unfold track_user_jti in ground (arith, e), lt)
  JtiWrite-HeldAt (revokes user now s distinct ok) h = revoke_user-HeldAt user now s distinct ok h
  JtiWrite-HeldAt (turns up s) h = h

  JtiWrites-HeldAt : {s t : JtiStore} → JtiWrites jti exp s t → HeldAt s → HeldAt t
  JtiWrites-HeldAt done h = h
  JtiWrites-HeldAt (more ws w) h = JtiWrite-HeldAt w (JtiWrites-HeldAt ws h)

  -- A jti that is blocked at that time, with Redis there, is so after any further writes.
  pub JtiWrites-revoked :
      {s t : JtiStore}
      → s.up ≡ true
      → is_jti_revoked jti later s ≡ true
      → JtiWrites jti exp s t
      → is_jti_revoked jti later t ≡ true
  JtiWrites-revoked {s} {t} up h ws = HeldAt-revoked t (JtiWrites-HeldAt ws (revoked-HeldAt s up h))
