-- ===== src/Tests/Sessions.antt =====
-- Revocation of access tokens.
use auth_sso.Base.{◌≡◌, refl, true, false, [], ◌∷◌, arith}
use auth_sso.Session.Jti.{JtiStore, is_jti_revoked, track_user_jti, revoke_user_access_by_user_id}
use auth_sso.Session.Jti.Revoked.{after}
use auth_sso.Session.Jti.Forgotten.{short_token_forgets}

-- One token of alice, which expires at second 100.
abbrev tracked : JtiStore
tracked = record {
  up = true;
  blocklist = [];
  users = ("alice", record { entries = ("j1", 100) ∷ []; deadline = 100000 }) ∷ [];
}

-- The token j1 lives until second 100, but j2 makes the hash end at second 61.
short_token_forgets_example :
    ((revoke_user_access_by_user_id "alice" 70000 (track_user_jti "alice" "j2" 60 1000 tracked)).0
      ≡ record { revoked = 0; failed = false })
    × (is_jti_revoked "j1" 80000 (after "alice" 70000 (track_user_jti "alice" "j2" 60 1000 tracked))
        ≡ is_jti_revoked "j1" 80000 tracked)
short_token_forgets_example =
    short_token_forgets "alice" "j2" 60 1000 70000 80000 "j1" tracked refl (omega arith)
      (omega arith)
