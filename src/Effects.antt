-- ===== src/Effects.antt =====
-- The convergence after a change of rights: apps/portal/src/lib/auth/authorization-effects.ts, with
-- revokeUsersAccessByUserId of lib/session/revoke.ts and refreshUsersPermissionCache of
-- lib/permissions.ts. The jitter that is drawn for a user is an argument, and so is the order in which
-- the operations of a batch take effect.
pub mod Converged
use auth_sso.Base.{ℕ, String, Bool, not, List, [], ◌∷◌, length}
use auth_sso.Batch.{BatchOutcome, settle_in_batches}
use auth_sso.Session.Jti.{JtiStore, UserRevokeOutcome, revoke_user_access_by_user_id}
use auth_sso.Permissions.{Users, PermissionCache, refresh_user_permission_cache}

pub record CacheEffectResult : Type 0 where
  pub users : ℕ
  pub cache_failed : ℕ

pub record RevocationEffectResult : Type 0 where
  pub users : ℕ
  pub at_revoke_succeeded : ℕ
  pub at_revoke_failed : ℕ
  pub cache_failed : ℕ

-- The state of Redis that the two actions change.
pub record AuthorizationState : Type 0 where
  pub jtis : JtiStore
  pub cache : PermissionCache

-- `if (outcome.failed) throw`
unfoldable pub revoke_or_throw : ℕ → String → JtiStore → Bool × JtiStore
revoke_or_throw now user s =
    let (outcome, after) = revoke_user_access_by_user_id user now s in (not outcome.failed, after)

unfoldable pub revoke_users_access_by_user_id :
    (List String → List String) → List String → ℕ → JtiStore → BatchOutcome × JtiStore
revoke_users_access_by_user_id order [] now s = (record { succeeded = 0; failed = 0 }, s)
revoke_users_access_by_user_id order (user ∷ users) now s =
    settle_in_batches (revoke_or_throw now) order (user ∷ users) s

abbrev pub refresh_or_throw :
    Users → (String → ℕ) → ℕ → String → PermissionCache → Bool × PermissionCache
refresh_or_throw db jitter now user s = refresh_user_permission_cache db user (jitter user) now s

unfoldable pub refresh_users_permission_cache :
    (List String → List String)
    → Users
    → (String → ℕ)
    → List String
    → ℕ
    → PermissionCache
    → BatchOutcome × PermissionCache
refresh_users_permission_cache order db jitter [] now s = (record { succeeded = 0; failed = 0 }, s)
refresh_users_permission_cache order db jitter (user ∷ users) now s =
    settle_in_batches (refresh_or_throw db jitter now) order (user ∷ users) s

unfoldable refresh_authorization_cache :
    (List String → List String)
    → Users
    → (String → ℕ)
    → List String
    → ℕ
    → AuthorizationState
    → CacheEffectResult × AuthorizationState
refresh_authorization_cache order db jitter [] now s = (record { users = 0; cache_failed = 0 }, s)
refresh_authorization_cache order db jitter (user ∷ users) now s =
    let (outcome, cache) =
      refresh_users_permission_cache order db jitter (user ∷ users) now s.cache in
    (
      record { users = length (user ∷ users); cache_failed = outcome.failed },
      record s { cache = cache },
    )

-- First the revocation, in one order, then the refresh, in another.
unfoldable pub revoke_and_refresh_authorization :
    (List String → List String)
    → (List String → List String)
    → Users
    → (String → ℕ)
    → List String
    → ℕ
    → AuthorizationState
    → RevocationEffectResult × AuthorizationState
revoke_and_refresh_authorization order order' db jitter [] now s =
    (record { users = 0; at_revoke_succeeded = 0; at_revoke_failed = 0; cache_failed = 0 }, s)
revoke_and_refresh_authorization order order' db jitter (user ∷ users) now s =
    let (revoke, jtis) = revoke_users_access_by_user_id order (user ∷ users) now s.jtis in
    let (outcome, cache) =
      refresh_users_permission_cache order' db jitter (user ∷ users) now s.cache in
    (
      record {
        users = length (user ∷ users);
        at_revoke_succeeded = revoke.succeeded;
        at_revoke_failed = revoke.failed;
        cache_failed = outcome.failed;
      },
      record { jtis = jtis; cache = cache },
    )
