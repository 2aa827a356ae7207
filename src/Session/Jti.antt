-- ===== src/Session/Jti.antt =====
-- apps/portal/src/lib/session/revoke.ts. The two namespaces of Redis that it uses are maps: the
-- blocklist from a jti to the time at which Redis drops the key, and for each user a hash from a
-- jti to the expiry of its token, with the time at which Redis drops the whole hash. Times at
-- which Redis drops a key are in milliseconds, expiries of tokens in seconds.
pub mod Revoked
pub mod Later
pub mod Forgotten
use auth_sso.Base.{
  ℕ, ◌+◌, ◌-◌, ◌*◌, ◌/◌, max, String, Bool, true, false, Option, none, some, List, [], ◌∷◌, ltb,
  if◌then◌else◌, lookup, insert, remove, length,
}

pub record UserJtis : Type 0 where
  pub entries : List (String × ℕ)
  pub deadline : ℕ

-- `up` is false when Redis is not there or every command fails.
pub record JtiStore : Type 0 where
  pub up : Bool
  pub blocklist : List (String × ℕ)
  pub users : List (String × UserJtis)

abbrev pub seconds : ℕ → ℕ
seconds now = now / 1000

-- The time that a token is still to live, as SETEX gets it.
abbrev pub remaining : ℕ → ℕ → ℕ
remaining exp now = max (exp - seconds now) 1

abbrev pub block : ℕ → String → ℕ → List (String × ℕ) → List (String × ℕ)
block now jti exp = insert jti (now + remaining exp now * 1000)

unfoldable pub revoke_jti : String → ℕ → ℕ → JtiStore → JtiStore
revoke_jti jti exp now s =
    if s.up then record s { blocklist = block now jti exp s.blocklist } else s

abbrev is_live : ℕ → Option ℕ → Bool
is_live now none = false
is_live now (some deadline) = ltb now deadline

-- Closed on failure: without Redis every jti counts as revoked.
unfoldable pub is_jti_revoked : String → ℕ → JtiStore → Bool
is_jti_revoked jti now s = if s.up then is_live now (lookup jti s.blocklist) else true

-- HGETALL: a hash that Redis has dropped is empty.
abbrev pub live_entries : ℕ → Option UserJtis → List (String × ℕ)
live_entries now none = []
live_entries now (some h) = if ltb now h.deadline then h.entries else []

abbrev pub user_entries : String → ℕ → JtiStore → List (String × ℕ)
user_entries user now s = live_entries now (lookup user s.users)

-- HSET and EXPIRE: the lifetime of the whole hash is set anew by each token.
unfoldable pub track_user_jti : String → String → ℕ → ℕ → JtiStore → JtiStore
track_user_jti user jti ttl now s =
    if s.up
    then record s {
      users =
          insert user
            (record {
              entries = insert jti (seconds now + ttl) (user_entries user now s);
              deadline = now + max ttl 1 * 1000;
            })
            s.users;
    }
    else s

pub record UserRevokeOutcome : Type 0 where
  pub revoked : ℕ
  pub failed : Bool

-- The pipeline of SETEX commands.
unfoldable pub block_all : ℕ → List (String × ℕ) → List (String × ℕ) → List (String × ℕ)
block_all now [] blocked = blocked
block_all now ((jti, exp) ∷ entries) blocked = block_all now entries (block now jti exp blocked)

abbrev pub revoke_entries : String → ℕ → List (String × ℕ) → JtiStore → UserRevokeOutcome × JtiStore
revoke_entries user now [] s = (record { revoked = 0; failed = false }, s)
revoke_entries user now (e ∷ es) s = (
  record { revoked = length (e ∷ es); failed = false },
  record s { blocklist = block_all now (e ∷ es) s.blocklist; users = remove user s.users },
)

unfoldable pub revoke_user_access_by_user_id : String → ℕ → JtiStore → UserRevokeOutcome × JtiStore
revoke_user_access_by_user_id user now s =
    if s.up
    then revoke_entries user now (user_entries user now s) s
    else (record { revoked = 0; failed = true }, s)
