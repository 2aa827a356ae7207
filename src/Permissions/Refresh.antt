-- ===== src/Permissions/Refresh.antt =====
-- Refreshing the cache of a user, and what a database that fails may cause.
use auth_sso.Base.{
  ℕ, ◌+◌, ◌*◌, ◌<◌, String, ◌≡◌, ◌≢◌, refl, sym, ap, subst, ◌∙◌, inl, inr, Bool, true, false,
  Option, none, some, arith, eq_refl, if◌then◌else◌, lookup-insert, lookup-remove, Bool-cases,
  if_true,
}
use auth_sso.Contracts.{user_is_active}
use auth_sso.Permissions.{
  UserRow, UserPermissionContext, PermissionCache, Users, Denial, ContextResult, denied, context_of,
  is_marked, cached, store_context, answer_row, query_users, read_cache, cache_answer,
  get_user_permission_context, jittered_cache_ttl, is_found, refreshed,
  refresh_user_permission_cache, clear_user_permission_cache,
}

-- The database answers with an active user, and the cache holds his context until the deadline.
pub record IsRefreshed (db : Users) (user : String) (deadline : ℕ) (s : PermissionCache)
    : Type 0 where
  pub rows : String → Option UserRow
  pub row : UserRow
  pub answers : db ≡ some rows
  pub listed : rows user ≡ some row
  pub active : user_is_active row.status ≡ true
  pub kept : (later : ℕ) → later < deadline → cached user later s.contexts ≡ some (context_of row)

cached-store_context :
    (user : String) (context : UserPermissionContext) (ttl now later : ℕ) (s : PermissionCache)
    → s.up ≡ true
    → later < now + ttl * 1000
    → cached user later (store_context user context ttl now s).contexts ≡ some context
unfolding store_context
cached-store_context user context ttl now later s up h = ground (
  arith,
  lookup-insert user user (record { context = context; deadline = now + ttl * 1000 }) s.contexts,
  eq_refl user,
)

query_users-IsRefreshed :
    (db : Users) (user : String) (ttl now : ℕ) (s : PermissionCache)
    → s.up ≡ true
    → is_found (query_users db user ttl now s).0 ≡ true
    → IsRefreshed db user (now + ttl * 1000) (query_users db user ttl now s).1
unfolding query_users
query_users-IsRefreshed none user ttl now s up h = cc
query_users-IsRefreshed (some rows) user ttl now s up h = split (rows user) refl h
  where
    split :
        (o : Option UserRow)
        → rows user ≡ o
        → is_found (answer_row o user ttl now s).0 ≡ true
        → IsRefreshed (some rows) user (now + ttl * 1000) (answer_row o user ttl now s).1
    split none e k = cc
    split (some row) e k = elim (Bool-cases (user_is_active row.status)) [
      | inl a ↦ record {
        rows = rows;
        row = row;
        answers = refl;
        listed = e;
        active = a;
        kept = λ later lt.
            ap (λ (r : ContextResult × PermissionCache). cached user later r.1.contexts)
              (if_true (user_is_active row.status) _ a)
            ∙ cached-store_context user (context_of row) ttl now later s up lt;
      }
      | inr a ↦ absurd (ground arith)
    ]

-- With no context in the cache, a context is found only by asking the database.
read_cache-IsRefreshed :
    (db : Users) (user : String) (ttl now : ℕ) (s : PermissionCache)
    → s.up ≡ true
    → cached user now s.contexts ≡ none
    → is_found (read_cache db user ttl now s).0 ≡ true
    → IsRefreshed db user (now + ttl * 1000) (read_cache db user ttl now s).1
read_cache-IsRefreshed db user ttl now s up e h =
    split (is_marked user now s.unavailables) (is_marked user now s.nulls)
      (cached user now s.contexts) e h
  where
    split :
        (b b' : Bool) (o : Option UserPermissionContext)
        → o ≡ none
        → is_found (cache_answer b b' o (query_users db user ttl now s) s).0 ≡ true
        → IsRefreshed db user
            (now + ttl * 1000)
            (cache_answer b b' o (query_users db user ttl now s) s).1
    split true b' o e h = cc
    split false true o e h = cc
    split false false (some context) e h = cc
    split false false none e h = query_users-IsRefreshed db user ttl now s up h

up-clear : (user : String) (s : PermissionCache) → (clear_user_permission_cache user s).up ≡ s.up
unfolding clear_user_permission_cache
up-clear user s = ground arith

cached-clear :
    (user : String) (now : ℕ) (s : PermissionCache)
    → s.up ≡ true
    → cached user now (clear_user_permission_cache user s).contexts ≡ none
unfolding clear_user_permission_cache
cached-clear user now s up = ground (arith, lookup-remove user user s.contexts, eq_refl user)

get_cleared-IsRefreshed :
    (db : Users) (user : String) (jitter now : ℕ) (s : PermissionCache)
    → s.up ≡ true
    → is_found
        (get_user_permission_context db user jitter now (clear_user_permission_cache user s)).0
      ≡ true
    → IsRefreshed db user
        (now + jittered_cache_ttl jitter * 1000)
        (get_user_permission_context db user jitter now (clear_user_permission_cache user s)).1
unfolding get_user_permission_context
get_cleared-IsRefreshed db user jitter now s up h =
    subst (λ r. IsRefreshed db user (now + jittered_cache_ttl jitter * 1000) r.1) (sym same)
      (read_cache-IsRefreshed db user (jittered_cache_ttl jitter) now t live
        (cached-clear user now s up) (ap (λ r. is_found r.0) (sym same) ∙ h))
  where
    t : PermissionCache
    t = clear_user_permission_cache user s

    live : t.up ≡ true
    live = up-clear user s ∙ up

    same :
        get_user_permission_context db user jitter now t
        ≡ read_cache db user (jittered_cache_ttl jitter) now t
    same = if_true t.up _ live

-- A refresh that reports success has asked the database, found an active user, and left in the
-- cache the context of his rows, for the whole lifetime of the entry.
refresh_success :
    (db : Users) (user : String) (jitter now : ℕ) (s : PermissionCache)
    → (refresh_user_permission_cache db user jitter now s).0 ≡ true
    → IsRefreshed db user
        (now + jittered_cache_ttl jitter * 1000)
        (refresh_user_permission_cache db user jitter now s).1
unfolding refresh_user_permission_cache
refresh_success db user jitter now s h = split s.up refl h
  where
    split :
        (b : Bool)
        → s.up ≡ b
        → (if b
            then refreshed (
                get_user_permission_context db user jitter now (clear_user_permission_cache user s))
            else (false, s)).0
          ≡ true
        → IsRefreshed db user
            (now + jittered_cache_ttl jitter * 1000)
            (if b
              then refreshed (
                  get_user_permission_context db user jitter now
                    (clear_user_permission_cache user s))
              else (false, s)).1
    split false up h = cc
    split true up h = get_cleared-IsRefreshed db user jitter now s up h

-- A database that fails never makes a user look absent or inactive, but for a mark that still
-- stands, and it leaves no such mark.
outage_never_denies :
    (user : String) (jitter now : ℕ) (s : PermissionCache) (reason : Denial)
    → is_marked user now s.nulls ≡ false
    → ((get_user_permission_context none user jitter now s).0 ≢ denied reason)
      × ((get_user_permission_context none user jitter now s).1.nulls ≡ s.nulls)
unfolding get_user_permission_context query_users
outage_never_denies user jitter now s reason h = (λ e. ground arith, ground arith)
