-- ===== src/Permissions/Freshness.antt =====
-- The cache against the database: what it answers while the rows stay as they are, when the
-- database fails, and after a refresh.
use auth_sso.Base.{
  ℕ, ◌+◌, ◌*◌, String, ◌≡◌, refl, sym, ap, ◌∙◌, subst, ◌⊎◌, inl, inr, Bool, true, false, Option,
  none, some, List, arith, eq_iff, if◌then◌else◌, lookup, lookup-insert, Option-cases,
}
use auth_sso.Contracts.{user_is_active}
use auth_sso.Permissions.{
  UserRow, UserPermissionContext, CachedContext, PermissionCache, Users, ContextResult, found,
  denied, inactive, context_of, is_marked, cached, store_context, mark_null, mark_unavailable,
  answer_row, query_users, read_cache, cache_answer, get_user_permission_context,
  jittered_cache_ttl,
}

-- The rows hold an active user, and the context is his.
abbrev pub Current : (String → Option UserRow) → String → UserPermissionContext → Type 0
Current rows user context =
    (row : UserRow) × (rows user ≡ some row)
    × (user_is_active row.status ≡ true)
    × (context ≡ context_of row)

-- Every cached context is the one of the rows.
pub record IsCoherent (rows : String → Option UserRow) (s : PermissionCache) : Type 0 where
  pub at_user :
      (user : String) (c : CachedContext)
      → lookup user s.contexts ≡ some c
      → Current rows user c.context

-- A result that is a context is the one of the rows.
abbrev pub TellsCurrent : (String → Option UserRow) → String → ContextResult → Type 0
TellsCurrent rows user (found context) = Current rows user context
TellsCurrent rows user _ = Unit

stored :
    (user u : String) (context : UserPermissionContext) (c : CachedContext) (ttl now : ℕ)
    (s : PermissionCache)
    → lookup u (store_context user context ttl now s).contexts ≡ some c
    → ((user ≡ u) × (context ≡ c.context)) ⊎ (lookup u s.contexts ≡ some c)
unfolding store_context
stored user u context c ttl now s e = ground (
  arith,
  lookup-insert user u (record { context = context; deadline = now + ttl * 1000 }) s.contexts,
  eq_iff user u,
)

pub store_context-IsCoherent :
    (rows : String → Option UserRow) (user : String) (context : UserPermissionContext) (ttl now : ℕ)
    (s : PermissionCache)
    → IsCoherent rows s
    → Current rows user context
    → IsCoherent rows (store_context user context ttl now s)
store_context-IsCoherent rows user context ttl now s h k = record {
  at_user = λ u c e. elim (stored user u context c ttl now s e) [
    | inl (same, eq) ↦ subst (λ v. Current rows v c.context) same (subst (Current rows user) eq k)
    | inr old ↦ h.at_user u c old
  ];
}

IsCoherent-same :
    (rows : String → Option UserRow) (s t : PermissionCache)
    → t.contexts ≡ s.contexts
    → IsCoherent rows s
    → IsCoherent rows t
IsCoherent-same rows s t e h = record {
  at_user = λ u c m. h.at_user u c (ap (λ l. lookup u l) (sym e) ∙ m);
}

contexts-mark_null :
    (user : String) (now : ℕ) (s : PermissionCache) → (mark_null user now s).contexts ≡ s.contexts
contexts-mark_null user now s = ground arith

contexts-mark_unavailable :
    (user : String) (now : ℕ) (s : PermissionCache)
    → (mark_unavailable user now s).contexts ≡ s.contexts
contexts-mark_unavailable user now s = ground arith

-- What an answer and the cache after it must satisfy.
abbrev Faithful : (String → Option UserRow) → String → ContextResult × PermissionCache → Type 0
Faithful rows user (result, s) = TellsCurrent rows user result × IsCoherent rows s

answer_row-Faithful :
    (rows : String → Option UserRow) (user : String) (row : Option UserRow) (ttl now : ℕ)
    (s : PermissionCache)
    → rows user ≡ row
    → IsCoherent rows s
    → Faithful rows user (answer_row row user ttl now s)
answer_row-Faithful rows user none ttl now s e h =
    (tt, IsCoherent-same rows s (mark_null user now s) (contexts-mark_null user now s) h)
answer_row-Faithful rows user (some row) ttl now s e h = split (user_is_active row.status) refl
  where
    split :
        (b : Bool)
        → user_is_active row.status ≡ b
        → Faithful rows user (
            if b
            then (found (context_of row), store_context user (context_of row) ttl now s)
            else (denied inactive, s))
    split true a =
        let k : Current rows user (context_of row) = (row, e, a, refl) in
        (k, store_context-IsCoherent rows user (context_of row) ttl now s h k)
    split false a = (tt, h)

query_users-Faithful :
    (rows : String → Option UserRow) (db : Users) (user : String) (ttl now : ℕ)
    (s : PermissionCache)
    → (db ≡ none) ⊎ (db ≡ some rows)
    → IsCoherent rows s
    → Faithful rows user (query_users db user ttl now s)
unfolding query_users
query_users-Faithful rows none user ttl now s d h = (
  tt,
  IsCoherent-same rows s (mark_unavailable user now s) (contexts-mark_unavailable user now s) h,
)
query_users-Faithful rows (some r) user ttl now s d h =
    answer_row-Faithful rows user (r user) ttl now s (ground arith) h

cached_entry :
    (user : String) (now : ℕ) (m : List (String × CachedContext)) (context : UserPermissionContext)
    → cached user now m ≡ some context
    → (c : CachedContext) × (lookup user m ≡ some c) × (c.context ≡ context)
cached_entry user now m context h = elim (Option-cases (lookup user m)) [
  | inl e ↦ absurd (ground arith)
  | inr (c, e) ↦ (c, e, ground arith)
]

read_cache-Faithful :
    (rows : String → Option UserRow) (db : Users) (user : String) (ttl now : ℕ)
    (s : PermissionCache)
    → (db ≡ none) ⊎ (db ≡ some rows)
    → IsCoherent rows s
    → Faithful rows user (read_cache db user ttl now s)
read_cache-Faithful rows db user ttl now s d h =
    split (is_marked user now s.unavailables) (is_marked user now s.nulls)
      (cached user now s.contexts) refl
  where
    split :
        (b b' : Bool) (o : Option UserPermissionContext)
        → cached user now s.contexts ≡ o
        → Faithful rows user (cache_answer b b' o (query_users db user ttl now s) s)
    split true b' o e = (tt, h)
    split false true o e = (tt, h)
    split false false (some context) e =
        let (c, m, same) = cached_entry user now s.contexts context e in
        (subst (Current rows user) same (h.at_user user c m), h)
    split false false none e = query_users-Faithful rows db user ttl now s d h

-- While the rows stay as they are and every cached context is theirs, an answer that is a context
-- is the one of an active user of the rows, whether it came from the cache or from a database that
-- may fail, and the cached contexts stay those of the rows.
pub get_user_permission_context_faithful :
    (rows : String → Option UserRow) (db : Users) (user : String) (jitter now : ℕ)
    (s : PermissionCache)
    → (db ≡ none) ⊎ (db ≡ some rows)
    → IsCoherent rows s
    → TellsCurrent rows user (get_user_permission_context db user jitter now s).0
      × IsCoherent rows (get_user_permission_context db user jitter now s).1
unfolding get_user_permission_context
get_user_permission_context_faithful rows db user jitter now s d h = split s.up
  where
    split :
        (b : Bool)
        → Faithful rows user (
            if b
            then read_cache db user (jittered_cache_ttl jitter) now s
            else query_users db user (jittered_cache_ttl jitter) now s)
    split true = read_cache-Faithful rows db user (jittered_cache_ttl jitter) now s d h
    split false = query_users-Faithful rows db user (jittered_cache_ttl jitter) now s d h
