-- ===== src/Permissions.antt =====
-- apps/portal/src/lib/permissions.ts: the permission context of a user, from the rows of the
-- database, behind a cache in Redis. The three kinds of keys of the cache are three maps by user: the
-- contexts, the marks of users that do not exist, and the marks of a database that failed.
-- A key holds its value until its deadline, in milliseconds.
pub mod Context
pub mod Freshness
pub mod Refresh
use auth_sso.Base.{
  ℕ, ◌+◌, ◌*◌, String, Bool, true, false, Option, none, some, List, [], ◌∷◌, ◌++◌, ltb,
  if◌then◌else◌, lookup, insert, remove, includes, truthy_text,
}
use auth_sso.Contracts.{UserStatus, EntityStatus, user_is_active, entity_is_active}

pub record PermissionRow : Type 0 where
  pub code : String
  pub status : EntityStatus

-- A role with its permissions; a null relation is `none`.
pub record RoleRow : Type 0 where
  pub id : String
  pub code : String
  pub name : String
  pub dept_id : String
  pub status : EntityStatus
  pub permissions : List (Option PermissionRow)

pub record UserRow : Type 0 where
  pub status : UserStatus
  pub password_changed_at : Option ℕ
  pub roles : List (Option RoleRow)

pub record RoleRef : Type 0 where
  pub id : String
  pub code : String
  pub name : String

pub record UserPermissionContext : Type 0 where
  pub roles : List RoleRef
  pub permissions : List String
  pub dept_ids : List String
  pub must_change_password : Bool

pub data Denial : Type 0 where
  user_not_found inactive : Denial

pub data ContextResult : Type 0 where
  found : UserPermissionContext → ContextResult
  denied : Denial → ContextResult
  unavailable : ContextResult

-- The roles that are there and ACTIVE.
unfoldable pub active_roles : List (Option RoleRow) → List RoleRow
active_roles [] = []
active_roles (none ∷ rs) = active_roles rs
active_roles (some r ∷ rs) =
    let rest = active_roles rs in if entity_is_active r.status then r ∷ rest else rest

-- The codes of the permissions that are there and ACTIVE.
unfoldable pub active_codes : List (Option PermissionRow) → List String
active_codes [] = []
active_codes (none ∷ ps) = active_codes ps
active_codes (some p ∷ ps) =
    let rest = active_codes ps in if entity_is_active p.status then p.code ∷ rest else rest

unfoldable pub all_codes : List RoleRow → List String
all_codes [] = []
all_codes (r ∷ rs) = active_codes r.permissions ++ all_codes rs

-- Array.from(new Set(xs)): the first of equal entries stays.
unfoldable pub dedup_from : List String → List String → List String
dedup_from seen [] = []
dedup_from seen (x ∷ xs) =
    let skip = dedup_from seen xs in
    let take = x ∷ dedup_from (x ∷ seen) xs in if includes seen x then skip else take

abbrev pub dedup : List String → List String
dedup = dedup_from []

unfoldable pub dept_ids_of : List RoleRow → List String
dept_ids_of [] = []
dept_ids_of (r ∷ rs) =
    let rest = dept_ids_of rs in if truthy_text r.dept_id then r.dept_id ∷ rest else rest

unfoldable pub role_refs : List RoleRow → List RoleRef
role_refs [] = []
role_refs (r ∷ rs) = record { id = r.id; code = r.code; name = r.name } ∷ role_refs rs

abbrev is_null : Option ℕ → Bool
is_null none = true
is_null (some _) = false

-- With no active role the source returns early, with the same empty lists.
unfoldable pub context_of : UserRow → UserPermissionContext
context_of user = record {
  roles = role_refs (active_roles user.roles);
  permissions = dedup (all_codes (active_roles user.roles));
  dept_ids = dedup (dept_ids_of (active_roles user.roles));
  must_change_password = is_null user.password_changed_at;
}

pub record CachedContext : Type 0 where
  pub context : UserPermissionContext
  pub deadline : ℕ

-- `up` is false when `getRedis` or every command throws.
pub record PermissionCache : Type 0 where
  pub up : Bool
  pub contexts : List (String × CachedContext)
  pub nulls : List (String × ℕ)
  pub unavailables : List (String × ℕ)

-- The database: `none` when the query throws, and then for a user the row or null.
abbrev pub Users : Type 0
Users = Option (String → Option UserRow)

abbrev null_cache_ttl : ℕ
null_cache_ttl = 60

abbrev unavailable_cache_ttl : ℕ
unavailable_cache_ttl = 5

-- `jitteredCacheTtl`: 3600 and a random number from -300 to 300; `jitter` is that number plus 300.
abbrev pub jittered_cache_ttl : ℕ → ℕ
jittered_cache_ttl jitter = 3300 + jitter

abbrev pub is_marked : String → ℕ → List (String × ℕ) → Bool
is_marked user now marks = elim (lookup user marks) [ none ↦ false | some d ↦ ltb now d ]

abbrev pub cached : String → ℕ → List (String × CachedContext) → Option UserPermissionContext
cached user now m = elim (lookup user m) [
  | none ↦ none
  | some c ↦ if ltb now c.deadline then some c.context else none
]

unfoldable pub store_context :
    String → UserPermissionContext → ℕ → ℕ → PermissionCache → PermissionCache
store_context user context ttl now s =
    if s.up
    then record s {
      contexts = insert user (record { context = context; deadline = now + ttl * 1000 }) s.contexts;
    }
    else s

abbrev pub mark_null : String → ℕ → PermissionCache → PermissionCache
mark_null user now s =
    if s.up then record s { nulls = insert user (now + null_cache_ttl * 1000) s.nulls } else s

abbrev pub mark_unavailable : String → ℕ → PermissionCache → PermissionCache
mark_unavailable user now s =
    if s.up
    then record s { unavailables = insert user (now + unavailable_cache_ttl * 1000) s.unavailables }
    else s

-- Step 2, once the row has been read.
abbrev pub answer_row :
    Option UserRow → String → ℕ → ℕ → PermissionCache → ContextResult × PermissionCache
answer_row none user ttl now s = (denied user_not_found, mark_null user now s)
answer_row (some row) user ttl now s =
    if user_is_active row.status
    then (found (context_of row), store_context user (context_of row) ttl now s)
    else (denied inactive, s)

unfoldable pub query_users :
    Users → String → ℕ → ℕ → PermissionCache → ContextResult × PermissionCache
query_users none user ttl now s = (unavailable, mark_unavailable user now s)
query_users (some rows) user ttl now s = answer_row (rows user) user ttl now s

-- What step 1 answers: the marks first, then the context, then what the database says.
abbrev pub cache_answer :
    Bool
    → Bool
    → Option UserPermissionContext
    → ContextResult × PermissionCache
    → PermissionCache
    → ContextResult × PermissionCache
cache_answer true marked_null context queried s = (unavailable, s)
cache_answer false true context queried s = (denied user_not_found, s)
cache_answer false false (some context) queried s = (found context, s)
cache_answer false false none queried s = queried

-- Step 1, with Redis up.
abbrev pub read_cache : Users → String → ℕ → ℕ → PermissionCache → ContextResult × PermissionCache
read_cache db user ttl now s =
    cache_answer (is_marked user now s.unavailables) (is_marked user now s.nulls)
      (cached user now s.contexts) (query_users db user ttl now s) s

unfoldable pub get_user_permission_context :
    Users → String → ℕ → ℕ → PermissionCache → ContextResult × PermissionCache
get_user_permission_context db user jitter now s =
    if s.up
    then read_cache db user (jittered_cache_ttl jitter) now s
    else query_users db user (jittered_cache_ttl jitter) now s

unfoldable pub to_permission_context_or_null : ContextResult → Option UserPermissionContext
to_permission_context_or_null (found context) = some context
to_permission_context_or_null (denied _) = none
to_permission_context_or_null unavailable = none

pub data IssuancePermission : Type 0 where
  allowed : Bool → IssuancePermission
  refused : Denial → IssuancePermission

-- The prefill writes with a lifetime drawn anew, `jitter'`.
unfoldable pub resolve_issuance_permission :
    Users → String → ℕ → ℕ → ℕ → PermissionCache → IssuancePermission × PermissionCache
resolve_issuance_permission db user jitter jitter' now s =
    let (result, s') = get_user_permission_context db user jitter now s in
    elim result [
      | denied reason ↦ (refused reason, s')
      | unavailable ↦ (allowed false, s')
      | found context ↦
          (allowed true, store_context user context (jittered_cache_ttl jitter') now s')
    ]

-- DEL of the context and of the mark that the user does not exist.
unfoldable pub clear_user_permission_cache : String → PermissionCache → PermissionCache
clear_user_permission_cache user s =
    if s.up then record s { contexts = remove user s.contexts; nulls = remove user s.nulls } else s

abbrev pub is_found : ContextResult → Bool
is_found (found _) = true
is_found _ = false

abbrev pub refreshed : ContextResult × PermissionCache → Bool × PermissionCache
refreshed (result, s) = (is_found result, s)

-- `{ ok }`, false also when Redis throws.
unfoldable pub refresh_user_permission_cache :
    Users → String → ℕ → ℕ → PermissionCache → Bool × PermissionCache
refresh_user_permission_cache db user jitter now s =
    if s.up
    then refreshed
        (get_user_permission_context db user jitter now (clear_user_permission_cache user s))
    else (false, s)
