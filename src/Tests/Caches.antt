-- ===== src/Tests/Caches.antt =====
-- The permission cache.
use auth_sso.Base.{String, ◌≡◌, ◌↔◌, refl, inl, Option, none, some, lookup, insert, Among, Unique}
use auth_sso.Permissions.{
  UserRow, PermissionCache, found, context_of, store_context, get_user_permission_context,
}
use auth_sso.Permissions.Context.{Grants, context_of_permissions}
use auth_sso.Permissions.Freshness.{
  IsCoherent, TellsCurrent, store_context-IsCoherent, get_user_permission_context_faithful,
}
use auth_sso.Tests.Data.{alice, empty_cache}

context_of_permissions_example :
    (Among "user:delete" (context_of alice).permissions ↔ Grants alice.roles "user:delete")
    × Unique (context_of alice).permissions
context_of_permissions_example = context_of_permissions alice "user:delete"

abbrev pub rows : String → Option UserRow
rows u = some alice

pub empty_cache-IsCoherent : IsCoherent rows empty_cache
unfolding lookup
empty_cache-IsCoherent = record { at_user = λ u c h. cc }

-- Bob, whose context is cached at the time 1000.
abbrev warm : PermissionCache
warm = store_context "bob" (context_of alice) 300 1000 empty_cache

warm-IsCoherent : IsCoherent rows warm
warm-IsCoherent =
    store_context-IsCoherent rows "bob" (context_of alice) 300 1000 empty_cache
      empty_cache-IsCoherent (alice, refl, refl, refl)

-- The database fails, and the cache answers.
answered_from_cache :
    (get_user_permission_context none "bob" 0 5000 warm).0 ≡ found (context_of alice)
unfolding get_user_permission_context store_context lookup insert
answered_from_cache = refl

get_user_permission_context_faithful_example :
    TellsCurrent rows "bob" (get_user_permission_context none "bob" 0 5000 warm).0
    × IsCoherent rows (get_user_permission_context none "bob" 0 5000 warm).1
get_user_permission_context_faithful_example =
    get_user_permission_context_faithful rows none "bob" 0 5000 warm (inl refl) warm-IsCoherent
