-- ===== src/Domain/Permission/Sync.antt =====
-- apps/portal/src/domain/permission/permission-sync.ts. A missing field is `none`, and so is null.
-- The text that is hashed is the list of its UTF-16 code units.
pub mod Flatten
use auth_sso.Base.{
  ℕ, String, zero, suc, ◌+◌, ◌-◌, ◌*◌, ◌%◌, Bool, true, false, not, ◌||◌, Option, none, some, List,
  [], ◌∷◌, ◌++◌, ◌==◌, ltb, if◌then◌else◌, or_else, same_text, includes, ℤ, pos, int_eq,
}
use auth_sso.Contracts.{EntityStatus, PermissionType, permission_type_eq, entity_is_active}

-- The fields of a node of the tree but its children.
pub record Incoming : Type 0 where
  pub code : String
  pub name : String
  pub type : PermissionType
  pub path : Option String
  pub icon : Option String
  pub visible : Option Bool
  pub sort : Option ℤ

mutual
  -- A node of the tree: missing children are the empty list.
  pub data IncomingPermission : Type 0 where
    node : Incoming → IncomingPermissions → IncomingPermission

  -- A list of such nodes.
  pub data IncomingPermissions : Type 0 where
    leaf : IncomingPermissions
    more : IncomingPermission → IncomingPermissions → IncomingPermissions

pub record FlatPermission : Type 0 where
  pub code : String
  pub name : String
  pub type : PermissionType
  pub path : Option String
  pub icon : Option String
  pub visible : Option Bool
  pub sort : ℤ
  pub parent_id : Option String

abbrev flat : Incoming → Option String → FlatPermission
flat n parent_id = record {
  code = n.code;
  name = n.name;
  type = n.type;
  path = n.path;
  icon = n.icon;
  visible = n.visible;
  sort = or_else n.sort (pos 0);
  parent_id = parent_id;
}

unfoldable pub flatten_permissions : IncomingPermissions → Option String → List FlatPermission
flatten_permissions leaf parent_id = []
flatten_permissions (more (node n children) rest) parent_id =
    flat n parent_id ∷ flatten_permissions children (some n.code)
    ++ flatten_permissions rest parent_id

abbrev pub word : ℕ
word = 4294967296

-- A 32-bit integer is its residue: `(hash << 5) - hash + c`, and `| 0`.
abbrev pub hash_step : ℕ → ℕ → ℕ
hash_step hash c = (hash * 32 % word + (word - hash) + c) % word

abbrev pub hash_loop : ℕ → List ℕ → ℕ
hash_loop hash [] = hash
hash_loop hash (c ∷ s) = hash_loop (hash_step hash c) s

-- `Math.abs`
abbrev magnitude : ℕ → ℕ
magnitude hash = if ltb hash 2147483648 then hash else word - hash

unfoldable pub get_hash_code : List ℕ → ℕ
get_hash_code s = magnitude (hash_loop 0 s)

abbrev pub duplicate_from : List String → List String → Option String
duplicate_from seen [] = none
duplicate_from seen (code ∷ codes) =
    if includes seen code then some code else duplicate_from (code ∷ seen) codes

unfoldable pub find_duplicate_code : List String → Option String
find_duplicate_code codes = duplicate_from [] codes

pub record ExistingPermissionRow : Type 0 where
  pub id : String
  pub parent_id : Option String
  pub name : String
  pub type : PermissionType
  pub path : Option String
  pub icon : Option String
  pub visible : Option Bool
  pub sort : ℤ
  pub status : EntityStatus

abbrev same_flag : Option Bool → Option Bool → Bool
same_flag none none = true
same_flag (some true) (some true) = true
same_flag (some false) (some false) = true
same_flag _ _ = false

unfoldable permission_row_changed : ExistingPermissionRow → FlatPermission → Option String → Bool
permission_row_changed existing incoming parent_id =
    not (same_text existing.parent_id parent_id)
    || (not (existing.name == incoming.name)
        || (not (permission_type_eq existing.type incoming.type)
            || (not (same_text existing.path incoming.path)
                || (not (same_text existing.icon incoming.icon)
                    || (not (same_flag existing.visible incoming.visible)
                        || (not (int_eq existing.sort incoming.sort)
                            || not (entity_is_active existing.status)))))))

pub record PermissionInsertRow : Type 0 where
  pub row : ExistingPermissionRow
  pub code : String
  pub client_id : String
  pub created_at : ℕ

unfoldable to_permission_insert_row :
    FlatPermission → String → String → Option String → ℕ → PermissionInsertRow
to_permission_insert_row incoming id client_id parent_id now = record {
  row = record {
    id = id;
    parent_id = parent_id;
    name = incoming.name;
    type = incoming.type;
    path = incoming.path;
    icon = incoming.icon;
    visible = incoming.visible;
    sort = incoming.sort;
    status = EntityStatus.active;
  };
  code = incoming.code;
  client_id = client_id;
  created_at = now;
}

-- `parent_id` is absent if `none`.
pub record PermissionUpdateRow : Type 0 where
  pub name : String
  pub type : PermissionType
  pub path : Option String
  pub icon : Option String
  pub visible : Option Bool
  pub sort : ℤ
  pub status : EntityStatus
  pub parent_id : Option (Option String)

unfoldable to_permission_update_row : FlatPermission → Option String → Bool → PermissionUpdateRow
to_permission_update_row incoming parent_id parent_changed = record {
  name = incoming.name;
  type = incoming.type;
  path = incoming.path;
  icon = incoming.icon;
  visible = incoming.visible;
  sort = incoming.sort;
  status = EntityStatus.active;
  parent_id = if parent_changed then some parent_id else none;
}
