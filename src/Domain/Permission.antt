-- ===== src/Domain/Permission.antt =====
-- apps/portal/src/domain/permission/permission.ts. A field of a patch is `none` when it is
-- undefined, and a nullable one holds an option inside.
pub mod Sync
use auth_sso.Base.{
  ℕ, String, ◌≡◌, ◌≢◌, refl, ap, Bool, true, false, Option, none, some, or_else, ◌&&◌, not, truthy,
  arith, ℤ, pos,
}
use auth_sso.Contracts.{EntityStatus, PermissionType}
use auth_sso.Errors.{Checked, ok, err, throw_if, rule_violation}

pub record Permission : Type 0 where
  pub id : String
  pub name : String
  pub code : String
  pub type : PermissionType
  pub description : Option String
  pub path : Option String
  pub icon : Option String
  pub visible : Option Bool
  pub client_id : Option String
  pub parent_id : Option String
  pub status : EntityStatus
  pub sort : ℤ
  pub created_at : ℕ

-- The union of the inputs of the three types: a field that an input lacks is `none`.
pub record CreatePermissionInput : Type 0 where
  pub name : String
  pub code : String
  pub type : PermissionType
  pub description : Option String
  pub path : Option String
  pub icon : Option String
  pub visible : Option Bool
  pub client_id : Option String
  pub parent_id : Option String
  pub sort : Option ℤ

pub record PermissionPatch : Type 0 where
  pub name : Option String
  pub code : Option String
  pub type : Option PermissionType
  pub description : Option (Option String)
  pub path : Option (Option String)
  pub icon : Option (Option String)
  pub visible : Option (Option Bool)
  pub client_id : Option (Option String)
  pub parent_id : Option (Option String)
  pub sort : Option ℤ
  pub status : Option EntityStatus

unfoldable create_permission : CreatePermissionInput → String → ℕ → Permission
create_permission input id now = record {
  id = id;
  name = input.name;
  code = input.code;
  type = input.type;
  description = input.description;
  path = input.path;
  icon = input.icon;
  visible = input.visible;
  client_id = input.client_id;
  parent_id = input.parent_id;
  status = EntityStatus.active;
  sort = or_else input.sort (pos 0);
  created_at = now;
}

unfoldable apply_permission_update : Permission → PermissionPatch → Permission
apply_permission_update perm patch = record perm {
  name = or_else patch.name perm.name;
  code = or_else patch.code perm.code;
  type = or_else patch.type perm.type;
  description = or_else patch.description perm.description;
  path = or_else patch.path perm.path;
  icon = or_else patch.icon perm.icon;
  visible = or_else patch.visible perm.visible;
  client_id = or_else patch.client_id perm.client_id;
  parent_id = or_else patch.parent_id perm.parent_id;
  sort = or_else patch.sort perm.sort;
  status = or_else patch.status perm.status;
}

abbrev normalized : PermissionType → Permission → Permission
normalized PermissionType.api perm = record perm { path = none; icon = none; visible = none }
normalized _ perm = record perm { client_id = none }

unfoldable normalize_permission_type_fields : Permission → Permission
normalize_permission_type_fields perm = normalized perm.type perm

abbrev is_page : PermissionType → Bool
is_page PermissionType.page = true
is_page _ = false

unfoldable assert_permission_type_fields : Permission → Checked
assert_permission_type_fields perm =
    throw_if (is_page perm.type && not (truthy perm.path)) (rule_violation "PAGE 类型必须指定路由路径（path）")

-- The check of the database on the fields of the types, and what a page needs.
pub record HasTypeFields (perm : Permission) : Type 0 where
  pub menu_client : perm.type ≢ PermissionType.api → perm.client_id ≡ none
  pub api_path :
      perm.type ≡ PermissionType.api
      → (perm.path ≡ none) × (perm.icon ≡ none) × (perm.visible ≡ none)
  pub page_path : perm.type ≡ PermissionType.page → truthy perm.path ≡ true

normalized-HasTypeFields :
    (p : Permission)
    → assert_permission_type_fields (normalize_permission_type_fields p) ≡ ok tt
    → HasTypeFields (normalize_permission_type_fields p)
unfolding assert_permission_type_fields normalize_permission_type_fields
normalized-HasTypeFields p h = fields p.type p refl h
  where
    fields :
        (t : PermissionType) (p : Permission)
        → p.type ≡ t
        → throw_if
            (is_page (normalized t p).type && not (truthy (normalized t p).path))
            (rule_violation "PAGE 类型必须指定路由路径（path）")
          ≡ ok tt
        → HasTypeFields (normalized t p)
    fields PermissionType.api p e h = record {
      menu_client = λ n. ground (arith, n, e);
      api_path = λ w. (refl, refl, refl);
      page_path = λ w. ground (arith, w, e);
    }
    fields PermissionType.page p e h = record {
      menu_client = λ n. refl;
      api_path = λ w. ground (arith, w, e);
      page_path = λ w. ground (arith, w, e, h);
    }
    fields PermissionType.directory p e h = record {
      menu_client = λ n. refl;
      api_path = λ w. ground (arith, w, e);
      page_path = λ w. ground (arith, w, e);
    }

normalize-twice :
    (p : Permission)
    → normalize_permission_type_fields (normalize_permission_type_fields p)
      ≡ normalize_permission_type_fields p
unfolding normalize_permission_type_fields
normalize-twice p = again p.type p refl
  where
    again :
        (t : PermissionType) (p : Permission)
        → p.type ≡ t
        → normalized (normalized t p).type (normalized t p) ≡ normalized t p
    again PermissionType.api p e = ap (λ s. normalized s (normalized PermissionType.api p)) e
    again PermissionType.page p e = ap (λ s. normalized s (normalized PermissionType.page p)) e
    again PermissionType.directory p e =
        ap (λ s. normalized s (normalized PermissionType.directory p)) e

-- Whatever the permission and the patch, changes of its type included: if the merged and normalized
-- permission passes the assertion, its fields are those of its type, and to normalize it again
-- changes nothing.
permission_update_fields :
    (perm : Permission) (patch : PermissionPatch)
    → assert_permission_type_fields
        (normalize_permission_type_fields (apply_permission_update perm patch))
      ≡ ok tt
    → HasTypeFields (normalize_permission_type_fields (apply_permission_update perm patch))
      × (normalize_permission_type_fields
            (normalize_permission_type_fields (apply_permission_update perm patch))
          ≡ normalize_permission_type_fields (apply_permission_update perm patch))
permission_update_fields perm patch h =
    let p = apply_permission_update perm patch in (normalized-HasTypeFields p h, normalize-twice p)
