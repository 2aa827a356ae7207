-- ===== src/Contracts.antt =====
-- packages/contracts/src: the vocabulary that the portal's server and client share. Here the
-- statuses of index.ts; the authorization decisions are in the child.
pub mod Authorization
use auth_sso.Base.{String, Bool, true, false}

-- PORTAL_CLIENT_ID of oidc.ts
abbrev pub portal_client_id : String
portal_client_id = "portal"

-- USER_STATUS_VALUES
pub data UserStatus : Type 0 where
  active disabled locked deleted : UserStatus

-- ENTITY_STATUS_VALUES
pub data EntityStatus : Type 0 where
  active disabled : EntityStatus

-- user.status === ENTITY_ACTIVE
abbrev pub user_is_active : UserStatus → Bool
user_is_active UserStatus.active = true
user_is_active _ = false

-- status === ENTITY_ACTIVE
abbrev pub entity_is_active : EntityStatus → Bool
entity_is_active EntityStatus.active = true
entity_is_active EntityStatus.disabled = false

-- `===` on statuses
abbrev pub entity_eq : EntityStatus → EntityStatus → Bool
entity_eq EntityStatus.active EntityStatus.active = true
entity_eq EntityStatus.disabled EntityStatus.disabled = true
entity_eq _ _ = false

-- PERMISSION_TYPE_VALUES
pub data PermissionType : Type 0 where
  directory page api : PermissionType

abbrev pub permission_type_eq : PermissionType → PermissionType → Bool
permission_type_eq PermissionType.directory PermissionType.directory = true
permission_type_eq PermissionType.page PermissionType.page = true
permission_type_eq PermissionType.api PermissionType.api = true
permission_type_eq _ _ = false
