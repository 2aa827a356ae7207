-- ===== src/Authz.antt =====
-- apps/portal/src/lib/authz, with the two writes of apps/portal/src/lib that grant rights: who may
-- change whom, and what an operator may hand out.
pub mod Directory
pub mod Scope
pub mod Operator
pub mod Assignment
pub mod RolePermissions
pub mod Check
pub mod Identity
