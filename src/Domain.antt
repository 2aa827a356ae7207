-- ===== src/Domain.antt =====
-- apps/portal/src/domain: the entities and their rules, as pure functions.
pub mod User
pub mod Department
pub mod Role
pub mod Permission
pub mod Client
pub mod Auth
