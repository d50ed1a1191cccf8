-- ===== src/Authz.antt =====
-- internal/service/authz, internal/service/auth/casbin and their rules.
pub mod Rbac
pub mod Engine
pub mod Policies
pub mod Enforcer
pub mod Points
pub mod Synced
pub mod Agreement
pub mod Tracked
pub mod Members
pub mod Deletion
