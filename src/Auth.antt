-- ===== src/Auth.antt =====
-- backend/app/auth: who the current user is, the effective permissions, the access context and
-- the access policy.
pub mod Permissions
pub mod Context
pub mod AccessPolicy
pub mod Rls
mod Tests
