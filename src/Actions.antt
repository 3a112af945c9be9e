-- ===== src/Actions.antt =====
-- backend/app/action_engine: the policy on requests and approvals, and the approval lifecycle.
pub mod Policy
pub mod Rows
pub mod Presentation
pub mod Audit
pub mod Notifications
pub mod Session
pub mod Lifecycle
pub mod Requests
mod Tests
