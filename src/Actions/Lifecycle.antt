-- ===== src/Actions/Lifecycle.antt =====
-- backend/app/action_engine/approval.py: `ApprovalLifecycleService`. Each method is a function from
-- the session to what it returns or raises and the session that it leaves.
pub mod Base
pub mod Expire
pub mod Reject
pub mod Handlers
pub mod Skips
pub mod Complete
pub mod Dedupe
pub mod Failure
pub mod Approve
pub mod Steps
pub mod Refines
pub mod Invariant
pub mod Service
pub mod Once
