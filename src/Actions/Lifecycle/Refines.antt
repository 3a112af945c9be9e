-- ===== src/Actions/Lifecycle/Refines.antt =====
-- The methods of `ApprovalLifecycleService` against the state machine of Steps.
pub mod Locks
pub mod Expiry
pub mod Rejection
pub mod Failing
pub mod Answers
pub mod Escalating
pub mod Executing
pub mod Attempting
pub mod Approval
pub mod Success
pub mod Running
pub mod Ending
pub mod Closing
