-- ===== src/Actions/Requests/Refines.antt =====
-- That the requester's methods make the changes of Changes, and what their answers tell.
pub mod Loading
pub mod Expiry
pub mod Cancelling
pub mod Waiting
pub mod Writing
pub mod Submitting
