-- ===== src/Core.antt =====
-- The queue operations of core.py, one function for each. An operation is an action on the
-- database; `env` holds what it reads of its surroundings.
pub mod Guard
pub mod Enqueue
pub mod Claim
pub mod Settle
pub mod Invariant
pub mod Sweep
pub mod Fencing
pub mod Ownership
pub mod Picking
pub mod Taking
pub mod Liveness
pub mod Calls
pub mod Exclusion
pub mod Sparing
pub mod Survival
pub mod Histories
