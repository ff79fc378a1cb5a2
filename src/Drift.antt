-- ===== src/Drift.antt =====
-- The Drift adapter (programs/adapters/drift-insurance-fund/src/lib.rs): the user stakes into the
-- insurance fund of a spot market, and a withdrawal requests the removal of a stake.
pub mod Types
pub mod Stake
pub mod Worth
pub mod Validate
pub mod Calls
pub mod Handlers
pub mod Access
pub mod Permit
pub mod Effects
pub mod Opening
mod Tests
