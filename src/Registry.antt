-- ===== src/Registry.antt =====
-- The registry program (programs/registry/src/lib.rs): adapters are proposed, approved, paused
-- and deprecated by one governance authority.
pub mod Types
pub mod Validate
pub mod Handlers
pub mod Program
pub mod Spec
pub mod Refines
pub mod Complete
pub mod Invariant
pub mod Lifecycle
pub mod Authority
pub mod Errors
pub mod Samples
mod Tests
