-- ===== src/Dispatcher.antt =====
-- The dispatcher program (programs/dispatcher/src/lib.rs): it routes a user's deposit, withdrawal
-- or value query to the adapter that the registry approves for a mint.
pub mod Types
pub mod Validate
pub mod Handlers
pub mod Routing
pub mod Data
pub mod Approval
mod Tests
