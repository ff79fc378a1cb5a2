-- ===== src/Marginfi.antt =====
-- The MarginFi adapter (programs/adapters/marginfi-usdc/src/lib.rs): the position is a balance of
-- a MarginFi account in the USDC bank, and is valued by the bank's fixed-point share value.
pub mod Types
pub mod Fixed
pub mod Rounding
pub mod Balances
pub mod Validate
pub mod Calls
pub mod Handlers
pub mod Access
pub mod Permit
pub mod Effects
mod Tests
