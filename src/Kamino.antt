-- ===== src/Kamino.antt =====
-- The Kamino adapter (programs/adapters/kamino-usdc/src/lib.rs): the user holds the collateral
-- tokens of a lending reserve, and the position is valued by the reserve's exchange rate.
pub mod Types
pub mod Reserve
pub mod Exchange
pub mod Conversion
pub mod Validate
pub mod Calls
pub mod Handlers
pub mod Access
pub mod Permit
pub mod Effects
mod Tests
