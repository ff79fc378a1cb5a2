-- ===== src/Jupiter.antt =====
-- The Jupiter adapter (programs/adapters/jupiter-lp/src/lib.rs): the user holds LP tokens of
-- the perpetuals pool, and the position is valued by the pool's assets per LP token.
pub mod Types
pub mod Pool
pub mod Quote
pub mod Slippage
pub mod Custodies
pub mod Validate
pub mod Calls
pub mod Handlers
pub mod Access
pub mod Permit
pub mod Effects
mod Tests
