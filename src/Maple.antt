-- ===== src/Maple.antt =====
-- The Maple/Syrup adapter (programs/adapters/maple-syrup/src/lib.rs): the position holds
-- syrupUSDC in a vault, and is valued by a Chainlink feed.
pub mod Types
pub mod Feed
pub mod Validate
pub mod Handlers
pub mod Price
pub mod Access
pub mod Vault
mod Tests
