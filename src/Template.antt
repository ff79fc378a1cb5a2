-- ===== src/Template.antt =====
-- The adapter template (programs/adapters/adapter-template/src/lib.rs): the ledger of a user's
-- position that every adapter starts from.
pub mod Types
pub mod Handlers
pub mod Ledger
pub mod Query
mod Tests
