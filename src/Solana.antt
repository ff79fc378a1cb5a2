-- ===== src/Solana.antt =====
-- The part of the Solana and Anchor runtime that the programs are written against: addresses,
-- the accounts and metas of an instruction, program-derived addresses, and the checks that the
-- attributes of `#[derive(Accounts)]` stand for.
pub mod Account
pub mod Pda
pub mod Example
pub mod Chain
