-- ===== src/Drift/Calls.antt =====
-- The calls of the Drift program by the adapter (programs/adapters/drift-insurance-fund/src/lib.rs,
-- the instructions of `deposit` and `withdraw` with their data and accounts).
use sol_yield.Base.{ℕ, true, false, List, [], ◌∷◌, ◌++◌}
use sol_yield.Base.Bytes.{to_le_bytes}
use sol_yield.Solana.Account.{Pubkey, meta_new, meta_new_readonly, Instruction}
use sol_yield.Drift.Types.{
  add_insurance_fund_stake_ix_discriminator, request_remove_insurance_fund_stake_ix_discriminator,
  DriftAccounts,
}

unfoldable pub amount_ix_data : List ℕ → ℕ → ℕ → List ℕ
amount_ix_data discriminator market_index amount =
    discriminator ++ (to_le_bytes 2 market_index ++ to_le_bytes 8 amount)

unfoldable pub add_stake_call : DriftAccounts → ℕ → Instruction × List Pubkey
unfolding amount_ix_data
add_stake_call ctx amount = (
  record {
    program_id = ctx.drift_program;
    accounts =
        meta_new_readonly ctx.state false
        ∷ meta_new ctx.spot_market.key false
        ∷ meta_new ctx.insurance_fund_stake.key false
        ∷ meta_new ctx.user_stats.key false
        ∷ meta_new_readonly ctx.owner.key true
        ∷ meta_new ctx.spot_market_vault.key false
        ∷ meta_new ctx.insurance_fund_vault.key false
        ∷ meta_new_readonly ctx.drift_signer false
        ∷ meta_new ctx.user_token_account.key false
        ∷ meta_new_readonly ctx.token_program false
        ∷ [];
    bytes =
        amount_ix_data add_insurance_fund_stake_ix_discriminator ctx.position.state.market_index
          amount;
  },
  ctx.state ∷ ctx.spot_market.key ∷ ctx.insurance_fund_stake.key ∷ ctx.user_stats.key
      ∷ ctx.owner.key ∷ ctx.spot_market_vault.key ∷ ctx.insurance_fund_vault.key ∷ ctx.drift_signer
      ∷ ctx.user_token_account.key ∷ ctx.token_program ∷ ctx.drift_program ∷ [],
)

unfoldable pub request_remove_call : DriftAccounts → ℕ → Instruction × List Pubkey
unfolding amount_ix_data
request_remove_call ctx amount = (
  record {
    program_id = ctx.drift_program;
    accounts =
        meta_new ctx.spot_market.key false
        ∷ meta_new ctx.insurance_fund_stake.key false
        ∷ meta_new ctx.user_stats.key false
        ∷ meta_new_readonly ctx.owner.key true
        ∷ meta_new ctx.insurance_fund_vault.key false
        ∷ [];
    bytes =
        amount_ix_data request_remove_insurance_fund_stake_ix_discriminator
          ctx.position.state.market_index amount;
  },
  ctx.spot_market.key ∷ ctx.insurance_fund_stake.key ∷ ctx.user_stats.key ∷ ctx.owner.key
      ∷ ctx.insurance_fund_vault.key ∷ ctx.drift_program ∷ [],
)
