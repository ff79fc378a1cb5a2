-- ===== src/Kamino/Calls.antt =====
-- The calls of the Kamino program by the adapter (programs/adapters/kamino-usdc/src/lib.rs, the
-- instructions of `deposit` and `withdraw` with their data and accounts).
use sol_yield.Base.{ℕ, true, false, List, [], ◌∷◌, ◌++◌}
use sol_yield.Base.Bytes.{to_le_bytes}
use sol_yield.Solana.Account.{Pubkey, meta_new, meta_new_readonly, Instruction}
use sol_yield.Kamino.Types.{
  deposit_reserve_liquidity_ix_discriminator, redeem_reserve_collateral_ix_discriminator,
  KaminoAccounts,
}

unfoldable pub amount_ix_data : List ℕ → ℕ → List ℕ
amount_ix_data discriminator amount = discriminator ++ to_le_bytes 8 amount

unfoldable pub deposit_call : KaminoAccounts → ℕ → Instruction × List Pubkey
unfolding amount_ix_data
deposit_call ctx amount = (
  record {
    program_id = ctx.kamino_program;
    accounts =
        meta_new_readonly ctx.owner.key true
        ∷ meta_new ctx.reserve.key false
        ∷ meta_new_readonly ctx.lending_market false
        ∷ meta_new_readonly ctx.lending_market_authority false
        ∷ meta_new_readonly ctx.reserve_liquidity_mint false
        ∷ meta_new ctx.reserve_liquidity_supply.key false
        ∷ meta_new ctx.reserve_collateral_mint.key false
        ∷ meta_new ctx.user_liquidity.key false
        ∷ meta_new ctx.user_collateral.key false
        ∷ meta_new_readonly ctx.collateral_token_program false
        ∷ meta_new_readonly ctx.liquidity_token_program false
        ∷ meta_new_readonly ctx.instruction_sysvar_account false
        ∷ [];
    bytes = amount_ix_data deposit_reserve_liquidity_ix_discriminator amount;
  },
  ctx.owner.key ∷ ctx.reserve.key ∷ ctx.lending_market ∷ ctx.lending_market_authority
      ∷ ctx.reserve_liquidity_mint ∷ ctx.reserve_liquidity_supply.key
      ∷ ctx.reserve_collateral_mint.key ∷ ctx.user_liquidity.key ∷ ctx.user_collateral.key
      ∷ ctx.collateral_token_program ∷ ctx.liquidity_token_program ∷ ctx.instruction_sysvar_account
      ∷ ctx.kamino_program ∷ [],
)

unfoldable pub redeem_call : KaminoAccounts → ℕ → Instruction × List Pubkey
unfolding amount_ix_data
redeem_call ctx collateral_amount = (
  record {
    program_id = ctx.kamino_program;
    accounts =
        meta_new_readonly ctx.owner.key true
        ∷ meta_new_readonly ctx.lending_market false
        ∷ meta_new ctx.reserve.key false
        ∷ meta_new_readonly ctx.lending_market_authority false
        ∷ meta_new_readonly ctx.reserve_liquidity_mint false
        ∷ meta_new ctx.reserve_collateral_mint.key false
        ∷ meta_new ctx.reserve_liquidity_supply.key false
        ∷ meta_new ctx.user_collateral.key false
        ∷ meta_new ctx.user_liquidity.key false
        ∷ meta_new_readonly ctx.collateral_token_program false
        ∷ meta_new_readonly ctx.liquidity_token_program false
        ∷ meta_new_readonly ctx.instruction_sysvar_account false
        ∷ [];
    bytes = amount_ix_data redeem_reserve_collateral_ix_discriminator collateral_amount;
  },
  ctx.owner.key ∷ ctx.lending_market ∷ ctx.reserve.key ∷ ctx.lending_market_authority
      ∷ ctx.reserve_liquidity_mint ∷ ctx.reserve_collateral_mint.key
      ∷ ctx.reserve_liquidity_supply.key ∷ ctx.user_collateral.key ∷ ctx.user_liquidity.key
      ∷ ctx.collateral_token_program ∷ ctx.liquidity_token_program ∷ ctx.instruction_sysvar_account
      ∷ ctx.kamino_program ∷ [],
)
