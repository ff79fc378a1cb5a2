-- ===== src/Jupiter/Calls.antt =====
-- The calls of the Jupiter program by the adapter (programs/adapters/jupiter-lp/src/lib.rs, the
-- instructions of `deposit` and `withdraw` with their data and accounts).
use sol_yield.Base.{ℕ, true, false, if◌then◌else◌, List, [], ◌∷◌, ◌++◌}
use sol_yield.Base.Bytes.{to_le_bytes}
use sol_yield.Solana.Account.{
  Pubkey, AccountInfo, AccountMeta, meta_new, meta_new_readonly, Instruction,
}
use sol_yield.Jupiter.Types.{
  add_liquidity2_ix_discriminator, remove_liquidity2_ix_discriminator, JupiterAccounts,
}

-- One byte 0 stands at the end.
unfoldable pub add_liquidity2_ix_data : ℕ → ℕ → List ℕ
add_liquidity2_ix_data token_amount_in min_lp_amount_out =
    add_liquidity2_ix_discriminator
    ++ (to_le_bytes 8 token_amount_in ++ (to_le_bytes 8 min_lp_amount_out ++ (0 ∷ [])))

unfoldable pub remove_liquidity2_ix_data : ℕ → ℕ → List ℕ
remove_liquidity2_ix_data lp_amount_in min_amount_out =
    remove_liquidity2_ix_discriminator
    ++ (to_le_bytes 8 lp_amount_in ++ to_le_bytes 8 min_amount_out)

-- Accounts are handed over by their addresses.
unfoldable pub jupiter_liquidity_account_infos : JupiterAccounts → List Pubkey
jupiter_liquidity_account_infos ctx =
    ctx.owner.key ∷ ctx.user_token_account.key ∷ ctx.lp_token_account.key ∷ ctx.transfer_authority
    ∷ ctx.perpetuals ∷ ctx.pool.key ∷ ctx.custody.key ∷ ctx.custody_doves_price_account
    ∷ ctx.custody_pythnet_price_account ∷ ctx.custody_token_account.key ∷ ctx.lp_token_mint.key
    ∷ ctx.token_program ∷ ctx.event_authority ∷ ctx.jupiter_program ∷ []

abbrev pub account_meta : AccountInfo → AccountMeta
account_meta account =
    if account.is_writable
    then meta_new account.key account.is_signer
    else meta_new_readonly account.key account.is_signer

-- The loop pushes a meta and an account in each round.
unfoldable pub append_cpi_remaining_accounts :
    Instruction → List Pubkey → List AccountInfo → Instruction × List Pubkey
append_cpi_remaining_accounts instruction account_infos [] = (instruction, account_infos)
append_cpi_remaining_accounts instruction account_infos (account ∷ remaining_accounts) =
    append_cpi_remaining_accounts
      (record instruction { accounts = instruction.accounts ++ (account_meta account ∷ []) })
      (account_infos ++ (account.key ∷ [])) remaining_accounts

-- The metas of both calls: a deposit's and a withdrawal's differ in the name of the token account.
abbrev pub liquidity_metas : JupiterAccounts → List AccountMeta
liquidity_metas ctx =
    meta_new_readonly ctx.owner.key true
    ∷ meta_new ctx.user_token_account.key false
    ∷ meta_new ctx.lp_token_account.key false
    ∷ meta_new_readonly ctx.transfer_authority false
    ∷ meta_new_readonly ctx.perpetuals false
    ∷ meta_new ctx.pool.key false
    ∷ meta_new ctx.custody.key false
    ∷ meta_new_readonly ctx.custody_doves_price_account false
    ∷ meta_new_readonly ctx.custody_pythnet_price_account false
    ∷ meta_new ctx.custody_token_account.key false
    ∷ meta_new ctx.lp_token_mint.key false
    ∷ meta_new_readonly ctx.token_program false
    ∷ meta_new_readonly ctx.event_authority false
    ∷ meta_new_readonly ctx.jupiter_program false
    ∷ []

abbrev liquidity_call : JupiterAccounts → List ℕ → Instruction × List Pubkey
liquidity_call ctx payload =
    append_cpi_remaining_accounts
      (record { program_id = ctx.jupiter_program; accounts = liquidity_metas ctx; bytes = payload })
      (jupiter_liquidity_account_infos ctx) ctx.remaining_accounts

unfoldable pub add_liquidity_call : JupiterAccounts → ℕ → ℕ → Instruction × List Pubkey
unfolding add_liquidity2_ix_data append_cpi_remaining_accounts jupiter_liquidity_account_infos
add_liquidity_call ctx amount min_lp_amount_out =
    liquidity_call ctx (add_liquidity2_ix_data amount min_lp_amount_out)

unfoldable pub remove_liquidity_call : JupiterAccounts → ℕ → ℕ → Instruction × List Pubkey
unfolding remove_liquidity2_ix_data append_cpi_remaining_accounts jupiter_liquidity_account_infos
remove_liquidity_call ctx lp_amount_in amount =
    liquidity_call ctx (remove_liquidity2_ix_data lp_amount_in amount)
