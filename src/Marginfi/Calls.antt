-- ===== src/Marginfi/Calls.antt =====
-- The calls of the MarginFi program by the adapter (programs/adapters/marginfi-usdc/src/lib.rs, the
-- instructions of `deposit` and `withdraw` with their data and accounts).
use sol_yield.Base.{ℕ, true, false, if◌then◌else◌, List, [], ◌∷◌, ◌++◌}
use sol_yield.Base.Bytes.{to_le_bytes}
use sol_yield.Solana.Account.{
  Pubkey, AccountInfo, AccountMeta, meta_new, meta_new_readonly, Instruction,
}
use sol_yield.Marginfi.Types.{
  marginfi_deposit_ix_discriminator, marginfi_withdraw_ix_discriminator, MarginfiAccounts,
}

-- The last byte is `deposit_up_to_limit: None`, and of a withdrawal the last two are
-- `withdraw_all: Some(false)`.
unfoldable pub marginfi_deposit_ix_data : ℕ → List ℕ
marginfi_deposit_ix_data amount =
    marginfi_deposit_ix_discriminator ++ (to_le_bytes 8 amount ++ (0 ∷ []))

unfoldable pub marginfi_withdraw_ix_data : ℕ → List ℕ
marginfi_withdraw_ix_data amount =
    marginfi_withdraw_ix_discriminator ++ (to_le_bytes 8 amount ++ (1 ∷ 0 ∷ []))

abbrev pub account_meta : AccountInfo → AccountMeta
account_meta account =
    if account.is_writable
    then meta_new account.key account.is_signer
    else meta_new_readonly account.key account.is_signer

-- The loop pushes a meta and an account in each round.
unfoldable pub append_remaining_accounts :
    Instruction → List Pubkey → List AccountInfo → Instruction × List Pubkey
append_remaining_accounts instruction account_infos [] = (instruction, account_infos)
append_remaining_accounts instruction account_infos (account ∷ remaining_accounts) =
    append_remaining_accounts
      (record instruction { accounts = instruction.accounts ++ (account_meta account ∷ []) })
      (account_infos ++ (account.key ∷ [])) remaining_accounts

-- The call of a deposit: the instruction and its accounts.
unfoldable pub deposit_call : MarginfiAccounts → ℕ → Instruction × List Pubkey
unfolding marginfi_deposit_ix_data
deposit_call ctx amount = (
  record {
    program_id = ctx.marginfi_program;
    accounts =
        meta_new_readonly ctx.marginfi_group false
        ∷ meta_new ctx.marginfi_account.key false
        ∷ meta_new_readonly ctx.owner.key true
        ∷ meta_new ctx.marginfi_bank.key false
        ∷ meta_new ctx.owner_token_account.key false
        ∷ meta_new ctx.liquidity_vault.key false
        ∷ meta_new_readonly ctx.token_program false
        ∷ [];
    bytes = marginfi_deposit_ix_data amount;
  },
  ctx.marginfi_group ∷ ctx.marginfi_account.key ∷ ctx.owner.key ∷ ctx.marginfi_bank.key
      ∷ ctx.owner_token_account.key ∷ ctx.liquidity_vault.key ∷ ctx.token_program
      ∷ ctx.marginfi_program ∷ [],
)

-- The call of a withdrawal: the remaining accounts come behind the fixed ones, the program last.
unfoldable pub withdraw_call : MarginfiAccounts → ℕ → Instruction × List Pubkey
unfolding marginfi_withdraw_ix_data append_remaining_accounts
withdraw_call ctx amount =
    let (instruction, account_infos) =
      append_remaining_accounts
        (record {
          program_id = ctx.marginfi_program;
          accounts =
              meta_new_readonly ctx.marginfi_group false
              ∷ meta_new ctx.marginfi_account.key false
              ∷ meta_new_readonly ctx.owner.key true
              ∷ meta_new ctx.marginfi_bank.key false
              ∷ meta_new ctx.owner_token_account.key false
              ∷ meta_new_readonly ctx.bank_liquidity_vault_authority false
              ∷ meta_new ctx.liquidity_vault.key false
              ∷ meta_new_readonly ctx.token_program false
              ∷ [];
          bytes = marginfi_withdraw_ix_data amount;
        })
        (ctx.marginfi_group ∷ ctx.marginfi_account.key ∷ ctx.owner.key ∷ ctx.marginfi_bank.key
          ∷ ctx.owner_token_account.key ∷ ctx.bank_liquidity_vault_authority
          ∷ ctx.liquidity_vault.key ∷ ctx.token_program ∷ [])
        ctx.remaining_accounts in
    (instruction, account_infos ++ (ctx.marginfi_program ∷ []))
