-- ===== src/Marginfi/Validate.antt =====
-- The checks of the MarginFi adapter on its accounts (programs/adapters/marginfi-usdc/src/lib.rs,
-- `validate_*`), against the chain's present state. `validate_protocol_state` is the checks of
-- keys and owners, of the bank, of the vault with its authority, and of the MarginFi account.
use sol_yield.Base.{
  ℕ, ltb, leb, ◌==◌, not, ◌+◌, Option, none, some, List, [], ◌∷◌, length, get_elem?,
}
use sol_yield.Base.Data.{index}
use sol_yield.Base.Result.{Result, ok, err, panicked, require, ◌>>=◌, ◌>>◌}
use sol_yield.Solana.Account.{Pubkey, pubkey_bytes, default_pubkey, AccountInfo}
use sol_yield.Solana.Chain.{Chain}
use sol_yield.Solana.Pda.{Pda}
use sol_yield.Marginfi.Types.{
  MarginfiUsdcConfig, MarginfiUsdcPosition, MarginfiUsdcError, invalid_amount, invalid_mint,
  invalid_owner, invalid_protocol_program, invalid_marginfi_account, invalid_bank, invalid_group,
  invalid_vault, invalid_token_account, invalid_protocol_account, missing_health_accounts,
  liquidity_vault_authority_seed, bank_mint_offset, bank_mint_decimals_offset, bank_group_offset,
  bank_liquidity_vault_offset, bank_operational_state_offset, bank_oracle_setup_offset,
  bank_oracle_keys_offset, marginfi_account_group_offset, marginfi_account_authority_offset,
  token_account_mint_offset, token_account_owner_offset, MarginfiAccounts,
}
use sol_yield.Marginfi.Fixed.{read_pubkey}

unfoldable pub validate_owner_and_mint :
    MarginfiUsdcConfig
    → MarginfiUsdcPosition
    → Pubkey
    → Pubkey
    → Result MarginfiUsdcError (Unit {0})
validate_owner_and_mint config position owner mint = do
  require (mint == config.supported_mint) invalid_mint
  require (owner == position.owner) invalid_owner
  ok tt

unfoldable pub validate_common :
    MarginfiUsdcConfig
    → MarginfiUsdcPosition
    → Pubkey
    → Pubkey
    → ℕ
    → Result MarginfiUsdcError (Unit {0})
unfolding validate_owner_and_mint
validate_common config position owner mint amount = do
  require (ltb 0 amount) invalid_amount
  validate_owner_and_mint config position owner mint

unfoldable pub validate_protocol_program :
    MarginfiUsdcConfig → Pubkey → Result MarginfiUsdcError (Unit {0})
validate_protocol_program config marginfi_program = do
  require (marginfi_program == config.protocol_program_id) invalid_protocol_program
  ok tt

-- The data of a bank of this mint and group; its liquidity vault.
unfoldable pub check_bank : List ℕ → Pubkey → Pubkey → Result MarginfiUsdcError Pubkey
check_bank bank_bytes supported_mint marginfi_group = do
  require (leb (bank_oracle_keys_offset + 32) (length bank_bytes)) invalid_protocol_account
  bank_mint ← read_pubkey bank_bytes bank_mint_offset
  bank_group ← read_pubkey bank_bytes bank_group_offset
  bank_liquidity_vault ← read_pubkey bank_bytes bank_liquidity_vault_offset
  require (bank_mint == supported_mint) invalid_mint
  decimals ← index bank_bytes bank_mint_decimals_offset
  require (decimals == 6) invalid_mint
  require (bank_group == marginfi_group) invalid_group
  operational_state ← index bank_bytes bank_operational_state_offset
  require (operational_state == 1) invalid_bank
  oracle_setup ← index bank_bytes bank_oracle_setup_offset
  require (not (oracle_setup == 0)) invalid_bank
  primary_oracle ← read_pubkey bank_bytes bank_oracle_keys_offset
  require (not (primary_oracle == default_pubkey)) invalid_bank
  ok bank_liquidity_vault

-- The vault is the bank's, where one is passed.
unfoldable pub check_vault : Option Pubkey → Pubkey → Result MarginfiUsdcError (Unit {0})
check_vault none bank_liquidity_vault = ok tt
check_vault (some vault) bank_liquidity_vault = do
  require (vault == bank_liquidity_vault) invalid_vault
  ok tt

-- The data of a MarginFi account of this group and owner.
unfoldable pub check_marginfi_account :
    List ℕ → Pubkey → Pubkey → Result MarginfiUsdcError (Unit {0})
check_marginfi_account account_bytes marginfi_group owner = do
  account_group ← read_pubkey account_bytes marginfi_account_group_offset
  account_authority ← read_pubkey account_bytes marginfi_account_authority_offset
  require (account_group == marginfi_group) invalid_group
  require (account_authority == owner) invalid_owner
  ok tt

-- The key of an account that the list may not hold.
abbrev pub key_at : Option AccountInfo → Pubkey → Result MarginfiUsdcError (Unit {0})
key_at none expected = err panicked
key_at (some account) expected = require (account.key == expected) missing_health_accounts

-- The remaining accounts begin with the bank and its oracle.
unfoldable pub check_health_accounts :
    List AccountInfo → Pubkey → List ℕ → Result MarginfiUsdcError (Unit {0})
check_health_accounts remaining_accounts marginfi_bank bank_bytes = do
  require (leb 2 (length remaining_accounts)) missing_health_accounts
  primary_oracle ← read_pubkey bank_bytes bank_oracle_keys_offset
  key_at (get_elem? remaining_accounts 0) marginfi_bank
  key_at (get_elem? remaining_accounts 1) primary_oracle
  ok tt

module _ (pda : Pda) where
  -- The authority is the one derived for the bank, where one is passed.
  unfoldable pub check_vault_authority :
      Option Pubkey → Pubkey → Pubkey → Result MarginfiUsdcError (Unit {0})
  check_vault_authority none marginfi_bank marginfi_program = ok tt
  check_vault_authority (some vault_authority) marginfi_bank marginfi_program = do
    require
        (vault_authority
          == (pda.find_program_address
              (liquidity_vault_authority_seed ∷ pubkey_bytes marginfi_bank ∷ [])
              marginfi_program).0)
        invalid_vault
    ok tt

module _ {ℓ} {S : Type ℓ} (chain : Chain S) (s : S) where
  -- Account and bank are those of the position, and the program owns them.
  unfoldable pub check_protocol_keys :
      MarginfiUsdcPosition → Pubkey → Pubkey → Pubkey → Result MarginfiUsdcError (Unit {0})
  check_protocol_keys position marginfi_program marginfi_account marginfi_bank = do
    require (marginfi_account == position.marginfi_account) invalid_marginfi_account
    require (marginfi_bank == position.marginfi_bank) invalid_bank
    require (chain.account_owner s marginfi_account == marginfi_program) invalid_marginfi_account
    require (chain.account_owner s marginfi_bank == marginfi_program) invalid_bank
    ok tt

  unfoldable pub validate_token_account :
      Pubkey → Pubkey → Pubkey → Pubkey → Result MarginfiUsdcError (Unit {0})
  validate_token_account token_account token_program expected_mint expected_owner = do
    require (chain.account_owner s token_account == token_program) invalid_token_account
    let token_bytes = chain.account_bytes s token_account
    token_mint ← read_pubkey token_bytes token_account_mint_offset
    token_owner ← read_pubkey token_bytes token_account_owner_offset
    require (token_mint == expected_mint) invalid_token_account
    require (token_owner == expected_owner) invalid_token_account
    ok tt

  unfoldable pub validate_withdraw_health_accounts :
      MarginfiAccounts → Result MarginfiUsdcError (Unit {0})
  unfolding check_health_accounts
  validate_withdraw_health_accounts ctx =
      check_health_accounts ctx.remaining_accounts ctx.marginfi_bank.key
        (chain.account_bytes s ctx.marginfi_bank.key)

module _ {ℓ} {S : Type ℓ} (pda : Pda) (chain : Chain S) (s : S) where
  unfoldable pub validate_protocol_state :
      MarginfiAccounts → Option Pubkey → Option Pubkey → Result MarginfiUsdcError (Unit {0})
  unfolding check_protocol_keys check_bank check_vault check_vault_authority check_marginfi_account
  validate_protocol_state ctx liquidity_vault bank_liquidity_vault_authority = do
    check_protocol_keys chain s ctx.position.state ctx.marginfi_program ctx.marginfi_account.key
        ctx.marginfi_bank.key
    bank_liquidity_vault ←
        check_bank (chain.account_bytes s ctx.marginfi_bank.key) ctx.config.state.supported_mint
          ctx.marginfi_group
    check_vault liquidity_vault bank_liquidity_vault
    check_vault_authority pda bank_liquidity_vault_authority ctx.marginfi_bank.key
        ctx.marginfi_program
    check_marginfi_account (chain.account_bytes s ctx.marginfi_account.key) ctx.marginfi_group
        ctx.position.state.owner

  unfoldable pub validate_deposit_accounts : MarginfiAccounts → Result MarginfiUsdcError (Unit {0})
  unfolding validate_protocol_program validate_protocol_state validate_token_account
  validate_deposit_accounts ctx = do
    validate_protocol_program ctx.config.state ctx.marginfi_program
    validate_protocol_state ctx (some ctx.liquidity_vault.key) none
    validate_token_account chain s ctx.owner_token_account.key ctx.token_program
        ctx.config.state.supported_mint ctx.owner.key

  unfoldable pub validate_withdraw_accounts : MarginfiAccounts → Result MarginfiUsdcError (Unit {0})
  unfolding validate_protocol_program validate_protocol_state validate_token_account
      validate_withdraw_health_accounts
  validate_withdraw_accounts ctx = do
    validate_protocol_program ctx.config.state ctx.marginfi_program
    validate_protocol_state ctx (some ctx.liquidity_vault.key)
        (some ctx.bank_liquidity_vault_authority)
    validate_token_account chain s ctx.owner_token_account.key ctx.token_program
        ctx.config.state.supported_mint ctx.owner.key
    validate_withdraw_health_accounts chain s ctx

  unfoldable pub validate_value_accounts : MarginfiAccounts → Result MarginfiUsdcError (Unit {0})
  unfolding validate_protocol_program validate_protocol_state
  validate_value_accounts ctx = do
    validate_protocol_program ctx.config.state ctx.marginfi_program
    validate_protocol_state ctx none none
