-- ===== src/Marginfi/Types.antt =====
-- The accounts, events, errors and constants of the MarginFi adapter
-- (programs/adapters/marginfi-usdc/src/lib.rs).
use sol_yield.Base.{ℕ, ◌^◌, List, [], ◌∷◌}
use sol_yield.Base.Bytes.{to_le_bytes}
use sol_yield.Base.Text.{byte_string}
use sol_yield.Solana.Account.{Pubkey, pubkey_bytes, AccountInfo, Signer, Account, AccountRef}

-- `declare_id!("ZZcKiv9h3ACNoXubmys1zWY9yFTjif6x6tb3Us4voyr")`
abbrev pub marginfi_usdc_id : Pubkey
marginfi_usdc_id = 0xd1ddab9edfbc240801ad866d9b0c4134f1e095f8aa9dc670ad3a5042ff745708

abbrev pub config_seed : List ℕ
config_seed = byte_string "marginfi_usdc_config"

abbrev pub position_seed : List ℕ
position_seed = byte_string "marginfi_usdc_position"

abbrev pub marginfi_deposit_ix_discriminator : List ℕ
marginfi_deposit_ix_discriminator = 171 ∷ 94 ∷ 235 ∷ 103 ∷ 82 ∷ 64 ∷ 212 ∷ 140 ∷ []

abbrev pub marginfi_withdraw_ix_discriminator : List ℕ
marginfi_withdraw_ix_discriminator = 36 ∷ 72 ∷ 74 ∷ 19 ∷ 210 ∷ 210 ∷ 192 ∷ 192 ∷ []

abbrev pub liquidity_vault_authority_seed : List ℕ
liquidity_vault_authority_seed = byte_string "liquidity_vault_auth"

-- offsets into a bank
abbrev pub bank_mint_offset : ℕ
bank_mint_offset = 8

abbrev pub bank_mint_decimals_offset : ℕ
bank_mint_decimals_offset = 40

abbrev pub bank_group_offset : ℕ
bank_group_offset = 41

abbrev pub bank_asset_share_value_offset : ℕ
bank_asset_share_value_offset = 80

abbrev pub bank_liquidity_vault_offset : ℕ
bank_liquidity_vault_offset = 112

abbrev pub bank_operational_state_offset : ℕ
bank_operational_state_offset = 608

abbrev pub bank_oracle_setup_offset : ℕ
bank_oracle_setup_offset = 609

abbrev pub bank_oracle_keys_offset : ℕ
bank_oracle_keys_offset = 610

-- offsets into a MarginFi account and its balances
abbrev pub marginfi_account_group_offset : ℕ
marginfi_account_group_offset = 8

abbrev pub marginfi_account_authority_offset : ℕ
marginfi_account_authority_offset = 40

abbrev pub marginfi_account_balances_offset : ℕ
marginfi_account_balances_offset = 72

abbrev pub marginfi_balance_size : ℕ
marginfi_balance_size = 104

abbrev pub marginfi_balance_active_offset : ℕ
marginfi_balance_active_offset = 0

abbrev pub marginfi_balance_bank_offset : ℕ
marginfi_balance_bank_offset = 1

abbrev pub marginfi_balance_asset_shares_offset : ℕ
marginfi_balance_asset_shares_offset = 40

abbrev pub marginfi_balance_count : ℕ
marginfi_balance_count = 16

abbrev pub token_account_mint_offset : ℕ
token_account_mint_offset = 0

abbrev pub token_account_owner_offset : ℕ
token_account_owner_offset = 32

abbrev pub i80f48_fractional_bits : ℕ
i80f48_fractional_bits = 48

-- `1 << 48`
abbrev pub i80f48_one : ℕ
i80f48_one = 2 ^ i80f48_fractional_bits

pub record MarginfiUsdcConfig : Type 0 where
  pub authority : Pubkey
  pub supported_mint : Pubkey
  pub protocol_program_id : Pubkey
  pub version : ℕ  -- u16
  pub bump : ℕ  -- u8

pub record MarginfiUsdcPosition : Type 0 where
  pub owner : Pubkey
  pub marginfi_account : Pubkey
  pub marginfi_bank : Pubkey
  pub deposited_amount : ℕ  -- u64
  pub shares : ℕ  -- u64
  pub last_value : ℕ  -- u64
  pub bump : ℕ  -- u8

-- the events; arguments in the order of their fields
pub data MarginfiUsdcEvent : Type 0 where
  config_initialized : Pubkey → Pubkey → Pubkey → ℕ → MarginfiUsdcEvent
  marginfi_usdc_deposit marginfi_usdc_withdraw : Pubkey → Pubkey → ℕ → ℕ → ℕ → MarginfiUsdcEvent
  marginfi_usdc_value : Pubkey → Pubkey → ℕ → MarginfiUsdcEvent

pub data MarginfiUsdcError : Type 0 where
  invalid_amount invalid_mint invalid_owner invalid_protocol_program : MarginfiUsdcError
  invalid_marginfi_account invalid_bank invalid_group invalid_vault : MarginfiUsdcError
  invalid_token_account protocol_cpi_failed math_overflow : MarginfiUsdcError
  invalid_fixed_point_value invalid_protocol_account missing_health_accounts : MarginfiUsdcError

abbrev pub config_seeds : Pubkey → ℕ → List (List ℕ)
config_seeds supported_mint version =
    config_seed ∷ pubkey_bytes supported_mint ∷ to_le_bytes 2 version ∷ []

abbrev pub position_seeds : Pubkey → Pubkey → List (List ℕ)
position_seeds config owner = position_seed ∷ pubkey_bytes config ∷ pubkey_bytes owner ∷ []

-- The accounts of `Deposit`, `Withdraw` and `CurrentValue`: the authority of the vault and the
-- remaining accounts are those of a withdrawal, and a query has neither vault nor token accounts.
pub record MarginfiAccounts : Type 0 where
  pub config : Account MarginfiUsdcConfig
  pub position : Account MarginfiUsdcPosition
  pub owner : Signer
  pub mint : Pubkey
  pub marginfi_program : Pubkey
  pub marginfi_group : Pubkey
  pub marginfi_account : AccountRef
  pub marginfi_bank : AccountRef
  pub owner_token_account : AccountRef
  pub bank_liquidity_vault_authority : Pubkey
  pub liquidity_vault : AccountRef
  pub token_program : Pubkey
  pub remaining_accounts : List AccountInfo
