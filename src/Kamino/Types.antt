-- ===== src/Kamino/Types.antt =====
-- The accounts, events, errors and constants of the Kamino adapter
-- (programs/adapters/kamino-usdc/src/lib.rs).
use sol_yield.Base.{ℕ, List, [], ◌∷◌}
use sol_yield.Base.Bytes.{to_le_bytes}
use sol_yield.Base.Text.{byte_string}
use sol_yield.Solana.Account.{Pubkey, pubkey_bytes, Signer, Account, AccountRef}

-- `declare_id!("G4g2RMwZs2dH2sVe3ChQ4VpM2DNZu8EESdRyHTc3P9T4")`
abbrev pub kamino_usdc_id : Pubkey
kamino_usdc_id = 0xf7770b3127bddacffb4208739c3c6c3f04a6e3f788e0a1141a7ec9e5e32bd0df

abbrev pub config_seed : List ℕ
config_seed = byte_string "kamino_usdc_config"

abbrev pub position_seed : List ℕ
position_seed = byte_string "kamino_usdc_position"

abbrev pub lending_market_auth_seed : List ℕ
lending_market_auth_seed = byte_string "lma"

abbrev pub deposit_reserve_liquidity_ix_discriminator : List ℕ
deposit_reserve_liquidity_ix_discriminator = 169 ∷ 201 ∷ 30 ∷ 126 ∷ 6 ∷ 205 ∷ 102 ∷ 68 ∷ []

abbrev pub redeem_reserve_collateral_ix_discriminator : List ℕ
redeem_reserve_collateral_ix_discriminator = 234 ∷ 117 ∷ 181 ∷ 125 ∷ 185 ∷ 142 ∷ 220 ∷ 29 ∷ []

abbrev pub reserve_discriminator : List ℕ
reserve_discriminator = 43 ∷ 242 ∷ 204 ∷ 202 ∷ 26 ∷ 247 ∷ 59 ∷ 127 ∷ []

abbrev pub fractional_bits : ℕ
fractional_bits = 60

abbrev pub token_account_mint_offset : ℕ
token_account_mint_offset = 0

abbrev pub token_account_owner_offset : ℕ
token_account_owner_offset = 32

abbrev pub token_account_amount_offset : ℕ
token_account_amount_offset = 64

abbrev pub reserve_lending_market_offset : ℕ
reserve_lending_market_offset = 32

abbrev pub reserve_liquidity_mint_offset : ℕ
reserve_liquidity_mint_offset = 128

abbrev pub reserve_liquidity_supply_offset : ℕ
reserve_liquidity_supply_offset = 160

abbrev pub reserve_liquidity_total_available_offset : ℕ
reserve_liquidity_total_available_offset = 224

abbrev pub reserve_liquidity_borrowed_amount_sf_offset : ℕ
reserve_liquidity_borrowed_amount_sf_offset = 232

abbrev pub reserve_liquidity_accumulated_protocol_fees_sf_offset : ℕ
reserve_liquidity_accumulated_protocol_fees_sf_offset = 344

abbrev pub reserve_liquidity_accumulated_referrer_fees_sf_offset : ℕ
reserve_liquidity_accumulated_referrer_fees_sf_offset = 360

abbrev pub reserve_liquidity_pending_referrer_fees_sf_offset : ℕ
reserve_liquidity_pending_referrer_fees_sf_offset = 376

abbrev pub reserve_liquidity_token_program_offset : ℕ
reserve_liquidity_token_program_offset = 408

abbrev pub reserve_collateral_mint_offset : ℕ
reserve_collateral_mint_offset = 2560

abbrev pub reserve_collateral_mint_total_supply_offset : ℕ
reserve_collateral_mint_total_supply_offset = 2592

pub record KaminoUsdcConfig : Type 0 where
  pub authority : Pubkey
  pub supported_mint : Pubkey
  pub protocol_program_id : Pubkey
  pub version : ℕ  -- u16
  pub bump : ℕ  -- u8

pub record KaminoUsdcPosition : Type 0 where
  pub owner : Pubkey
  pub reserve : Pubkey
  pub collateral_token_account : Pubkey
  pub deposited_amount : ℕ  -- u64
  pub shares : ℕ  -- u64
  pub last_value : ℕ  -- u64
  pub bump : ℕ  -- u8

-- the events; arguments in the order of their fields
pub data KaminoUsdcEvent : Type 0 where
  config_initialized : Pubkey → Pubkey → Pubkey → ℕ → KaminoUsdcEvent
  kamino_usdc_deposit kamino_usdc_withdraw : Pubkey → Pubkey → ℕ → ℕ → ℕ → KaminoUsdcEvent
  kamino_usdc_value : Pubkey → Pubkey → ℕ → ℕ → KaminoUsdcEvent

pub data KaminoUsdcError : Type 0 where
  invalid_amount invalid_mint invalid_owner invalid_protocol_program : KaminoUsdcError
  invalid_protocol_account invalid_reserve invalid_lending_market : KaminoUsdcError
  invalid_vault invalid_token_account invalid_instruction_sysvar : KaminoUsdcError
  protocol_cpi_failed math_overflow : KaminoUsdcError

-- What the adapter reads of a reserve. Amounts ending in `sf` are in 2^-60ths.
pub record KaminoReserveFields : Type 0 where
  pub lending_market : Pubkey
  pub liquidity_mint : Pubkey
  pub liquidity_supply : Pubkey
  pub liquidity_token_program : Pubkey
  pub total_available_amount : ℕ  -- u64
  pub borrowed_amount_sf : ℕ  -- u128
  pub accumulated_protocol_fees_sf : ℕ  -- u128
  pub accumulated_referrer_fees_sf : ℕ  -- u128
  pub pending_referrer_fees_sf : ℕ  -- u128
  pub collateral_mint : Pubkey
  pub collateral_mint_total_supply : ℕ  -- u64

abbrev pub config_seeds : Pubkey → ℕ → List (List ℕ)
config_seeds supported_mint version =
    config_seed ∷ pubkey_bytes supported_mint ∷ to_le_bytes 2 version ∷ []

abbrev pub position_seeds : Pubkey → Pubkey → List (List ℕ)
position_seeds config owner = position_seed ∷ pubkey_bytes config ∷ pubkey_bytes owner ∷ []

-- The accounts of `Deposit`, `Withdraw` and `CurrentValue`. The user's liquidity account is the
-- source of a deposit and the destination of a withdrawal, and the collateral account the other
-- way round; a query has the reserve and the collateral account alone.
pub record KaminoAccounts : Type 0 where
  pub config : Account KaminoUsdcConfig
  pub position : Account KaminoUsdcPosition
  pub owner : Signer
  pub mint : Pubkey
  pub kamino_program : Pubkey
  pub reserve : AccountRef
  pub lending_market : Pubkey
  pub lending_market_authority : Pubkey
  pub reserve_liquidity_mint : Pubkey
  pub reserve_liquidity_supply : AccountRef
  pub reserve_collateral_mint : AccountRef
  pub user_liquidity : AccountRef
  pub user_collateral : AccountRef
  pub collateral_token_program : Pubkey
  pub liquidity_token_program : Pubkey
  pub instruction_sysvar_account : Pubkey
