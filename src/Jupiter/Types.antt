-- ===== src/Jupiter/Types.antt =====
-- The accounts, events, errors and constants of the Jupiter adapter
-- (programs/adapters/jupiter-lp/src/lib.rs and constants.rs).
use sol_yield.Base.{ℕ, List, [], ◌∷◌}
use sol_yield.Base.Bytes.{to_le_bytes}
use sol_yield.Base.Text.{byte_string}
use sol_yield.Solana.Account.{Pubkey, pubkey_bytes, Signer, Account, AccountRef, AccountInfo}
use sol_yield.Solana.Pda.{Pda}

-- `declare_id!("daJFQSrSNB3zApEGUjZuWEXnVhM2vmjpDptc1cG9s6D")`
abbrev pub jupiter_lp_id : Pubkey
jupiter_lp_id = 0xc68c62eb3c3c4f07861d45d6886680ba91f58af90dcca7e7aabd316e008f5e09

-- `PERPHjGBqRHArX4DySjwM6UJHiR3sWAatqfdBS2qQJu`
abbrev pub jupiter_perps_program_id : Pubkey
jupiter_perps_program_id = 0xfa45819b9c2e1294e820c6323a1be39e3dcd75deabf06087ef6294f1caf3b105

-- `5BUwFW4nRbftYTDMbgxykoFWqWHPzahFSNAaaaJtVKsq`
abbrev pub jlp_pool : Pubkey
jlp_pool = 0xfc4d0bb33420e7864824b47cc9e3d02b401c1535002987eb540634c773241e3e

-- `27G8MtK7VtTcCHkpASjSDdkWWYfoqT6ggEuKidVJidD4`
abbrev pub jlp_mint : Pubkey
jlp_mint = 0x438d10c41ca693712039442a73953e3b973313e1edc29fb3e9d941109c467610

-- `TokenkegQfeZyiNwAJbNbGKPFXCWuBvf9Ss623VQ5DA`
abbrev pub token_program_id : Pubkey
token_program_id = 0xa900ff7e85f58c3a91375b5fed85b41cac79ebce46e1cbd993a165d7e1f6dd06

-- `G18jKKXQwBbrHeiK3C9MRXhkHsLHf7XgCSisykV46EZa`
abbrev pub jlp_usdc_custody : Pubkey
jlp_usdc_custody = 0x6d9a4445d54bbf3a7f978e36db86d1be34af386c926b628010d3a213340be8de

-- `6Jp2xZUTWdDD2ZyUPRzeMdc6AFQ5K3pFgZxk2EijfjnM`
abbrev pub jlp_usdc_doves_ag_price_account : Pubkey
jlp_usdc_doves_ag_price_account = 0x1e84c93ac35e60385f337196246932cd617377109b2256033dc99611587dda4e

abbrev pub config_seed : List ℕ
config_seed = byte_string "jupiter_lp_config"

abbrev pub position_seed : List ℕ
position_seed = byte_string "jupiter_lp_position"

abbrev pub perpetuals_seed : List ℕ
perpetuals_seed = byte_string "perpetuals"

abbrev pub transfer_authority_seed : List ℕ
transfer_authority_seed = byte_string "transfer_authority"

abbrev pub event_authority_seed : List ℕ
event_authority_seed = byte_string "__event_authority"

abbrev pub lp_token_mint_seed : List ℕ
lp_token_mint_seed = byte_string "lp_token_mint"

abbrev pub add_liquidity2_ix_discriminator : List ℕ
add_liquidity2_ix_discriminator = 228 ∷ 162 ∷ 78 ∷ 28 ∷ 70 ∷ 219 ∷ 116 ∷ 115 ∷ []

abbrev pub remove_liquidity2_ix_discriminator : List ℕ
remove_liquidity2_ix_discriminator = 230 ∷ 215 ∷ 82 ∷ 127 ∷ 241 ∷ 101 ∷ 227 ∷ 146 ∷ []

abbrev pub pool_discriminator : List ℕ
pool_discriminator = 241 ∷ 154 ∷ 109 ∷ 4 ∷ 17 ∷ 177 ∷ 109 ∷ 188 ∷ []

abbrev pub custody_discriminator : List ℕ
custody_discriminator = 1 ∷ 184 ∷ 48 ∷ 81 ∷ 93 ∷ 131 ∷ 63 ∷ 145 ∷ []

abbrev pub perpetuals_discriminator : List ℕ
perpetuals_discriminator = 28 ∷ 167 ∷ 98 ∷ 191 ∷ 104 ∷ 82 ∷ 108 ∷ 196 ∷ []

abbrev pub token_account_mint_offset : ℕ
token_account_mint_offset = 0

abbrev pub token_account_owner_offset : ℕ
token_account_owner_offset = 32

abbrev pub token_account_amount_offset : ℕ
token_account_amount_offset = 64

abbrev pub mint_supply_offset : ℕ
mint_supply_offset = 36

abbrev pub mint_decimals_offset : ℕ
mint_decimals_offset = 44

abbrev pub custody_pool_offset : ℕ
custody_pool_offset = 8

abbrev pub custody_mint_offset : ℕ
custody_mint_offset = 40

abbrev pub custody_token_account_offset : ℕ
custody_token_account_offset = 72

abbrev pub custody_pythnet_price_account_offset : ℕ
custody_pythnet_price_account_offset = 106

abbrev pub custody_doves_ag_price_account_offset : ℕ
custody_doves_ag_price_account_offset = 384

abbrev pub pool_name_offset : ℕ
pool_name_offset = 8

abbrev pub bps_denominator : ℕ
bps_denominator = 10000

abbrev pub deposit_min_out_bps : ℕ
deposit_min_out_bps = 9500

abbrev pub withdraw_burn_buffer_bps : ℕ
withdraw_burn_buffer_bps = 10100

pub record JupiterLpConfig : Type 0 where
  pub authority : Pubkey
  pub supported_mint : Pubkey
  pub protocol_program_id : Pubkey
  pub version : ℕ  -- u16
  pub bump : ℕ  -- u8

pub record JupiterLpPosition : Type 0 where
  pub owner : Pubkey
  pub pool : Pubkey
  pub custody : Pubkey
  pub lp_token_account : Pubkey
  pub deposited_amount : ℕ  -- u64
  pub shares : ℕ  -- u64
  pub last_value : ℕ  -- u64
  pub bump : ℕ  -- u8

-- the events; arguments in the order of their fields
pub data JupiterLpEvent : Type 0 where
  config_initialized : Pubkey → Pubkey → Pubkey → ℕ → JupiterLpEvent
  jupiter_lp_deposit jupiter_lp_withdraw : Pubkey → Pubkey → ℕ → ℕ → ℕ → ℕ → JupiterLpEvent
  jupiter_lp_value : Pubkey → Pubkey → ℕ → ℕ → JupiterLpEvent

pub data JupiterLpError : Type 0 where
  invalid_amount invalid_mint invalid_owner protocol_cpi_failed math_overflow : JupiterLpError
  invalid_protocol_program invalid_pool invalid_custody invalid_perpetuals : JupiterLpError
  invalid_transfer_authority invalid_event_authority invalid_token_account : JupiterLpError

abbrev pub config_seeds : Pubkey → ℕ → List (List ℕ)
config_seeds supported_mint version =
    config_seed ∷ pubkey_bytes supported_mint ∷ to_le_bytes 2 version ∷ []

abbrev pub position_seeds : Pubkey → Pubkey → List (List ℕ)
position_seeds config owner = position_seed ∷ pubkey_bytes config ∷ pubkey_bytes owner ∷ []

abbrev pub derive_lp_token_mint : Pda → Pubkey → Pubkey → Pubkey
derive_lp_token_mint pda jupiter_program pool =
    (pda.find_program_address (lp_token_mint_seed ∷ pubkey_bytes pool ∷ []) jupiter_program).0

-- The accounts of `Deposit`, `Withdraw` and `CurrentValue`. The token account is the source of a
-- deposit (`funding_account`) and the destination of a withdrawal (`receiving_account`); a query
-- has pool, custody, the LP account and the LP mint alone.
pub record JupiterAccounts : Type 0 where
  pub config : Account JupiterLpConfig
  pub position : Account JupiterLpPosition
  pub owner : Signer
  pub mint : Pubkey
  pub jupiter_program : Pubkey
  pub user_token_account : AccountRef
  pub lp_token_account : AccountRef
  pub transfer_authority : Pubkey
  pub perpetuals : Pubkey
  pub pool : AccountRef
  pub custody : AccountRef
  pub custody_doves_price_account : Pubkey
  pub custody_pythnet_price_account : Pubkey
  pub custody_token_account : AccountRef
  pub lp_token_mint : AccountRef
  pub token_program : Pubkey
  pub event_authority : Pubkey
  pub remaining_accounts : List AccountInfo
