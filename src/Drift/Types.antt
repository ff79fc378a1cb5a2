-- ===== src/Drift/Types.antt =====
-- The accounts, events, errors and constants of the Drift adapter
-- (programs/adapters/drift-insurance-fund/src/lib.rs).
use sol_yield.Base.{ℕ, ◌+◌, List, [], ◌∷◌}
use sol_yield.Base.Bytes.{to_le_bytes}
use sol_yield.Base.Text.{byte_string}
use sol_yield.Solana.Account.{Pubkey, pubkey_bytes, Signer, Account, AccountRef}
use sol_yield.Solana.Pda.{Pda}

-- `declare_id!("mWDRjDXGpQupue6j74cdWJD7BJ1XygdaxU7vc52BLve")`
abbrev pub drift_insurance_fund_id : Pubkey
drift_insurance_fund_id = 0x337e50b37f5f4f24afccb419e3b8f96e08561a3c735fa77e6576aad09796660b

abbrev pub config_seed : List ℕ
config_seed = byte_string "drift_if_config"

abbrev pub position_seed : List ℕ
position_seed = byte_string "drift_if_position"

abbrev pub drift_spot_market_seed : List ℕ
drift_spot_market_seed = byte_string "spot_market"

abbrev pub drift_insurance_fund_stake_seed : List ℕ
drift_insurance_fund_stake_seed = byte_string "insurance_fund_stake"

abbrev pub drift_insurance_fund_vault_seed : List ℕ
drift_insurance_fund_vault_seed = byte_string "insurance_fund_vault"

abbrev pub drift_signer_seed : List ℕ
drift_signer_seed = byte_string "drift_signer"

abbrev pub drift_user_stats_seed : List ℕ
drift_user_stats_seed = byte_string "user_stats"

abbrev pub add_insurance_fund_stake_ix_discriminator : List ℕ
add_insurance_fund_stake_ix_discriminator = 251 ∷ 144 ∷ 115 ∷ 11 ∷ 222 ∷ 47 ∷ 62 ∷ 236 ∷ []

abbrev pub request_remove_insurance_fund_stake_ix_discriminator : List ℕ
request_remove_insurance_fund_stake_ix_discriminator =
    142 ∷ 70 ∷ 204 ∷ 92 ∷ 73 ∷ 106 ∷ 180 ∷ 52 ∷ []

abbrev pub token_account_mint_offset : ℕ
token_account_mint_offset = 0

abbrev pub token_account_owner_offset : ℕ
token_account_owner_offset = 32

abbrev pub token_account_amount_offset : ℕ
token_account_amount_offset = 64

abbrev pub if_stake_authority_offset : ℕ
if_stake_authority_offset = 8

abbrev pub if_stake_if_shares_offset : ℕ
if_stake_if_shares_offset = 8 + 32

abbrev pub if_stake_last_withdraw_request_shares_offset : ℕ
if_stake_last_withdraw_request_shares_offset = 8 + 48

abbrev pub if_stake_last_withdraw_request_value_offset : ℕ
if_stake_last_withdraw_request_value_offset = 8 + 88

abbrev pub if_stake_market_index_offset : ℕ
if_stake_market_index_offset = 8 + 112

abbrev pub spot_market_pubkey_offset : ℕ
spot_market_pubkey_offset = 8

abbrev pub spot_market_mint_offset : ℕ
spot_market_mint_offset = 8 + 64

abbrev pub spot_market_vault_offset : ℕ
spot_market_vault_offset = 8 + 96

abbrev pub spot_market_if_vault_offset : ℕ
spot_market_if_vault_offset = 8 + 296

abbrev pub spot_market_if_total_shares_offset : ℕ
spot_market_if_total_shares_offset = 8 + 328

pub record DriftInsuranceFundConfig : Type 0 where
  pub authority : Pubkey
  pub supported_mint : Pubkey
  pub protocol_program_id : Pubkey
  pub version : ℕ  -- u16
  pub bump : ℕ  -- u8

pub record DriftInsuranceFundPosition : Type 0 where
  pub owner : Pubkey
  pub insurance_fund_stake : Pubkey
  pub user_stats : Pubkey
  pub market_index : ℕ  -- u16
  pub deposited_amount : ℕ  -- u64
  pub shares : ℕ  -- u64
  pub last_value : ℕ  -- u64
  pub pending_withdraw_amount : ℕ  -- u64
  pub bump : ℕ  -- u8

-- the events; arguments in the order of their fields
pub data DriftInsuranceFundEvent : Type 0 where
  config_initialized : Pubkey → Pubkey → Pubkey → ℕ → DriftInsuranceFundEvent
  drift_insurance_fund_deposit drift_insurance_fund_withdraw :
      Pubkey → Pubkey → ℕ → ℕ → ℕ → DriftInsuranceFundEvent
  drift_insurance_fund_value : Pubkey → Pubkey → ℕ → ℕ → DriftInsuranceFundEvent

pub data DriftInsuranceFundError : Type 0 where
  invalid_amount invalid_mint invalid_owner invalid_protocol_program : DriftInsuranceFundError
  invalid_protocol_account invalid_spot_market : DriftInsuranceFundError
  invalid_insurance_fund_stake invalid_user_stats invalid_vault : DriftInsuranceFundError
  invalid_token_account protocol_cpi_failed math_overflow : DriftInsuranceFundError

abbrev pub config_seeds : Pubkey → ℕ → List (List ℕ)
config_seeds supported_mint version =
    config_seed ∷ pubkey_bytes supported_mint ∷ to_le_bytes 2 version ∷ []

abbrev pub position_seeds : Pubkey → Pubkey → List (List ℕ)
position_seeds config owner = position_seed ∷ pubkey_bytes config ∷ pubkey_bytes owner ∷ []

module _ (pda : Pda) (drift_program : Pubkey) where
  abbrev pub derive_spot_market : ℕ → Pubkey
  derive_spot_market market_index =
      (pda.find_program_address (drift_spot_market_seed ∷ to_le_bytes 2 market_index ∷ [])
        drift_program).0

  abbrev pub derive_insurance_fund_vault : ℕ → Pubkey
  derive_insurance_fund_vault market_index =
      (pda.find_program_address (drift_insurance_fund_vault_seed ∷ to_le_bytes 2 market_index ∷ [])
        drift_program).0

  abbrev pub derive_insurance_fund_stake : Pubkey → ℕ → Pubkey
  derive_insurance_fund_stake owner market_index =
      (pda.find_program_address
        (drift_insurance_fund_stake_seed ∷ pubkey_bytes owner ∷ to_le_bytes 2 market_index ∷ [])
        drift_program).0

  abbrev pub derive_user_stats : Pubkey → Pubkey
  derive_user_stats owner =
      (pda.find_program_address (drift_user_stats_seed ∷ pubkey_bytes owner ∷ []) drift_program).0

-- The accounts of `Deposit`, `Withdraw` and `CurrentValue`; a withdrawal and a query have no
-- state, market vault, signer or token account, and a query no user stats.
pub record DriftAccounts : Type 0 where
  pub config : Account DriftInsuranceFundConfig
  pub position : Account DriftInsuranceFundPosition
  pub owner : Signer
  pub mint : Pubkey
  pub drift_program : Pubkey
  pub state : Pubkey
  pub spot_market : AccountRef
  pub insurance_fund_stake : AccountRef
  pub user_stats : AccountRef
  pub spot_market_vault : AccountRef
  pub insurance_fund_vault : AccountRef
  pub drift_signer : Pubkey
  pub user_token_account : AccountRef
  pub token_program : Pubkey
