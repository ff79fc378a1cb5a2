-- ===== src/Maple/Types.antt =====
-- The accounts, events, errors and constants of the Maple/Syrup adapter
-- (programs/adapters/maple-syrup/src/lib.rs and constants.rs beside it).
use sol_yield.Base.{ℕ, List, [], ◌∷◌}
use sol_yield.Base.Bytes.{to_le_bytes}
use sol_yield.Base.Text.{byte_string}
use sol_yield.Solana.Account.{Pubkey, pubkey_bytes, Signer, Account, AccountRef}

abbrev pub maple_syrup_usdc_mint : Pubkey
maple_syrup_usdc_mint = 0x2c7fec1292ab3cb729d7a5a7dccc38054334b2c6cbaba61a5538f034bac67193

abbrev pub maple_syrup_usdc_oracle : Pubkey
maple_syrup_usdc_oracle = 0x20ff931968c2e979dfc5abf92d01afc763502dd590af40ab62080de65eb493af

abbrev pub chainlink_store_program_id : Pubkey
chainlink_store_program_id = 0x256171d9548a2c1378f775bcf2136d6271f232c74455e71bad26bd55af64bf1

abbrev pub token_program_id : Pubkey
token_program_id = 0xa900ff7e85f58c3a91375b5fed85b41cac79ebce46e1cbd993a165d7e1f6dd06

abbrev pub maple_syrup_id : Pubkey
maple_syrup_id = 0x7b5a1ebf6993ff35cfe1f9d90f04d086b65d4bc9d97a6a2b214bdf94ed6e02af

abbrev pub config_seed : List ℕ
config_seed = byte_string "maple_syrup_config"

abbrev pub position_seed : List ℕ
position_seed = byte_string "maple_syrup_position"

abbrev pub spl_token_transfer_ix : ℕ
spl_token_transfer_ix = 3

abbrev pub token_account_mint_offset : ℕ
token_account_mint_offset = 0

abbrev pub token_account_owner_offset : ℕ
token_account_owner_offset = 32

abbrev pub token_account_amount_offset : ℕ
token_account_amount_offset = 64

abbrev pub feed_version_offset : ℕ
feed_version_offset = 8

abbrev pub feed_supported_version : ℕ
feed_supported_version = 2

abbrev pub feed_decimals_offset : ℕ
feed_decimals_offset = 138

abbrev pub feed_live_length_offset : ℕ
feed_live_length_offset = 148

abbrev pub feed_live_cursor_offset : ℕ
feed_live_cursor_offset = 152

abbrev pub feed_transmissions_offset : ℕ
feed_transmissions_offset = 200

abbrev pub feed_transmission_size : ℕ
feed_transmission_size = 48

abbrev pub feed_transmission_answer_offset : ℕ
feed_transmission_answer_offset = 16

pub record MapleSyrupConfig : Type 0 where
  pub authority : Pubkey
  pub supported_mint : Pubkey
  pub protocol_program_id : Pubkey
  pub version : ℕ  -- u16
  pub bump : ℕ  -- u8

pub record MapleSyrupPosition : Type 0 where
  pub owner : Pubkey
  pub vault_token_account : Pubkey
  pub deposited_amount : ℕ  -- u64
  pub shares : ℕ  -- u64
  pub last_value : ℕ  -- u64
  pub bump : ℕ  -- u8

-- the events; arguments in the order of their fields
pub data MapleSyrupEvent : Type 0 where
  config_initialized : Pubkey → Pubkey → Pubkey → ℕ → MapleSyrupEvent
  maple_syrup_deposit maple_syrup_withdraw : Pubkey → Pubkey → ℕ → ℕ → ℕ → MapleSyrupEvent
  maple_syrup_value : Pubkey → Pubkey → ℕ → ℕ → MapleSyrupEvent

pub data MapleSyrupError : Type 0 where
  invalid_amount invalid_mint invalid_owner protocol_cpi_failed math_overflow : MapleSyrupError
  invalid_protocol_program invalid_token_account : MapleSyrupError
  invalid_price_feed invalid_price_answer : MapleSyrupError

abbrev pub config_seeds : Pubkey → ℕ → List (List ℕ)
config_seeds supported_mint version =
    config_seed ∷ pubkey_bytes supported_mint ∷ to_le_bytes 2 version ∷ []

abbrev pub position_seeds : Pubkey → Pubkey → List (List ℕ)
position_seeds config owner = position_seed ∷ pubkey_bytes config ∷ pubkey_bytes owner ∷ []

-- The accounts of `Deposit`, `Withdraw` and `CurrentValue`: the user's token account is the
-- source of a deposit and the destination of a withdrawal, and a query has none.
pub record VaultAccounts : Type 0 where
  pub config : Account MapleSyrupConfig
  pub position : Account MapleSyrupPosition
  pub owner : Signer
  pub mint : Pubkey
  pub token_program : Pubkey
  pub user_token_account : AccountRef
  pub vault_token_account : AccountRef
  pub price_feed : Pubkey
