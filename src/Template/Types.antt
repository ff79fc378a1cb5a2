-- ===== src/Template/Types.antt =====
-- The accounts, events, errors and constants of the adapter template
-- (programs/adapters/adapter-template/src/lib.rs).
use sol_yield.Base.{ℕ, Bool, List, [], ◌∷◌}
use sol_yield.Base.Bytes.{to_le_bytes}
use sol_yield.Base.Text.{byte_string}
use sol_yield.Solana.Account.{Pubkey, pubkey_bytes, Signer, Account, AccountRef}

-- `declare_id!("HQ43j9nP1vEaLGVbo2M19ijmGf5aG6UA5FTBspkNZ5GR")`
abbrev pub template_id : Pubkey
template_id = 0xfe7915849c35eacdce2692646d69ec0a62de3c721e6772c1a738216271cba2f3

abbrev pub adapter_config_seed : List ℕ
adapter_config_seed = byte_string "adapter_config"

abbrev pub user_position_seed : List ℕ
user_position_seed = byte_string "user_position"

pub record AdapterConfig : Type 0 where
  pub authority : Pubkey
  pub supported_mint : Pubkey
  pub protocol_program_id : Pubkey
  pub version : ℕ  -- u16
  pub bump : ℕ  -- u8

pub record UserPosition : Type 0 where
  pub owner : Pubkey
  pub deposited_amount : ℕ  -- u64
  pub shares : ℕ  -- u64
  pub last_value : ℕ  -- u64
  pub bump : ℕ  -- u8

pub data AdapterTemplateError : Type 0 where
  invalid_amount invalid_mint invalid_owner protocol_cpi_failed : AdapterTemplateError
  math_overflow unsupported_operation : AdapterTemplateError

-- the events; arguments in the order of their fields
pub data AdapterEvent : Type 0 where
  adapter_deposit adapter_withdraw : Pubkey → Pubkey → ℕ → ℕ → ℕ → AdapterEvent
  adapter_value : Pubkey → Pubkey → ℕ → AdapterEvent

abbrev pub adapter_config_seeds : Pubkey → ℕ → List (List ℕ)
adapter_config_seeds supported_mint version =
    adapter_config_seed ∷ pubkey_bytes supported_mint ∷ to_le_bytes 2 version ∷ []

abbrev pub user_position_seeds : Pubkey → Pubkey → List (List ℕ)
user_position_seeds adapter_config owner =
    user_position_seed ∷ pubkey_bytes adapter_config ∷ pubkey_bytes owner ∷ []

-- The accounts of each instruction. A created account is its address, the bump that the
-- framework found for it, and whether the address is still free. `Deposit`, `Withdraw` and
-- `CurrentValue` have the same fields.
pub record InitializeAdapter : Type 0 where
  pub adapter_config : AccountRef
  pub adapter_config_bump : ℕ
  pub adapter_config_free : Bool
  pub authority : Signer

pub record InitializePosition : Type 0 where
  pub adapter_config : Account AdapterConfig
  pub user_position : AccountRef
  pub user_position_bump : ℕ
  pub user_position_free : Bool
  pub owner : Signer

pub record PositionAccounts : Type 0 where
  pub adapter_config : Account AdapterConfig
  pub user_position : Account UserPosition
  pub owner : Signer
  pub mint : Pubkey
