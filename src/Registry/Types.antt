-- ===== src/Registry/Types.antt =====
-- The accounts, events, errors and constants of the registry program
-- (programs/registry/src/lib.rs).
use sol_yield.Base.{ℕ, ◌+◌, List, [], ◌∷◌}
use sol_yield.Base.Bytes.{to_le_bytes}
use sol_yield.Base.Text.{Text, byte_string}
use sol_yield.Solana.Account.{Pubkey, pubkey_bytes}

-- the program's own address, `declare_id!("HiLF1P7LguVyBbzMSN3hK4ErGxfxaS6TMPbR6R73Dtdn")`
abbrev pub registry_id : Pubkey
registry_id = 0xc1eaa93beea2702289378b97d15c19113b884eba629f1346e4eb0d9b778f51f8

abbrev pub registry_config_seed : List ℕ
registry_config_seed = byte_string "registry_config"

abbrev pub adapter_entry_seed : List ℕ
adapter_entry_seed = byte_string "adapter_entry"

abbrev pub max_protocol_name_len : ℕ
max_protocol_name_len = 64

abbrev pub max_metadata_uri_len : ℕ
max_metadata_uri_len = 256

pub record RegistryConfig : Type 0 where
  pub governance_authority : Pubkey
  pub adapter_count : ℕ  -- u64
  pub bump : ℕ  -- u8

-- `RegistryConfig::LEN`
abbrev pub registry_config_len : ℕ
registry_config_len = 8 + 32 + 8 + 1

pub data AdapterStatus : Type 0 where
  pending approved paused deprecated : AdapterStatus

pub AdapterStatus-discrete : Discrete AdapterStatus
AdapterStatus-discrete = hlevel

pub record AdapterEntry : Type 0 where
  pub adapter_program_id : Pubkey
  pub protocol_name : Text
  pub adapter_version : ℕ  -- u16
  pub supported_mint : Pubkey
  pub status : AdapterStatus
  pub metadata_uri : Text
  pub created_slot : ℕ  -- u64
  pub updated_slot : ℕ  -- u64
  pub bump : ℕ  -- u8

-- `AdapterEntry::LEN`
abbrev pub adapter_entry_len : ℕ
adapter_entry_len =
    8 + 32 + 4 + max_protocol_name_len + 2 + 32 + 1 + 4 + max_metadata_uri_len + 8 + 8 + 1

-- the seeds of the address of an adapter's entry
abbrev pub adapter_entry_seeds : Pubkey → Pubkey → ℕ → List (List ℕ)
adapter_entry_seeds adapter_program_id supported_mint adapter_version =
    adapter_entry_seed
    ∷ pubkey_bytes adapter_program_id
    ∷ pubkey_bytes supported_mint
    ∷ to_le_bytes 2 adapter_version
    ∷ []

abbrev pub registry_config_seeds : List (List ℕ)
registry_config_seeds = registry_config_seed ∷ []

pub data RegistryError : Type 0 where
  unauthorized_governance empty_protocol_name empty_metadata_uri : RegistryError
  invalid_adapter_program_id invalid_supported_mint invalid_governance_authority : RegistryError
  protocol_name_too_long metadata_uri_too_long : RegistryError
  invalid_status_transition adapter_count_overflow : RegistryError

-- What the events of approval, pause, unpause and deprecation carry.
pub record StatusEvent : Type 0 where
  pub governance_authority : Pubkey
  pub adapter_entry : Pubkey
  pub adapter_program_id : Pubkey
  pub adapter_version : ℕ
  pub supported_mint : Pubkey
  pub slot : ℕ

-- The `#[event]` structs; arguments in the order of their fields.
pub data RegistryEvent : Type 0 where
  registry_initialized : Pubkey → Pubkey → ℕ → RegistryEvent
  adapter_proposed : Pubkey → Pubkey → Pubkey → Text → ℕ → Pubkey → Text → ℕ → RegistryEvent
  adapter_approved adapter_paused adapter_unpaused adapter_deprecated : StatusEvent → RegistryEvent
  adapter_metadata_updated : Pubkey → Pubkey → Pubkey → ℕ → Pubkey → Text → Text → ℕ → RegistryEvent
  governance_transferred : Pubkey → Pubkey → Pubkey → RegistryEvent
