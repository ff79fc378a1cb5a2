-- ===== src/Registry/Handlers.antt =====
-- The instruction handlers of the registry program (programs/registry/src/lib.rs, `mod registry`).
-- A handler takes its accounts as the framework has read them, and returns them as it leaves
-- them, with the event that it emits. `slot` is the slot of `Clock::get`.
use sol_yield.Base.{ℕ, Bool, true, false, not, ◌==◌}
use sol_yield.Base.Result.{Result, ok, require, ok_or, ◌>>=◌, ◌>>◌}
use sol_yield.Base.Text.{Text}
use sol_yield.Base.Word.{checked_add}
use sol_yield.Solana.Account.{Pubkey, default_pubkey, Signer, Account, AccountRef}
use sol_yield.Registry.Types.{
  RegistryConfig, AdapterStatus, pending, approved, paused, deprecated, AdapterEntry, RegistryError,
  invalid_status_transition, adapter_count_overflow, invalid_governance_authority, StatusEvent,
  RegistryEvent, registry_initialized, adapter_proposed, adapter_approved, adapter_paused,
  adapter_unpaused, adapter_deprecated, adapter_metadata_updated, governance_transferred,
}
use sol_yield.Registry.Validate.{validate_adapter_inputs, validate_metadata_uri}

-- The accounts of each instruction. An account that the instruction creates is its address,
-- and the bump that the framework found for it.
pub record InitializeRegistry : Type 0 where
  pub registry_config : AccountRef
  pub registry_config_bump : ℕ
  pub governance_authority : Signer

pub record ProposeAdapter : Type 0 where
  pub registry_config : Account RegistryConfig
  pub adapter_entry : AccountRef
  pub adapter_entry_bump : ℕ
  pub governance_authority : Signer

pub record GovernAdapter : Type 0 where
  pub registry_config : Account RegistryConfig
  pub adapter_entry : Account AdapterEntry
  pub governance_authority : Signer

pub record TransferGovernance : Type 0 where
  pub registry_config : Account RegistryConfig
  pub governance_authority : Signer

unfoldable pub initialize_registry :
    InitializeRegistry → Result RegistryError (RegistryConfig × RegistryEvent)
initialize_registry ctx = ok (
  record {
    governance_authority = ctx.governance_authority.key;
    adapter_count = 0;
    bump = ctx.registry_config_bump;
  },
  registry_initialized ctx.governance_authority.key ctx.registry_config.key
      ctx.registry_config_bump,
)

-- The arguments of `propose_adapter`.
pub record Proposal : Type 0 where
  pub adapter_program_id : Pubkey
  pub protocol_name : Text
  pub adapter_version : ℕ  -- u16
  pub supported_mint : Pubkey
  pub metadata_uri : Text

unfoldable pub propose_adapter :
    ProposeAdapter
    → Proposal
    → ℕ
    → Result RegistryError (RegistryConfig × AdapterEntry × RegistryEvent)
propose_adapter ctx p slot = do
  validate_adapter_inputs p.adapter_program_id p.protocol_name p.supported_mint p.metadata_uri
  adapter_count ←
      ok_or (checked_add 64 ctx.registry_config.state.adapter_count 1) adapter_count_overflow
  let registry_config = ctx.registry_config.state
  ok (
    record registry_config { adapter_count = adapter_count },
    record {
      adapter_program_id = p.adapter_program_id;
      protocol_name = p.protocol_name;
      adapter_version = p.adapter_version;
      supported_mint = p.supported_mint;
      status = pending;
      metadata_uri = p.metadata_uri;
      created_slot = slot;
      updated_slot = slot;
      bump = ctx.adapter_entry_bump;
    },
    adapter_proposed ctx.governance_authority.key ctx.adapter_entry.key p.adapter_program_id
        p.protocol_name p.adapter_version p.supported_mint p.metadata_uri slot,
  )

-- the derived equality of `AdapterStatus`
abbrev pub status_eq : AdapterStatus → AdapterStatus → Bool
status_eq pending pending = true
status_eq approved approved = true
status_eq paused paused = true
status_eq deprecated deprecated = true
status_eq _ _ = false

abbrev with_status : AdapterStatus → ℕ → AdapterEntry → AdapterEntry
with_status status slot e = record e { status = status; updated_slot = slot }

abbrev pub status_event : GovernAdapter → ℕ → StatusEvent
status_event ctx slot = record {
  governance_authority = ctx.governance_authority.key;
  adapter_entry = ctx.adapter_entry.key;
  adapter_program_id = ctx.adapter_entry.state.adapter_program_id;
  adapter_version = ctx.adapter_entry.state.adapter_version;
  supported_mint = ctx.adapter_entry.state.supported_mint;
  slot = slot;
}

unfoldable pub approve_adapter :
    GovernAdapter → ℕ → Result RegistryError (AdapterEntry × RegistryEvent)
approve_adapter ctx slot = do
  let adapter_entry = ctx.adapter_entry.state
  require (status_eq adapter_entry.status pending) invalid_status_transition
  ok (with_status approved slot adapter_entry, adapter_approved (status_event ctx slot))

unfoldable pub pause_adapter :
    GovernAdapter → ℕ → Result RegistryError (AdapterEntry × RegistryEvent)
pause_adapter ctx slot = do
  let adapter_entry = ctx.adapter_entry.state
  require (status_eq adapter_entry.status approved) invalid_status_transition
  ok (with_status paused slot adapter_entry, adapter_paused (status_event ctx slot))

unfoldable pub unpause_adapter :
    GovernAdapter → ℕ → Result RegistryError (AdapterEntry × RegistryEvent)
unpause_adapter ctx slot = do
  let adapter_entry = ctx.adapter_entry.state
  require (status_eq adapter_entry.status paused) invalid_status_transition
  ok (with_status approved slot adapter_entry, adapter_unpaused (status_event ctx slot))

unfoldable pub deprecate_adapter :
    GovernAdapter → ℕ → Result RegistryError (AdapterEntry × RegistryEvent)
deprecate_adapter ctx slot = do
  let adapter_entry = ctx.adapter_entry.state
  require (not (status_eq adapter_entry.status deprecated)) invalid_status_transition
  ok (with_status deprecated slot adapter_entry, adapter_deprecated (status_event ctx slot))

unfoldable pub update_adapter_metadata :
    GovernAdapter → Text → ℕ → Result RegistryError (AdapterEntry × RegistryEvent)
update_adapter_metadata ctx metadata_uri slot = do
  validate_metadata_uri metadata_uri
  let adapter_entry = ctx.adapter_entry.state
  ok (
    record adapter_entry { metadata_uri = metadata_uri; updated_slot = slot },
    adapter_metadata_updated ctx.governance_authority.key ctx.adapter_entry.key
        adapter_entry.adapter_program_id adapter_entry.adapter_version adapter_entry.supported_mint
        adapter_entry.metadata_uri metadata_uri slot,
  )

unfoldable pub transfer_governance :
    TransferGovernance → Pubkey → Result RegistryError (RegistryConfig × RegistryEvent)
transfer_governance ctx new_governance_authority = do
  require (not (new_governance_authority == default_pubkey)) invalid_governance_authority
  let registry_config = ctx.registry_config.state
  ok (
    record registry_config { governance_authority = new_governance_authority },
    governance_transferred registry_config.governance_authority new_governance_authority
        ctx.registry_config.key,
  )
