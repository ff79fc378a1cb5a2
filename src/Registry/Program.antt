-- ===== src/Registry/Program.antt =====
-- The registry program as it is called (programs/registry/src/lib.rs): the accounts that it
-- owns, the checks of each `#[derive(Accounts)]` struct, and the handlers run behind them. An
-- instruction that fails leaves the accounts as they were, so a failure carries no accounts.
use sol_yield.Base.{ℕ, Bool, true, false, ◌==◌, Option, none, some}
use sol_yield.Base.Result.{
  Result, ok, err, anchor, account_not_initialized, account_already_in_use, constrain, require,
  ◌>>=◌, ◌>>◌,
}
use sol_yield.Base.Text.{Text}
use sol_yield.Base.Store.{Store, fetch, put}
use sol_yield.Solana.Account.{Pubkey, Signer, Account, AccountRef}
use sol_yield.Solana.Pda.{Pda, constrain_seeds, constrain_init, constrain_mut, constrain_signer}
use sol_yield.Registry.Types.{
  registry_id, registry_config_seeds, adapter_entry_seeds, RegistryConfig, AdapterEntry,
  RegistryError, RegistryEvent, unauthorized_governance,
}
use sol_yield.Registry.Handlers.{
  GovernAdapter, TransferGovernance, Proposal, initialize_registry, propose_adapter,
  approve_adapter, pause_adapter, unpause_adapter, deprecate_adapter, update_adapter_metadata,
  transfer_governance,
}

-- What an account of the program holds; its discriminator tells the two apart.
pub data AccountState : Type 0 where
  config : RegistryConfig → AccountState
  entry : AdapterEntry → AccountState

-- The instructions over one existing entry.
pub data GovernAction : Type 0 where
  approve pause unpause deprecate : GovernAction
  update_metadata : Text → GovernAction

pub data Call : Type 0 where
  initialize : Call
  propose : AccountRef → Proposal → Call
  govern : AccountRef → GovernAction → Call
  transfer : Pubkey → Call

-- An instruction with what is common to all: the slot, the signer and the config account.
pub record Request : Type 0 where
  pub slot : ℕ
  pub governance_authority : Signer
  pub registry_config : AccountRef
  pub call : Call

abbrev as_config : Option AccountState → Result RegistryError RegistryConfig
as_config (some (config c)) = ok c
as_config _ = err (anchor account_not_initialized)

abbrev as_entry : Option AccountState → Result RegistryError AdapterEntry
as_entry (some (entry e)) = ok e
as_entry _ = err (anchor account_not_initialized)

abbrev is_absent : Option AccountState → Bool
is_absent none = true
is_absent (some _) = false

-- The handler of an instruction over one entry.
unfoldable pub run_action :
    GovernAction → GovernAdapter → ℕ → Result RegistryError (AdapterEntry × RegistryEvent)
unfolding approve_adapter pause_adapter unpause_adapter deprecate_adapter update_adapter_metadata
run_action approve ctx slot = approve_adapter ctx slot
run_action pause ctx slot = pause_adapter ctx slot
run_action unpause ctx slot = unpause_adapter ctx slot
run_action deprecate ctx slot = deprecate_adapter ctx slot
run_action (update_metadata uri) ctx slot = update_adapter_metadata ctx uri slot

module _ (pda : Pda) where
  -- `seeds`, `bump` and `has_one` on `registry_config`, for the instructions that read it
  unfoldable pub check_config : Account RegistryConfig → Signer → Result RegistryError (Unit {0})
  unfolding constrain_seeds
  check_config c authority = do
    constrain_seeds pda registry_config_seeds c.state.bump registry_id c.key
    require (c.state.governance_authority == authority.key) unauthorized_governance

  -- the same where `registry_config` is `mut`, which is checked between the two
  unfoldable pub check_written_config :
      Account RegistryConfig → Signer → Result RegistryError (Unit {0})
  unfolding constrain_seeds
  check_written_config c authority = do
    constrain_seeds pda registry_config_seeds c.state.bump registry_id c.key
    constrain_mut c.is_writable
    require (c.state.governance_authority == authority.key) unauthorized_governance

  unfoldable pub check_entry : Account AdapterEntry → Result RegistryError (Unit {0})
  unfolding constrain_seeds
  check_entry e =
      constrain_seeds pda
        (adapter_entry_seeds e.state.adapter_program_id e.state.supported_mint
          e.state.adapter_version)
        e.state.bump registry_id e.key

  module _ (slot : ℕ) (authority : Signer) (config_ref : AccountRef) (s : Store AccountState) where
    unfoldable pub run_initialize : Result RegistryError (Store AccountState × RegistryEvent)
    unfolding constrain_init initialize_registry fetch put
    run_initialize = do
      constrain_signer authority
      constrain_init pda registry_config_seeds registry_id config_ref.key
      constrain (is_absent (fetch config_ref.key s)) account_already_in_use
      constrain_mut config_ref.is_writable
      constrain_mut authority.is_writable
      (c, event) ← initialize_registry (record {
        registry_config = config_ref;
        registry_config_bump = (pda.find_program_address registry_config_seeds registry_id).1;
        governance_authority = authority;
      })
      ok (put config_ref.key (config c) s, event)

    unfoldable pub run_propose :
        AccountRef → Proposal → Result RegistryError (Store AccountState × RegistryEvent)
    unfolding check_written_config constrain_init propose_adapter
    run_propose entry_ref p = do
      c ← as_config (fetch config_ref.key s)
      constrain_signer authority
      let seeds = adapter_entry_seeds p.adapter_program_id p.supported_mint p.adapter_version
      constrain_init pda seeds registry_id entry_ref.key
      constrain (is_absent (fetch entry_ref.key s)) account_already_in_use
      constrain_mut entry_ref.is_writable
      let config_account =
          let a : Account RegistryConfig = record {
            key = config_ref.key;
            is_writable = config_ref.is_writable;
            state = c;
          } in
          a
      check_written_config config_account authority
      constrain_mut authority.is_writable
      (c', e, event) ←
          propose_adapter
            (record {
              registry_config = config_account;
              adapter_entry = entry_ref;
              adapter_entry_bump = (pda.find_program_address seeds registry_id).1;
              governance_authority = authority;
            })
            p slot
      ok (put entry_ref.key (entry e) (put config_ref.key (config c') s), event)

    unfoldable pub run_govern :
        AccountRef → GovernAction → Result RegistryError (Store AccountState × RegistryEvent)
    unfolding check_config check_entry run_action
    run_govern entry_ref action = do
      c ← as_config (fetch config_ref.key s)
      e ← as_entry (fetch entry_ref.key s)
      constrain_signer authority
      let ctx =
          let a : GovernAdapter = record {
            registry_config = record {
              key = config_ref.key;
              is_writable = config_ref.is_writable;
              state = c;
            };
            adapter_entry = record {
              key = entry_ref.key;
              is_writable = entry_ref.is_writable;
              state = e;
            };
            governance_authority = authority;
          } in
          a
      check_config ctx.registry_config authority
      check_entry ctx.adapter_entry
      constrain_mut entry_ref.is_writable
      (e', event) ← run_action action ctx slot
      ok (put entry_ref.key (entry e') s, event)

    unfoldable pub run_transfer : Pubkey → Result RegistryError (Store AccountState × RegistryEvent)
    unfolding check_written_config transfer_governance
    run_transfer new_governance_authority = do
      c ← as_config (fetch config_ref.key s)
      constrain_signer authority
      let ctx =
          let a : TransferGovernance = record {
            registry_config = record {
              key = config_ref.key;
              is_writable = config_ref.is_writable;
              state = c;
            };
            governance_authority = authority;
          } in
          a
      check_written_config ctx.registry_config authority
      (c', event) ← transfer_governance ctx new_governance_authority
      ok (put config_ref.key (config c') s, event)

    unfoldable pub dispatch_call : Call → Result RegistryError (Store AccountState × RegistryEvent)
    unfolding run_initialize run_propose run_govern run_transfer
    dispatch_call initialize = run_initialize
    dispatch_call (propose entry_ref p) = run_propose entry_ref p
    dispatch_call (govern entry_ref action) = run_govern entry_ref action
    dispatch_call (transfer new_authority) = run_transfer new_authority

  -- One instruction of the program, against the accounts that it owns.
  unfoldable pub process :
      Request → Store AccountState → Result RegistryError (Store AccountState × RegistryEvent)
  unfolding dispatch_call
  process r s = dispatch_call r.slot r.governance_authority r.registry_config s r.call
