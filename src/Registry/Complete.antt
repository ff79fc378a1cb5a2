-- ===== src/Registry/Complete.antt =====
-- Every step of the registry's specification is accepted by its code.
use sol_yield.Base.{ℕ, ◌≡◌, ◌↔◌, refl, arith}
use sol_yield.Base.Result.{ok}
use sol_yield.Base.Store.{Store}
use sol_yield.Solana.Pda.{Pda}
use sol_yield.Registry.Types.{
  AdapterStatus, RegistryEvent, adapter_approved, adapter_paused, adapter_unpaused,
  adapter_deprecated, adapter_metadata_updated, registry_initialized, adapter_proposed,
  governance_transferred,
}
use sol_yield.Registry.Validate.{validate_adapter_inputs_iff, validate_metadata_uri_iff}
use sol_yield.Registry.Handlers.{GovernAdapter, status_event}
use sol_yield.Registry.Program.{
  AccountState, GovernAction, approve, pause, unpause, deprecate, update_metadata, Request,
  run_action, process,
}
use sol_yield.Registry.Spec.{
  Transition, approval, pausing, unpausing, deprecating, describing, updated, Step, initialized,
  proposed, governed, transferred, config_address,
}
use sol_yield.Registry.Refines.{govern_context, process_sound}

-- The event that an action emits.
abbrev pub action_event : GovernAction → GovernAdapter → ℕ → RegistryEvent
action_event approve ctx slot = adapter_approved (status_event ctx slot)
action_event pause ctx slot = adapter_paused (status_event ctx slot)
action_event unpause ctx slot = adapter_unpaused (status_event ctx slot)
action_event deprecate ctx slot = adapter_deprecated (status_event ctx slot)
action_event (update_metadata uri) ctx slot =
    adapter_metadata_updated ctx.governance_authority.key ctx.adapter_entry.key
      ctx.adapter_entry.state.adapter_program_id ctx.adapter_entry.state.adapter_version
      ctx.adapter_entry.state.supported_mint ctx.adapter_entry.state.metadata_uri uri slot

-- An action that the diagram allows is accepted; it leaves the updated entry and emits its event.
run_action_complete :
    (action : GovernAction) (ctx : GovernAdapter) (slot : ℕ) (current status : AdapterStatus)
    → ctx.adapter_entry.state.status ≡ current
    → Transition action current status
    → run_action action ctx slot
      ≡ ok (updated action status slot ctx.adapter_entry.state, action_event action ctx slot)
unfolding run_action
run_action_complete action ctx slot current status e approval = ground arith
run_action_complete action ctx slot current status e pausing = ground arith
run_action_complete action ctx slot current status e unpausing = ground arith
run_action_complete action ctx slot current status e (deprecating live) = ground arith
run_action_complete action ctx slot current status e (describing {uri = uri} fits) =
    ground (arith, (validate_metadata_uri_iff uri).1 fits)

pub process_complete :
    (pda : Pda) (r : Request) (s : Store AccountState) {s' : Store AccountState}
    → Step pda r s s'
    → (ev : RegistryEvent) × (process pda r s ≡ ok (s', ev))
unfolding process
process_complete pda r s (initialized call signed payer writable absent placed) = (
  registry_initialized r.governance_authority.key r.registry_config.key (config_address pda).1,
  ground arith,
)
process_complete pda r s
      (proposed c entry_ref p call authorised payer config_writable writable absent placed good
        room) =
    (
      adapter_proposed r.governance_authority.key entry_ref.key p.adapter_program_id p.protocol_name
          p.adapter_version p.supported_mint p.metadata_uri r.slot,
      ground (
        arith,
        (validate_adapter_inputs_iff p.adapter_program_id p.protocol_name p.supported_mint
              p.metadata_uri).1
            good,
      ),
    )
process_complete pda r s
      (governed c e entry_ref action status call authorised writable loaded placed moved) =
    (
      action_event action (govern_context pda r s entry_ref c e) r.slot,
      ground (
        arith,
        run_action_complete action (govern_context pda r s entry_ref c e) r.slot e.status status
            refl moved,
      ),
    )
process_complete pda r s (transferred c new_authority call authorised writable known) = (
  governance_transferred c.governance_authority new_authority r.registry_config.key,
  ground arith,
)

-- The registry program accepts a request and leaves these accounts exactly when the specification
-- has that step.
pub process_iff :
    (pda : Pda) (r : Request) (s s' : Store AccountState)
    → ((ev : RegistryEvent) × (process pda r s ≡ ok (s', ev))) ↔ Step pda r s s'
process_iff pda r s s' =
    (λ accepted. process_sound pda r s accepted.1, λ step. process_complete pda r s step)
