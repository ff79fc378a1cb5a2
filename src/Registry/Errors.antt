-- ===== src/Registry/Errors.antt =====
-- How the registry refuses: the error of each action that the diagram does not allow, and of a
-- signer that is not the governance authority.
use sol_yield.Base.{ℕ, ◌≡◌, ◌≢◌, refl, true, some, arith, if◌then◌else◌, [], ◌∷◌, ◌++◌, sym}
use mathlib.Core.Path.{subst}
use sol_yield.Base.Result.{ok, err, custom}
use sol_yield.Base.Text.{is_blank, is_empty-trim}
use sol_yield.Base.Store.{Store, fetch}
use sol_yield.Solana.Account.{AccountRef}
use sol_yield.Solana.Pda.{Pda}
use sol_yield.Registry.Types.{
  AdapterEntry, AdapterStatus, pending, approved, paused, deprecated, RegistryError, RegistryConfig,
  invalid_status_transition, empty_metadata_uri, metadata_uri_too_long, unauthorized_governance,
  RegistryEvent, registry_config_seeds, registry_id, adapter_unpaused,
}
use sol_yield.Registry.Validate.{validate_metadata_uri, validate_metadata_uri_iff}
use sol_yield.Registry.Handlers.{GovernAdapter, status_event}
use sol_yield.Registry.Program.{
  AccountState, config, entry, GovernAction, approve, pause, unpause, deprecate, update_metadata,
  run_action, process, Request, govern,
}
use sol_yield.Registry.Spec.{Transition, approval, pausing, unpausing, deprecating, describing}

-- The error of an action that is not allowed.
abbrev pub refusal : GovernAction → RegistryError
refusal (update_metadata uri) = if is_blank uri then empty_metadata_uri else metadata_uri_too_long
refusal _ = invalid_status_transition

-- Where an edge leaves `source`, a status without that edge is another one.
edge_from :
    (action : GovernAction) (goal status source : AdapterStatus)
    → ¬ Transition action status goal
    → Transition action source goal
    → status ≢ source
edge_from action goal status source none_here edge same =
    none_here (subst (λ x. Transition action x goal) (sym same) edge)

-- An action that no edge of the diagram allows from the entry's status is refused, with
-- InvalidStatusTransition, or for new metadata with EmptyMetadataUri or MetadataUriTooLong.
pub run_action_refused :
    (action : GovernAction) (ctx : GovernAdapter) (slot : ℕ)
    → ((status : AdapterStatus) → ¬ Transition action ctx.adapter_entry.state.status status)
    → run_action action ctx slot ≡ err (custom (refusal action))
unfolding run_action validate_metadata_uri
run_action_refused approve ctx slot h =
    ground (
      arith,
      edge_from approve approved ctx.adapter_entry.state.status pending (h approved) approval,
    )
run_action_refused pause ctx slot h =
    ground
      (arith, edge_from pause paused ctx.adapter_entry.state.status approved (h paused) pausing)
run_action_refused unpause ctx slot h =
    ground (
      arith,
      edge_from unpause approved ctx.adapter_entry.state.status paused (h approved) unpausing,
    )
run_action_refused deprecate ctx slot h =
    ground (
      arith,
      λ (live : ctx.adapter_entry.state.status ≢ deprecated). h deprecated (deprecating live),
    )
run_action_refused (update_metadata uri) ctx slot h = ground (
  arith,
  is_empty-trim uri,
  λ (passed : validate_metadata_uri uri ≡ ok tt).
      h ctx.adapter_entry.state.status (describing ((validate_metadata_uri_iff uri).0 passed)),
)

-- Pausing an approved adapter and lifting the pause leaves the entry as it was, but for the
-- slot of its update.
pause-unpause :
    (ctx ctx' : GovernAdapter) (slot slot' : ℕ) {e : AdapterEntry} {ev : RegistryEvent}
    → run_action pause ctx slot ≡ ok (e, ev)
    → ctx'.adapter_entry.state ≡ e
    → (e' : AdapterEntry) × (ev' : RegistryEvent) × (run_action unpause ctx' slot' ≡ ok (e', ev'))
      × (e' ≡ (let original = ctx.adapter_entry.state in record original { updated_slot = slot' }))
unfolding run_action
pause-unpause ctx ctx' slot slot' h e =
    let original = ctx.adapter_entry.state in
    (
      record original { updated_slot = slot' },
      adapter_unpaused (status_event ctx' slot'),
      ground arith,
      refl,
    )

-- A signer other than the governance authority of the config that it passes is refused, whatever
-- the action on the entry is.
govern_unauthorized :
    (pda : Pda) (r : Request) (s : Store AccountState) (c : RegistryConfig) (e : AdapterEntry)
    (entry_ref : AccountRef) (action : GovernAction)
    → r.call ≡ govern entry_ref action
    → fetch r.registry_config.key s ≡ some (config c)
    → fetch entry_ref.key s ≡ some (entry e)
    → r.governance_authority.is_signer ≡ true
    → pda.create_program_address (registry_config_seeds ++ ((c.bump ∷ []) ∷ [])) registry_id
      ≡ some r.registry_config.key
    → r.governance_authority.key ≢ c.governance_authority
    → process pda r s ≡ err (custom unauthorized_governance)
unfolding process
govern_unauthorized pda r s c e entry_ref action call loaded found signed placed other =
    ground arith
