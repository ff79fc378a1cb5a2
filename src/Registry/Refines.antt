-- ===== src/Registry/Refines.antt =====
-- The registry's code against its specification: what `process` accepts is a step, and each step
-- is accepted.
use sol_yield.Base.{ℕ, ◌+◌, ◌≡◌, ◌≢◌, refl, true, none, some, arith}
use sol_yield.Base.Result.{ok}
use sol_yield.Base.Store.{Store, fetch, put}
use sol_yield.Solana.Account.{default_pubkey, Pubkey, AccountRef}
use sol_yield.Solana.Pda.{Pda}
use sol_yield.Base.Word.{IsU64}
use sol_yield.Registry.Types.{AdapterEntry, RegistryEvent, RegistryConfig}
use sol_yield.Registry.Validate.{
  validate_adapter_inputs_iff, validate_adapter_inputs, validate_metadata_uri_iff,
}
use sol_yield.Registry.Handlers.{GovernAdapter, Proposal}
use sol_yield.Registry.Program.{
  AccountState, config, entry, GovernAction, approve, pause, unpause, deprecate, update_metadata,
  Call, initialize, propose, govern, transfer, Request, run_action, process, run_govern,
  run_transfer, run_initialize, run_propose, dispatch_call,
}
use sol_yield.Registry.Spec.{
  Transition, approval, pausing, unpausing, deprecating, describing, updated, Step, initialized,
  proposed, governed, transferred, Authorised, AtAddress, initial_config, with_proposal,
  entry_address, config_address,
}

-- What an accepted action does to the entry.
pub run_action_sound :
    (action : GovernAction) (ctx : GovernAdapter) (slot : ℕ) {e' : AdapterEntry}
    {ev : RegistryEvent}
    → run_action action ctx slot ≡ ok (e', ev)
    → Transition action ctx.adapter_entry.state.status e'.status
      × (e' ≡ updated action e'.status slot ctx.adapter_entry.state)
unfolding run_action
run_action_sound approve ctx slot h = grind (arith, approval)
run_action_sound pause ctx slot h = grind (arith, pausing)
run_action_sound unpause ctx slot h = grind (arith, unpausing)
run_action_sound deprecate ctx slot h = grind (arith, deprecating)
run_action_sound (update_metadata uri) ctx slot h =
    grind (arith, describing, validate_metadata_uri_iff uri)

module _ (pda : Pda) (r : Request) (s : Store AccountState) where
  -- The accounts that `run_govern` hands to the handler.
  abbrev pub govern_context : AccountRef → RegistryConfig → AdapterEntry → GovernAdapter
  govern_context entry_ref c e = record {
    registry_config = record {
      key = r.registry_config.key;
      is_writable = r.registry_config.is_writable;
      state = c;
    };
    adapter_entry = record { key = entry_ref.key; is_writable = entry_ref.is_writable; state = e };
    governance_authority = r.governance_authority;
  }

  run_govern_inverse :
      (entry_ref : AccountRef) (action : GovernAction) {s' : Store AccountState}
      {ev : RegistryEvent}
      → run_govern pda r.slot r.governance_authority r.registry_config s entry_ref action
        ≡ ok (s', ev)
      → (c : RegistryConfig) × (e : AdapterEntry) × (e' : AdapterEntry) × (fetch entry_ref.key s
          ≡ some (entry e))
        × (run_action action (govern_context entry_ref c e) r.slot ≡ ok (e', ev))
        × (s' ≡ put entry_ref.key (entry e') s)
        × (entry_ref.is_writable ≡ true)
        × AtAddress pda e entry_ref.key
        × Authorised pda r s c
  unfolding run_govern
  run_govern_inverse entry_ref action h = ground arith

  run_govern_sound :
      (entry_ref : AccountRef) (action : GovernAction) {s' : Store AccountState}
      {ev : RegistryEvent}
      → r.call ≡ govern entry_ref action
      → run_govern pda r.slot r.governance_authority r.registry_config s entry_ref action
        ≡ ok (s', ev)
      → Step pda r s s'
  run_govern_sound entry_ref action call h =
      let (c, e, e', loaded, ran, stored, writable, placed, authorised) =
        run_govern_inverse entry_ref action h in
      let (moved, same) = run_action_sound action (govern_context entry_ref c e) r.slot ran in
      rw (stored, same)
        (governed c e entry_ref action e'.status call authorised writable loaded placed moved)

  run_transfer_sound :
      (new_authority : Pubkey) {s' : Store AccountState} {ev : RegistryEvent}
      → r.call ≡ transfer new_authority
      → run_transfer pda r.slot r.governance_authority r.registry_config s new_authority
        ≡ ok (s', ev)
      → Step pda r s s'
  unfolding run_transfer
  run_transfer_sound new_authority {s'} call h =
      let found : (c : RegistryConfig) × (s'
            ≡ put r.registry_config.key (config (record c { governance_authority = new_authority }))
                s)
          × (r.registry_config.is_writable ≡ true)
          × (new_authority ≢ default_pubkey)
          × Authorised pda r s c =
        ground arith in
      rw found.1 (transferred found.0 new_authority call found.4 found.2 found.3)

  run_initialize_sound :
      {s' : Store AccountState} {ev : RegistryEvent}
      → r.call ≡ initialize
      → run_initialize pda r.slot r.governance_authority r.registry_config s ≡ ok (s', ev)
      → Step pda r s s'
  unfolding run_initialize
  run_initialize_sound {s'} call h =
      let found : (s'
            ≡ put r.registry_config.key (config (initial_config pda r.governance_authority.key)) s)
          × (r.governance_authority.is_signer ≡ true)
          × (r.governance_authority.is_writable ≡ true)
          × (r.registry_config.is_writable ≡ true)
          × (fetch r.registry_config.key s ≡ none)
          × ((config_address pda).0 ≡ r.registry_config.key) =
        ground arith in
      rw found.0 (initialized call found.1 found.2 found.3 found.4 found.5)

  run_propose_sound :
      (entry_ref : AccountRef) (p : Proposal) {s' : Store AccountState} {ev : RegistryEvent}
      → r.call ≡ propose entry_ref p
      → run_propose pda r.slot r.governance_authority r.registry_config s entry_ref p ≡ ok (s', ev)
      → Step pda r s s'
  unfolding run_propose
  run_propose_sound entry_ref p {s'} call h =
      let found : (c : RegistryConfig) × (s' ≡ with_proposal pda r s c entry_ref p)
          × (r.governance_authority.is_writable ≡ true)
          × (r.registry_config.is_writable ≡ true)
          × (entry_ref.is_writable ≡ true)
          × (fetch entry_ref.key s ≡ none)
          × ((entry_address pda p.adapter_program_id p.supported_mint p.adapter_version).0
              ≡ entry_ref.key)
          × (validate_adapter_inputs p.adapter_program_id p.protocol_name p.supported_mint
                p.metadata_uri
              ≡ ok tt)
          × IsU64 (c.adapter_count + 1)
          × Authorised pda r s c =
        ground arith in
      rw found.1 (
        proposed found.0 entry_ref p call found.9 found.2 found.3 found.4 found.5 found.6
          ((validate_adapter_inputs_iff _ _ _ _).0 found.7) found.8)

  dispatch_call_sound :
      (call : Call) {s' : Store AccountState} {ev : RegistryEvent}
      → r.call ≡ call
      → dispatch_call pda r.slot r.governance_authority r.registry_config s call ≡ ok (s', ev)
      → Step pda r s s'
  unfolding dispatch_call
  dispatch_call_sound initialize e h = run_initialize_sound e h
  dispatch_call_sound (propose entry_ref p) e h = run_propose_sound entry_ref p e h
  dispatch_call_sound (govern entry_ref action) e h = run_govern_sound entry_ref action e h
  dispatch_call_sound (transfer new_authority) e h = run_transfer_sound new_authority e h

-- Whatever the program accepts is a step of the specification.
pub process_sound :
    (pda : Pda) (r : Request) (s : Store AccountState) {s' : Store AccountState}
    {ev : RegistryEvent}
    → process pda r s ≡ ok (s', ev)
    → Step pda r s s'
unfolding process
process_sound pda r s h = dispatch_call_sound pda r s r.call refl h
