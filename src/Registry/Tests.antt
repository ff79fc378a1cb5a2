-- ===== src/Registry/Tests.antt =====
-- Each theorem about the registry at an input that meets its hypotheses.
use sol_yield.Base.{◌↔◌, ◌≡◌, ◌≢◌, refl, true, some, [], ◌∷◌, arith}
use sol_yield.Base.Result.{ok, err, custom}
use sol_yield.Base.Store.{fetch}
use sol_yield.Solana.Example.{example_pda}
use sol_yield.Registry.Types.{
  RegistryConfig, AdapterStatus, invalid_status_transition, pending, approved, paused,
}
use sol_yield.Registry.Handlers.{GovernAdapter}
use sol_yield.Registry.Program.{config, approve, propose, process, run_action}
use sol_yield.Registry.Spec.{Step, Transition, approval, config_address}
use sol_yield.Registry.Complete.{process_iff}
use sol_yield.Registry.Invariant.{IsValid, Reachable-IsValid}
use sol_yield.Registry.Lifecycle.{Follows, process-Follows, here, then, Lasts, Run-Lasts}
use sol_yield.Registry.Authority.{
  SignedBy, process-SignedBy, transfer-locks_out, propose-no_duplicate, process-ConfigFollows,
}
use sol_yield.Registry.Errors.{run_action_refused}
use sol_yield.Registry.Samples.{
  governor, config_ref, entry_ref, maple, request, config_record, entry_record, entry_of, holding,
  Runs, approve_request, pause_request, transfer_request, runs_approve, runs_pause, reached,
  holding_entry, pending_entry, holding_config, runs_transfer,
}

Reachable-IsValid_example : IsValid example_pda 12 (holding approved 12)
Reachable-IsValid_example = Reachable-IsValid example_pda reached

process_iff_example :
    Runs approve_request (holding pending 11) (holding approved 12)
    ↔ Step example_pda approve_request (holding pending 11) (holding approved 12)
process_iff_example =
    process_iff example_pda approve_request (holding pending 11) (holding approved 12)

process-Follows_example :
    Follows approve_request entry_ref.key (entry_record pending 11) (holding approved 12)
process-Follows_example =
    process-Follows example_pda approve_request (holding pending 11) entry_ref.key
      (entry_record pending 11) runs_approve.1 pending_entry

Run-Lasts_example : Lasts entry_ref.key (entry_record pending 11) (holding paused 13)
Run-Lasts_example =
    Run-Lasts example_pda entry_ref.key (entry_record pending 11)
      (then pause_request (then approve_request here runs_approve.1) runs_pause.1) pending_entry

process-SignedBy_example : SignedBy 77 pause_request
process-SignedBy_example =
    process-SignedBy example_pda 12 pause_request (holding approved 12) (config_record 1)
      (Reachable-IsValid example_pda reached) holding_config runs_pause.1

process-ConfigFollows_example :
    (c' : RegistryConfig) × (fetch (config_address example_pda).0 (holding paused 13)
      ≡ some (config c'))
    × (c' ≡ config_record 1)
process-ConfigFollows_example =
    process-ConfigFollows example_pda 12 pause_request (holding approved 12) (config_record 1)
      (Reachable-IsValid example_pda reached) holding_config runs_pause.1

transfer-locks_out_example :
    process example_pda pause_request (
      (config_ref.key, config (record { governance_authority = 88; adapter_count = 1; bump = 255 }))
      ∷ (entry_ref.key, entry_of approved 12)
      ∷ [])
    ≢ ok (holding paused 13, runs_pause.0)
transfer-locks_out_example =
    transfer-locks_out example_pda 12 transfer_request pause_request (holding approved 12) 88
      (Reachable-IsValid example_pda reached) (omega arith) refl runs_transfer.1 (omega arith)

propose-no_duplicate_example :
    process example_pda (request 15 (propose entry_ref maple)) (holding approved 12)
    ≢ ok (holding pending 15, runs_pause.0)
propose-no_duplicate_example =
    propose-no_duplicate example_pda 12 (request 15 (propose entry_ref maple)) (holding approved 12)
      entry_ref.key (entry_record approved 12) entry_ref maple
      (Reachable-IsValid example_pda reached) holding_entry refl (refl, refl, refl)

abbrev context : AdapterStatus → GovernAdapter
context status = record {
  registry_config = record { key = config_ref.key; is_writable = true; state = config_record 1 };
  adapter_entry = record {
    key = entry_ref.key;
    is_writable = true;
    state = entry_record status 12;
  };
  governance_authority = governor;
}

only_pending_approved :
    (source goal : AdapterStatus) → source ≡ paused → Transition approve source goal → ⊥
only_pending_approved source goal e approval = cc

no_approval : (status : AdapterStatus) → ¬ Transition approve paused status
no_approval status t = only_pending_approved paused status refl t

run_action_refused_example :
    run_action approve (context paused) 20 ≡ err (custom invalid_status_transition)
run_action_refused_example = run_action_refused approve (context paused) 20 no_approval
