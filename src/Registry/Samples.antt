-- ===== src/Registry/Samples.antt =====
-- Concrete accounts of the registry, and runs of the program on them.
use sol_yield.Base.{ℕ, ◌≡◌, refl, true, some, [], ◌∷◌, arith}
use sol_yield.Base.Bytes.{to_le_bytes}
use sol_yield.Base.Result.{Result, ok}
use sol_yield.Base.Store.{Store, fetch, put}
use sol_yield.Base.Text.{byte_string, trim, is_whitespace, as_bytes}
use sol_yield.Solana.Account.{AccountRef, Signer}
use sol_yield.Solana.Example.{example_pda, digest}
use sol_yield.Registry.Types.{
  registry_id, registry_config_seeds, adapter_entry_seeds, RegistryConfig, AdapterEntry,
  AdapterStatus, RegistryError, pending, approved, paused, deprecated, RegistryEvent,
}
use sol_yield.Registry.Handlers.{Proposal}
use sol_yield.Registry.Program.{
  AccountState, config, entry, approve, pause, deprecate, Call, initialize, propose, govern,
  transfer, Request, process,
}
use sol_yield.Registry.Validate.{validate_adapter_inputs}
use sol_yield.Registry.Invariant.{Reachable, fresh, after}

abbrev pub governor : Signer
governor = record { key = 77; is_signer = true; is_writable = true }

abbrev pub config_ref : AccountRef
config_ref = record {
  key = (example_pda.find_program_address registry_config_seeds registry_id).0;
  is_writable = true;
}

abbrev pub entry_ref : AccountRef
entry_ref = record {
  key = (example_pda.find_program_address (adapter_entry_seeds 5 6 1) registry_id).0;
  is_writable = true;
}

abbrev pub maple : Proposal
maple = record {
  adapter_program_id = 5;
  protocol_name = byte_string "Maple";
  adapter_version = 1;
  supported_mint = 6;
  metadata_uri = byte_string "https://maple.example";
}

abbrev pub request : ℕ → Call → Request
request slot call = record {
  slot = slot;
  governance_authority = governor;
  registry_config = config_ref;
  call = call;
}

-- The config before and after the proposal, and the entry that it creates.
abbrev pub config_record : ℕ → RegistryConfig
config_record n = record { governance_authority = 77; adapter_count = n; bump = 255 }

abbrev pub config_of : ℕ → AccountState
config_of n = config (config_record n)

abbrev pub entry_record : AdapterStatus → ℕ → AdapterEntry
entry_record status slot = record {
  adapter_program_id = 5;
  protocol_name = byte_string "Maple";
  adapter_version = 1;
  supported_mint = 6;
  status = status;
  metadata_uri = byte_string "https://maple.example";
  created_slot = 11;
  updated_slot = slot;
  bump = 255;
}

abbrev pub entry_of : AdapterStatus → ℕ → AccountState
entry_of status slot = entry (entry_record status slot)

abbrev pub created : Store AccountState
created = (config_ref.key, config_of 0) ∷ []

abbrev pub holding : AdapterStatus → ℕ → Store AccountState
holding status slot = (config_ref.key, config_of 1) ∷ (entry_ref.key, entry_of status slot) ∷ []

-- Names on one line all that a run computes with.
unfoldable pub run :
    Request → Store AccountState → Result RegistryError (Store AccountState × RegistryEvent)
unfolding process validate_adapter_inputs trim is_whitespace as_bytes to_le_bytes digest fetch put
run r s = process example_pda r s

abbrev pub Runs : Request → Store AccountState → Store AccountState → Type 0
Runs r s s' = (ev : RegistryEvent) × (process example_pda r s ≡ ok (s', ev))

abbrev pub approve_request : Request
approve_request = request 12 (govern entry_ref approve)

abbrev pub pause_request : Request
pause_request = request 13 (govern entry_ref pause)

abbrev pub transfer_request : Request
transfer_request = request 14 (transfer 88)

pub runs_initialize : Runs (request 10 initialize) [] created
unfolding run
runs_initialize = (_, refl)

pub runs_propose : Runs (request 11 (propose entry_ref maple)) created (holding pending 11)
unfolding run
runs_propose = (_, refl)

pub runs_approve : Runs approve_request (holding pending 11) (holding approved 12)
unfolding run
runs_approve = (_, refl)

pub runs_pause : Runs pause_request (holding approved 12) (holding paused 13)
unfolding run
runs_pause = (_, refl)

pub reached_pending : Reachable example_pda 11 (holding pending 11)
reached_pending =
    after (request 11 (propose entry_ref maple))
      (after (request 10 initialize) fresh (omega arith) runs_initialize.1) (omega arith)
      runs_propose.1

pub reached : Reachable example_pda 12 (holding approved 12)
reached = after approve_request reached_pending (omega arith) runs_approve.1

pub holding_entry : fetch entry_ref.key (holding approved 12) ≡ some (entry_of approved 12)
unfolding run
holding_entry = refl

pub pending_entry : fetch entry_ref.key (holding pending 11) ≡ some (entry_of pending 11)
unfolding run
pending_entry = refl

pub holding_config : fetch config_ref.key (holding approved 12) ≡ some (config_of 1)
unfolding run
holding_config = refl

pub runs_transfer : Runs transfer_request (holding approved 12) (
    (config_ref.key, config (record { governance_authority = 88; adapter_count = 1; bump = 255 }))
    ∷ (entry_ref.key, entry_of approved 12)
    ∷ [])
unfolding run
runs_transfer = (_, refl)

pub runs_deprecate :
    Runs (request 14 (govern entry_ref deprecate)) (holding paused 13) (holding deprecated 14)
unfolding run
runs_deprecate = (_, refl)

pub reached_deprecated : Reachable example_pda 14 (holding deprecated 14)
reached_deprecated =
    after (request 14 (govern entry_ref deprecate))
      (after pause_request reached (omega arith) runs_pause.1) (omega arith) runs_deprecate.1

pub deprecated_entry : fetch entry_ref.key (holding deprecated 14) ≡ some (entry_of deprecated 14)
unfolding run
deprecated_entry = refl
