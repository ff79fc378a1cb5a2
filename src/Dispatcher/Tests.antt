-- ===== src/Dispatcher/Tests.antt =====
-- Each theorem about the dispatcher at an input that meets its hypotheses.
use sol_yield.Base.{ℕ, ◌≡◌, ◌<◌, ◌↔◌, refl, true, false, some, List, [], ◌∷◌, arith, Bool}
use sol_yield.Base.Bytes.{to_le_bytes}
use sol_yield.Base.Result.{ok, err, custom}
use sol_yield.Base.Store.{fetch}
use sol_yield.Solana.Account.{Pubkey, AccountInfo}
use sol_yield.Solana.Example.{example_pda}
use sol_yield.Registry.Types.{AdapterEntry, approved, paused, deprecated}
use sol_yield.Registry.Program.{entry}
use sol_yield.Registry.Lifecycle.{here}
use sol_yield.Registry.Samples.{
  entry_ref, entry_record, holding, reached, runs_pause, pause_request, holding_entry, run,
  reached_deprecated, deprecated_entry,
}
use sol_yield.Dispatcher.Types.{
  Runtime, Route, deposit_ix_discriminator, withdraw_ix_discriminator,
  current_value_ix_discriminator, deposit_routed, withdraw_routed, current_value_queried,
  DispatcherEvent, adapter_paused, adapter_deprecated,
}
use sol_yield.Dispatcher.Validate.{
  validate_adapter_entry, IsRoutable, validate_adapter_entry_status,
}
use sol_yield.Dispatcher.Handlers.{
  amount_ix_data, adapter_call, routed_event, deposit, withdraw, current_value,
}
use sol_yield.Dispatcher.Routing.{
  Routed, Returned, Covers, adapter_call-Covers, deposit_iff, withdraw_iff, current_value_iff,
}
use sol_yield.Dispatcher.Approval.{
  registered_routable_iff, deprecated_never_routed, pause-blocks_routing,
}

abbrev account : Pubkey → Bool → AccountInfo
account key writable = record {
  key = key;
  is_signer = false;
  is_writable = writable;
  owner = 5;
  bytes = [];
}

abbrev route : Route
route = record {
  adapter_entry = record {
    key = entry_ref.key;
    is_writable = false;
    state = entry_record approved 12;
  };
  adapter_program = account 5 false;
  adapter_config = account 21 false;
  requested_mint = account 6 false;
  adapter_position = account 22 true;
  user = record { key = 23; is_signer = true; is_writable = true; owner = 0; bytes = [] };
  remaining_accounts = account 24 true ∷ account 25 false ∷ [];
}

-- A chain whose state is the data of the last call; every call succeeds and returns 900.
abbrev recorder : Runtime (List ℕ)
recorder = record {
  invoke = λ instruction infos s. some instruction.bytes;
  get_return_data = λ s. some (5, to_le_bytes 8 900);
}

abbrev deposit_data : List ℕ
deposit_data = 242 ∷ 35 ∷ 198 ∷ 137 ∷ 82 ∷ 225 ∷ 242 ∷ 182 ∷ 44 ∷ 1 ∷ 0 ∷ 0 ∷ 0 ∷ 0 ∷ 0 ∷ 0 ∷ []

abbrev RoutableSample : Type 0
RoutableSample = IsRoutable example_pda entry_ref.key (entry_record approved 12) 5 6

route_ok : RoutableSample
unfolding run
route_ok = record { canonical = refl; is_approved = refl; same_program = refl; same_mint = refl }

validate_adapter_entry_status_example :
    validate_adapter_entry example_pda entry_ref.key (entry_record paused 12) 1 2
    ≡ err (custom adapter_paused)
unfolding run
validate_adapter_entry_status_example =
    validate_adapter_entry_status example_pda entry_ref.key (entry_record paused 12) 1 2 refl
      (ground arith)

adapter_call-Covers_example :
    Covers
      (adapter_call true route deposit_data).0.accounts
      (adapter_call true route deposit_data).1
adapter_call-Covers_example = adapter_call-Covers true route deposit_data refl (λ _. refl)

deposit_runs :
    deposit example_pda recorder route 300 []
    ≡ ok (deposit_data, deposit_routed (routed_event route 300))
unfolding deposit validate_adapter_entry adapter_call amount_ix_data run
deposit_runs = refl

deposit_iff_example :
    (deposit example_pda recorder route 300 []
      ≡ ok (deposit_data, deposit_routed (routed_event route 300)))
    ↔ ((0 < 300)
        × (true ≡ true)
        × Routed example_pda recorder true route
            (amount_ix_data deposit_ix_discriminator 300)
            []
            deposit_data
        × (deposit_routed (routed_event route 300) ≡ deposit_routed (routed_event route 300)))
deposit_iff_example =
    deposit_iff example_pda recorder route 300 [] deposit_data
      (deposit_routed (routed_event route 300))

abbrev withdraw_data : List ℕ
withdraw_data = 183 ∷ 18 ∷ 70 ∷ 156 ∷ 148 ∷ 109 ∷ 161 ∷ 34 ∷ 44 ∷ 1 ∷ 0 ∷ 0 ∷ 0 ∷ 0 ∷ 0 ∷ 0 ∷ []

withdraw_iff_example :
    (withdraw example_pda recorder route 300 []
      ≡ ok (withdraw_data, withdraw_routed (routed_event route 300)))
    ↔ ((0 < 300)
        × Routed example_pda recorder true route
            (amount_ix_data withdraw_ix_discriminator 300)
            []
            withdraw_data
        × (withdraw_routed (routed_event route 300) ≡ withdraw_routed (routed_event route 300)))
withdraw_iff_example =
    withdraw_iff example_pda recorder route 300 [] withdraw_data
      (withdraw_routed (routed_event route 300))

abbrev queried : DispatcherEvent
queried = current_value_queried (routed_event route 900)

current_value_iff_example :
    (current_value example_pda recorder route [] ≡ ok (current_value_ix_discriminator, queried)) ↔ (
      (value : ℕ) × Routed example_pda recorder false route current_value_ix_discriminator []
        current_value_ix_discriminator
      × Returned recorder 5 current_value_ix_discriminator value
      × (queried ≡ current_value_queried (routed_event route value)))
current_value_iff_example =
    current_value_iff example_pda recorder route [] current_value_ix_discriminator queried

registered_routable_iff_example :
    (validate_adapter_entry example_pda entry_ref.key (entry_record approved 12) 5 6 ≡ ok tt)
    ↔ ((approved ≡ approved) × (◌≡◌ {A = ℕ} 5 5) × (◌≡◌ {A = ℕ} 6 6))
registered_routable_iff_example =
    registered_routable_iff example_pda entry_ref.key (entry_record approved 12) 5 6 reached
      holding_entry

pause-blocks_routing_example :
    (e : AdapterEntry) × (fetch entry_ref.key (holding paused 13) ≡ some (entry e))
    × (validate_adapter_entry example_pda entry_ref.key e 5 6 ≡ err (custom adapter_paused))
pause-blocks_routing_example =
    pause-blocks_routing example_pda pause_request entry_ref 5 6 reached (omega arith) refl
      runs_pause.1

deprecated_never_routed_example :
    (e : AdapterEntry) × (fetch entry_ref.key (holding deprecated 14) ≡ some (entry e))
    × (validate_adapter_entry example_pda entry_ref.key e 5 6 ≡ err (custom adapter_deprecated))
deprecated_never_routed_example =
    deprecated_never_routed example_pda entry_ref.key (entry_record deprecated 14) 5 6 here
      reached_deprecated deprecated_entry refl
