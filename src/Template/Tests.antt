-- ===== src/Template/Tests.antt =====
-- Each theorem about the adapter template at an input that meets its hypotheses.
use sol_yield.Base.{ℕ, ◌≡◌, refl, true, none, some, List, [], ◌∷◌, arith}
use sol_yield.Base.Bytes.{to_le_bytes}
use sol_yield.Base.Result.{ok, err, custom}
use sol_yield.Solana.Account.{Pubkey}
use sol_yield.Solana.Example.{example_pda, digest}
use sol_yield.Dispatcher.Types.{Runtime}
use sol_yield.Dispatcher.Handlers.{read_current_value_return}
use sol_yield.Template.Types.{
  template_id, UserPosition, adapter_value, PositionAccounts, adapter_config_seeds,
  user_position_seeds, math_overflow,
}
use sol_yield.Template.Handlers.{withdraw, current_value}
use sol_yield.Template.Ledger.{
  IsBalance, Permitted, withdraw_overdraft, Operation, paid_in, paid_out, run, Balances,
  run-Balances,
}
use sol_yield.Template.Query.{current_value-read_back}

abbrev position : ℕ → UserPosition
position n = record { owner = 40; deposited_amount = n; shares = n; last_value = n; bump = 255 }

abbrev config_key : Pubkey
config_key = (example_pda.find_program_address (adapter_config_seeds 6 1) template_id).0

abbrev accounts : ℕ → PositionAccounts
accounts n = record {
  adapter_config = record {
    key = config_key;
    is_writable = true;
    state = record {
      authority = 41;
      supported_mint = 6;
      protocol_program_id = 5;
      version = 1;
      bump = 255;
    };
  };
  user_position = record {
    key = (example_pda.find_program_address (user_position_seeds config_key 40) template_id).0;
    is_writable = true;
    state = position n;
  };
  owner = record { key = 40; is_signer = true; is_writable = true };
  mint = 6;
}

position-IsBalance : IsBalance (position 100)
position-IsBalance = omega arith

accounts-Permitted : Permitted (accounts 100)
accounts-Permitted = omega arith

withdraw_overdraft_example : withdraw (accounts 100) 101 ≡ err (custom math_overflow)
withdraw_overdraft_example = withdraw_overdraft (accounts 100) 101 accounts-Permitted (omega arith)

abbrev history : List Operation
history =
    record { accounts = accounts 0; movement = paid_in 30 }
    ∷ record { accounts = accounts 0; movement = paid_out 500 }
    ∷ record { accounts = accounts 0; movement = paid_out 10 }
    ∷ []

run-history : run example_pda history (position 100) ≡ (position 120, 30, 10)
unfolding run digest to_le_bytes
run-history = refl

run-Balances_example : Balances (position 100) (run example_pda history (position 100))
run-Balances_example = run-Balances example_pda history (position 100) position-IsBalance

abbrev returning : Runtime ℕ
returning = record {
  invoke = λ instruction infos s. none;
  get_return_data = λ s. some (5, to_le_bytes 8 100);
}

current_value-read_back_example : read_current_value_return returning 5 0 ≡ ok 100
unfolding current_value
current_value-read_back_example =
    current_value-read_back returning 0 5 (accounts 100) (to_le_bytes 8 100)
      (adapter_value 40 6 100) position-IsBalance refl refl
