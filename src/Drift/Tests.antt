-- ===== src/Drift/Tests.antt =====
-- Each theorem about the Drift adapter at an input that meets its hypotheses: a chain with one
-- insurance fund at the rate of one and a half, whose state is the user's shares and the ones that
-- are requested.
use sol_yield.Base.{
  ℕ, zero, suc, ◌+◌, ◌-◌, ◌*◌, ◌/◌, ◌≤◌, ◌<◌, ◌==◌, if◌then◌else◌, ◌≡◌, ◌↔◌, refl, true, false,
  none, some, List, [], ◌∷◌, ◌++◌, ◌||◌, arith,
}
use sol_yield.Base.Bytes.{to_le_bytes, from_le_bytes, slice}
use sol_yield.Base.Result.{ok}
use sol_yield.Solana.Account.{Pubkey, pubkey_bytes}
use sol_yield.Solana.Chain.{Chain}
use sol_yield.Solana.Example.{example_pda, digest}
use sol_yield.Drift.Types.{
  drift_insurance_fund_id, drift_signer_seed, DriftInsuranceFundConfig, DriftInsuranceFundPosition,
  drift_insurance_fund_deposit, drift_insurance_fund_withdraw, DriftAccounts, config_seeds,
  position_seeds, derive_spot_market, derive_insurance_fund_vault, derive_insurance_fund_stake,
  derive_user_stats,
}
use sol_yield.Drift.Stake.{
  read_pubkey, read_u16, read_u64, read_u128, u128_to_u64, shares_to_amount, stake_value,
  read_drift_if_value,
}
use sol_yield.Drift.Worth.{stake_value_within, stake_value_total}
use sol_yield.Drift.Validate.{
  validate_common, validate_protocol_program, check_stake_key, check_stake, check_spot_market,
  validate_spot_market_vault, validate_drift_signer, validate_drift_owned, check_user_stats,
  validate_token_account, validate_if_vault_token_account, validate_common_drift_accounts,
  validate_deposit_accounts, validate_withdraw_accounts,
}
use sol_yield.Drift.Calls.{add_stake_call, request_remove_call}
use sol_yield.Drift.Handlers.{
  check_written_position, check_written_vaults, read_position, deposit, withdraw,
}
use sol_yield.Drift.Access.{Entitled, Writable, VaultsWritable}
use sol_yield.Drift.Permit.{DepositLinked, WithdrawLinked}
use sol_yield.Drift.Effects.{Deposited, Requested, deposit_drift_iff, withdraw_drift_iff}

-- 20 of 100 shares are requested at 30, when the rate is one and a half.
stake_value_within_example : (150 * 1000 ≤ 100 * 1500) × (150 ≤ 1500)
unfolding stake_value shares_to_amount
stake_value_within_example = stake_value_within 100 20 30 1000 1500 150 (omega arith) refl

stake_value_total_example :
    (v : ℕ) × (stake_value 100 20 30 1000 1500 ≡ ok v) × ((100 - 20) * 1500 < (v + 1) * 1000)
stake_value_total_example =
    stake_value_total 100 20 30 1000 1500 (omega arith) (omega arith) (omega arith) (omega arith)
      (omega arith)

zeros : ℕ → List ℕ
zeros zero = []
zeros (suc n) = 0 ∷ zeros n

abbrev config_key : Pubkey
config_key = (example_pda.find_program_address (config_seeds 6 1) drift_insurance_fund_id).0

abbrev market_key : Pubkey
market_key = derive_spot_market example_pda 5 0

abbrev fund_key : Pubkey
fund_key = derive_insurance_fund_vault example_pda 5 0

abbrev stake_key : Pubkey
stake_key = derive_insurance_fund_stake example_pda 5 40 0

abbrev stats_key : Pubkey
stats_key = derive_user_stats example_pda 5 40

abbrev stake_bytes : ℕ → ℕ → List ℕ
stake_bytes shares requested =
    zeros 8
    ++ (pubkey_bytes 40
        ++ (to_le_bytes 16 shares
            ++ (to_le_bytes 16 requested
                ++ (zeros 24
                    ++ (to_le_bytes 8 (requested * 3 / 2) ++ (zeros 16 ++ to_le_bytes 2 0))))))

abbrev market_bytes : ℕ → List ℕ
market_bytes total =
    zeros 8
    ++ (pubkey_bytes market_key
        ++ (zeros 32
            ++ (pubkey_bytes 6
                ++ (pubkey_bytes 32
                    ++ (zeros 168 ++ (pubkey_bytes fund_key ++ to_le_bytes 16 total))))))

-- Account 21 is the user's tokens, 32 the market's vault. The other stakers have 900 shares.
abbrev chain : Chain (ℕ × ℕ)
chain = record {
  account_owner = λ s key. if key == fund_key || key == 21 then 3 else 5;
  account_bytes = λ s key.
      if key == stake_key
      then stake_bytes s.0 s.1
      else (if key == market_key
          then market_bytes (s.0 + 900)
          else pubkey_bytes 6 ++ (pubkey_bytes 40 ++ to_le_bytes 8 ((s.0 + 900) * 3 / 2)));
  invoke = λ instruction infos s.
      let amount = from_le_bytes (slice instruction.bytes 10 8) in
      if from_le_bytes (slice instruction.bytes 0 1) == 251
      then some (s.0 + amount * 2 / 3, s.1)
      else some (s.0, amount * 2 / 3);
  invoke_signed = λ instruction infos seeds s. none;
}

abbrev position : ℕ → ℕ → ℕ → ℕ → DriftInsuranceFundPosition
position deposited shares value pending = record {
  owner = 40;
  insurance_fund_stake = stake_key;
  user_stats = stats_key;
  market_index = 0;
  deposited_amount = deposited;
  shares = shares;
  last_value = value;
  pending_withdraw_amount = pending;
  bump = 255;
}

abbrev config : DriftInsuranceFundConfig
config = record {
  authority = 41;
  supported_mint = 6;
  protocol_program_id = 5;
  version = 1;
  bump = 255;
}

abbrev position_key : Pubkey
position_key =
    (example_pda.find_program_address (position_seeds config_key 40) drift_insurance_fund_id).0

abbrev accounts : DriftAccounts
accounts = record {
  config = record { key = config_key; is_writable = false; state = config };
  position = record { key = position_key; is_writable = true; state = position 100 100 150 0 };
  owner = record { key = 40; is_signer = true; is_writable = true };
  mint = 6;
  drift_program = 5;
  state = 7;
  spot_market = record { key = market_key; is_writable = true };
  insurance_fund_stake = record { key = stake_key; is_writable = true };
  user_stats = record { key = stats_key; is_writable = true };
  spot_market_vault = record { key = 32; is_writable = true };
  insurance_fund_vault = record { key = fund_key; is_writable = true };
  drift_signer = (example_pda.find_program_address (drift_signer_seed ∷ []) 5).0;
  user_token_account = record { key = 21; is_writable = true };
  token_program = 3;
}

deposit_30 :
    deposit example_pda chain accounts 30 (100, 0)
    ≡ ok (position 130 120 180 0, (120, 0), drift_insurance_fund_deposit 40 6 30 120 180)
unfolding deposit digest zeros to_le_bytes from_le_bytes check_written_vaults validate_common
    validate_deposit_accounts validate_protocol_program validate_drift_owned check_user_stats
    check_stake_key check_stake check_spot_market validate_common_drift_accounts
    validate_spot_market_vault validate_drift_signer validate_token_account
    validate_if_vault_token_account add_stake_call read_position read_drift_if_value stake_value
    shares_to_amount read_pubkey read_u16 read_u64 read_u128 u128_to_u64
deposit_30 = refl

deposit_drift_iff_example :
    (deposit example_pda chain accounts 30 (100, 0)
      ≡ ok (position 130 120 180 0, (120, 0), drift_insurance_fund_deposit 40 6 30 120 180))
    ↔ ((0 < 30)
        × Entitled example_pda accounts
        × Writable accounts
        × VaultsWritable accounts
        × DepositLinked example_pda chain (100, 0) accounts
        × Deposited example_pda chain accounts 30
            (100, 0)
            (120, 0)
            (position 130 120 180 0)
            (drift_insurance_fund_deposit 40 6 30 120 180))
deposit_drift_iff_example =
    deposit_drift_iff example_pda chain accounts 30 (100, 0) (120, 0) (position 130 120 180 0)
      (drift_insurance_fund_deposit 40 6 30 120 180)

withdraw_30 :
    withdraw example_pda chain accounts 30 (100, 0)
    ≡ ok (position 100 100 150 30, (100, 20), drift_insurance_fund_withdraw 40 6 30 100 150)
unfolding withdraw digest zeros to_le_bytes from_le_bytes check_written_position validate_common
    validate_withdraw_accounts validate_protocol_program validate_drift_owned check_user_stats
    check_stake_key check_stake check_spot_market validate_common_drift_accounts request_remove_call
    read_position read_drift_if_value stake_value shares_to_amount read_pubkey read_u16 read_u64
    read_u128 u128_to_u64
withdraw_30 = refl

withdraw_drift_iff_example :
    (withdraw example_pda chain accounts 30 (100, 0)
      ≡ ok (position 100 100 150 30, (100, 20), drift_insurance_fund_withdraw 40 6 30 100 150))
    ↔ ((0 < 30)
        × Entitled example_pda accounts
        × Writable accounts
        × WithdrawLinked example_pda chain (100, 0) accounts
        × Requested example_pda chain accounts 30
            (100, 0)
            (100, 20)
            (position 100 100 150 30)
            (drift_insurance_fund_withdraw 40 6 30 100 150))
withdraw_drift_iff_example =
    withdraw_drift_iff example_pda chain accounts 30 (100, 0) (100, 20) (position 100 100 150 30)
      (drift_insurance_fund_withdraw 40 6 30 100 150)
