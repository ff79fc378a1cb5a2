-- ===== src/Kamino/Tests.antt =====
-- Each theorem about the Kamino adapter at an input that meets its hypotheses: a chain with one
-- reserve at the rate of one and a half, whose state is the collateral that the user holds.
use sol_yield.Base.{
  ℕ, zero, suc, ◌+◌, ◌-◌, ◌*◌, ◌/◌, ◌^◌, ◌≤◌, ◌<◌, leb, ◌==◌, if◌then◌else◌, ◌≡◌, ◌↔◌, refl, true,
  false, none, some, List, [], ◌∷◌, ◌++◌,
}
use sol_yield.Base.Bytes.{to_le_bytes, from_le_bytes, slice}
use sol_yield.Base.Result.{ok}
use sol_yield.Solana.Account.{Pubkey, pubkey_bytes}
use sol_yield.Solana.Chain.{Chain}
use sol_yield.Solana.Example.{example_pda, digest}
use sol_yield.Kamino.Types.{
  kamino_usdc_id, lending_market_auth_seed, reserve_discriminator, KaminoUsdcPosition,
  kamino_usdc_deposit, kamino_usdc_withdraw, KaminoReserveFields, KaminoAccounts, config_seeds,
  position_seeds,
}
use sol_yield.Kamino.Reserve.{read_pubkey, read_u64, read_u128, read_reserve_fields}
use sol_yield.Kamino.Exchange.{collateral_to_liquidity, liquidity_to_collateral_ceil}
use sol_yield.Kamino.Conversion.{redeemed_least}
use sol_yield.Kamino.Validate.{
  validate_common, validate_deposit_accounts, validate_withdraw_accounts, validate_reserve_accounts,
  validate_protocol_program, validate_reserve_common, validate_market_accounts,
  validate_reserve_vault_accounts, validate_token_account, validate_instruction_sysvar,
  read_token_amount,
}
use sol_yield.Kamino.Calls.{deposit_call, redeem_call}
use sol_yield.Kamino.Handlers.{check_written_position, read_position, deposit, withdraw}
use sol_yield.Kamino.Access.{Entitled, Writable}
use sol_yield.Kamino.Permit.{Linked}
use sol_yield.Kamino.Effects.{Deposited, Withdrawn, deposit_kamino_iff, withdraw_kamino_iff}

-- 1000 available, 502 and a half lent out, fees of 2.
abbrev reserve : KaminoReserveFields
reserve = record {
  lending_market = 50;
  liquidity_mint = 6;
  liquidity_supply = 32;
  liquidity_token_program = 3;
  total_available_amount = 1000;
  borrowed_amount_sf = 1005 * 2 ^ 59;
  accumulated_protocol_fees_sf = 2 ^ 60;
  accumulated_referrer_fees_sf = 2 ^ 60;
  pending_referrer_fees_sf = 0;
  collateral_mint = 33;
  collateral_mint_total_supply = 1000;
}

-- 100 of liquidity redeem 67 of collateral, and 66 are worth 99.
redeemed_least_example : (100 ≤ 99) ↔ (67 ≤ 66)
unfolding liquidity_to_collateral_ceil collateral_to_liquidity
redeemed_least_example = redeemed_least reserve 100 67 66 99 refl refl

zeros : ℕ → List ℕ
zeros zero = []
zeros (suc n) = 0 ∷ zeros n

abbrev reserve_bytes : List ℕ
reserve_bytes =
    reserve_discriminator
    ++ (zeros 24
        ++ (pubkey_bytes 50
            ++ (zeros 64
                ++ (pubkey_bytes 6
                    ++ (pubkey_bytes 32
                        ++ (zeros 32
                            ++ (to_le_bytes 8 1000
                                ++ (to_le_bytes 16 (1005 * 2 ^ 59)
                                    ++ (zeros 96
                                        ++ (to_le_bytes 16 (2 ^ 60)
                                            ++ (to_le_bytes 16 (2 ^ 60)
                                                ++ (zeros 32
                                                    ++ (pubkey_bytes 3
                                                        ++ (zeros 2120
                                                            ++ (pubkey_bytes 33
                                                            ++ to_le_bytes 8 1000)))))))))))))))

reserve_read : read_reserve_fields reserve_bytes ≡ ok reserve
unfolding read_reserve_fields read_pubkey read_u64 read_u128 zeros to_le_bytes from_le_bytes
reserve_read = refl

abbrev config_key : Pubkey
config_key = (example_pda.find_program_address (config_seeds 6 1) kamino_usdc_id).0

-- Account 30 is the reserve, 21 the user's liquidity and 22 the user's collateral.
abbrev chain : Chain ℕ
chain = record {
  account_owner = λ s key. if key == 30 then 5 else 3;
  account_bytes = λ s key.
      if key == 30
      then reserve_bytes
      else (if key == 22
          then pubkey_bytes 33 ++ (pubkey_bytes 40 ++ to_le_bytes 8 s)
          else pubkey_bytes 6 ++ pubkey_bytes 40);
  invoke = λ instruction infos s.
      let amount = from_le_bytes (slice instruction.bytes 8 8) in
      if from_le_bytes (slice instruction.bytes 0 1) == 169
      then some (s + amount * 1000 / 1500)
      else (if leb amount s then some (s - amount) else none);
  invoke_signed = λ instruction infos seeds s. none;
}

abbrev position : ℕ → ℕ → ℕ → KaminoUsdcPosition
position deposited shares value = record {
  owner = 40;
  reserve = 30;
  collateral_token_account = 22;
  deposited_amount = deposited;
  shares = shares;
  last_value = value;
  bump = 255;
}

abbrev accounts : KaminoAccounts
accounts = record {
  config = record {
    key = config_key;
    is_writable = false;
    state = record {
      authority = 41;
      supported_mint = 6;
      protocol_program_id = 5;
      version = 1;
      bump = 255;
    };
  };
  position = record {
    key = (example_pda.find_program_address (position_seeds config_key 40) kamino_usdc_id).0;
    is_writable = true;
    state = position 100 100 150;
  };
  owner = record { key = 40; is_signer = true; is_writable = true };
  mint = 6;
  kamino_program = 5;
  reserve = record { key = 30; is_writable = true };
  lending_market = 50;
  lending_market_authority =
      (example_pda.find_program_address (lending_market_auth_seed ∷ pubkey_bytes 50 ∷ []) 5).0;
  reserve_liquidity_mint = 6;
  reserve_liquidity_supply = record { key = 32; is_writable = true };
  reserve_collateral_mint = record { key = 33; is_writable = true };
  user_liquidity = record { key = 21; is_writable = true };
  user_collateral = record { key = 22; is_writable = true };
  collateral_token_program = 3;
  liquidity_token_program = 3;
  instruction_sysvar_account = 9;
}

deposit_30 :
    deposit example_pda 9 chain accounts 30 100
    ≡ ok (position 130 120 180, 120, kamino_usdc_deposit 40 6 30 120 180)
unfolding deposit digest zeros to_le_bytes from_le_bytes check_written_position validate_common
    validate_deposit_accounts validate_reserve_accounts validate_protocol_program
    validate_reserve_common validate_market_accounts validate_reserve_vault_accounts
    validate_token_account validate_instruction_sysvar deposit_call read_position
    read_reserve_fields read_token_amount collateral_to_liquidity read_pubkey read_u64 read_u128
deposit_30 = refl

deposit_kamino_iff_example :
    (deposit example_pda 9 chain accounts 30 100
      ≡ ok (position 130 120 180, 120, kamino_usdc_deposit 40 6 30 120 180))
    ↔ ((0 < 30)
        × Entitled example_pda accounts
        × Writable accounts
        × ((fields : KaminoReserveFields) × Linked example_pda 9 chain 100 accounts fields
            × Deposited example_pda 9 chain accounts 30 100 120
                (position 130 120 180)
                (kamino_usdc_deposit 40 6 30 120 180)))
deposit_kamino_iff_example =
    deposit_kamino_iff example_pda 9 chain accounts 30 100 120 (position 130 120 180)
      (kamino_usdc_deposit 40 6 30 120 180)

withdraw_31 :
    withdraw example_pda 9 chain accounts 31 100
    ≡ ok (position 69 79 118, 79, kamino_usdc_withdraw 40 6 31 79 118)
unfolding withdraw digest zeros to_le_bytes from_le_bytes check_written_position validate_common
    validate_withdraw_accounts validate_reserve_accounts validate_protocol_program
    validate_reserve_common validate_market_accounts validate_reserve_vault_accounts
    validate_token_account validate_instruction_sysvar redeem_call read_position read_reserve_fields
    read_token_amount collateral_to_liquidity liquidity_to_collateral_ceil read_pubkey read_u64
    read_u128
withdraw_31 = refl

withdraw_kamino_iff_example :
    (withdraw example_pda 9 chain accounts 31 100
      ≡ ok (position 69 79 118, 79, kamino_usdc_withdraw 40 6 31 79 118))
    ↔ ((0 < 31)
        × Entitled example_pda accounts
        × Writable accounts
        × ((fields : KaminoReserveFields) × Linked example_pda 9 chain 100 accounts fields
            × Withdrawn example_pda 9 chain accounts 31 100 79
                (position 69 79 118)
                (kamino_usdc_withdraw 40 6 31 79 118)
                fields))
withdraw_kamino_iff_example =
    withdraw_kamino_iff example_pda 9 chain accounts 31 100 79 (position 69 79 118)
      (kamino_usdc_withdraw 40 6 31 79 118)
