-- ===== src/Marginfi/Tests.antt =====
-- Each theorem about the MarginFi adapter at an input that meets its hypotheses: a chain with one
-- MarginFi account, whose state is the number of its shares.
use sol_yield.Base.{
  ℕ, zero, suc, ◌+◌, ◌-◌, ◌*◌, ◌/◌, ◌^◌, ◌≤◌, ◌<◌, leb, ◌==◌, if◌then◌else◌, ◌≡◌, ◌↔◌, refl, true,
  false, none, some, List, [], ◌∷◌, ◌++◌, All, arith,
}
use sol_yield.Base.Bytes.{to_le_bytes, from_le_bytes, slice}
use sol_yield.Base.Data.{index}
use sol_yield.Base.Result.{ok}
use sol_yield.Solana.Account.{Pubkey, pubkey_bytes, AccountInfo}
use sol_yield.Solana.Chain.{Chain}
use sol_yield.Solana.Example.{example_pda, digest}
use sol_yield.Marginfi.Types.{
  marginfi_usdc_id, i80f48_one, MarginfiUsdcPosition, marginfi_usdc_deposit, marginfi_usdc_withdraw,
  MarginfiAccounts, config_seeds, position_seeds,
}
use sol_yield.Marginfi.Fixed.{
  read_marginfi_position, read_asset_shares_for_bank, scan_balances, read_pubkey, read_i80f48_raw,
  fixed_mul_floor_to_u64,
}
use sol_yield.Marginfi.Rounding.{carry, fixed_mul_floor_to_u64_near, fixed_mul_floor_to_u64_total}
use sol_yield.Marginfi.Balances.{
  Balance, IsBalance, balances_bytes, read_asset_shares_for_bank-held,
}
use sol_yield.Marginfi.Validate.{
  validate_common, validate_deposit_accounts, validate_withdraw_accounts,
}
use sol_yield.Marginfi.Calls.{deposit_call, withdraw_call}
use sol_yield.Marginfi.Handlers.{check_written_position, deposit, withdraw}
use sol_yield.Marginfi.Access.{vault_authority}
use sol_yield.Marginfi.Permit.{Entitled, Writable, DepositLinked, WithdrawLinked}
use sol_yield.Marginfi.Effects.{Deposited, Withdrawn, deposit_marginfi_iff, withdraw_marginfi_iff}

-- One and a half by four.
fixed_mul_floor_to_u64_near_example :
    (6 ≤ 3 * 2 ^ 47 * (4 * 2 ^ 48) / 2 ^ 96)
    × (3 * 2 ^ 47 * (4 * 2 ^ 48) / 2 ^ 96 ≤ 6 + 1)
    × ((3 * 2 ^ 47 * (4 * 2 ^ 48) / 2 ^ 96 ≡ 6) ↔ (carry (3 * 2 ^ 47) (4 * 2 ^ 48) ≡ 0))
unfolding fixed_mul_floor_to_u64
fixed_mul_floor_to_u64_near_example = fixed_mul_floor_to_u64_near (3 * 2 ^ 47) (4 * 2 ^ 48) 6 refl

-- The greatest fixed-point number below two, by itself: the code gives two, the exact product
-- rounded down is three.
abbrev below_two : ℕ
below_two = 2 ^ 49 - 1

square_below_two : fixed_mul_floor_to_u64 below_two below_two ≡ ok 2
unfolding fixed_mul_floor_to_u64
square_below_two = refl

square_below_two_exact : below_two * below_two / 2 ^ 96 ≡ 3
square_below_two_exact = refl

fixed_mul_floor_to_u64_total_example : (v : ℕ) × (fixed_mul_floor_to_u64 below_two below_two ≡ ok v)
fixed_mul_floor_to_u64_total_example =
    fixed_mul_floor_to_u64_total below_two below_two (omega arith)

zeros : ℕ → List ℕ
zeros zero = []
zeros (suc n) = 0 ∷ zeros n

abbrev balance : ℕ → Pubkey → ℕ → Balance
balance active bank shares = record {
  active = active;
  bank = bank;
  gap = zeros 7;
  asset_shares = shares;
  others = zeros 48;
}

abbrev empties : ℕ → List Balance
empties zero = []
empties (suc n) = balance 0 0 0 ∷ empties n

-- A closed balance in bank 30, one in bank 31, and the open one in bank 30.
abbrev balances : ℕ → List Balance
balances shares =
    balance 0 30 (9 * i80f48_one)
    ∷ balance 1 31 (7 * i80f48_one)
    ∷ balance 1 30 (shares * i80f48_one)
    ∷ empties 13

balances-IsBalance : All IsBalance (balances 100)
unfolding zeros
balances-IsBalance = omega arith

abbrev account_header : List ℕ
account_header = zeros 8 ++ (pubkey_bytes 50 ++ pubkey_bytes 40)

read_asset_shares_for_bank-held_example :
    read_asset_shares_for_bank (account_header ++ (balances_bytes (balances 100) ++ [])) 30
    ≡ ok (100 * i80f48_one)
unfolding zeros to_le_bytes
read_asset_shares_for_bank-held_example =
    read_asset_shares_for_bank-held account_header (balances 100) [] 30 refl refl balances-IsBalance

-- Bank 30: mint 6 with six decimals, group 50, a share value of one and a half, vault 32, oracle
-- 33.
abbrev bank_bytes : List ℕ
bank_bytes =
    zeros 8
    ++ (pubkey_bytes 6
        ++ (6
            ∷ (pubkey_bytes 50
                ++ (zeros 7
                    ++ (to_le_bytes 16 (3 * 2 ^ 47)
                        ++ (zeros 16
                            ++ (pubkey_bytes 32 ++ (zeros 464 ++ (1 ∷ 1 ∷ pubkey_bytes 33)))))))))

abbrev config_key : Pubkey
config_key = (example_pda.find_program_address (config_seeds 6 1) marginfi_usdc_id).0

-- Account 20 is the MarginFi account, 30 the bank and 21 the user's token account. A call moves
-- as many shares as its amount, one for one.
abbrev chain : Chain ℕ
chain = record {
  account_owner = λ s key. if key == 21 then 3 else 5;
  account_bytes = λ s key.
      if key == 30
      then bank_bytes
      else (if key == 20
          then account_header ++ balances_bytes (balances s)
          else pubkey_bytes 6 ++ pubkey_bytes 40);
  invoke = λ instruction infos s.
      let amount = from_le_bytes (slice instruction.bytes 8 8) in
      if from_le_bytes (slice instruction.bytes 0 1) == 171
      then some (s + amount)
      else (if leb amount s then some (s - amount) else none);
  invoke_signed = λ instruction infos seeds s. none;
}

abbrev position : ℕ → ℕ → ℕ → MarginfiUsdcPosition
position deposited shares value = record {
  owner = 40;
  marginfi_account = 20;
  marginfi_bank = 30;
  deposited_amount = deposited;
  shares = shares;
  last_value = value;
  bump = 255;
}

abbrev remaining : Pubkey → AccountInfo
remaining key = record { key = key; is_signer = false; is_writable = false; owner = 5; bytes = [] }

abbrev accounts : MarginfiAccounts
accounts = record {
  config = record {
    key = config_key;
    is_writable = false;
    state = record {
      authority = 41;
      supported_mint = 6;
      protocol_program_id = 5;
      version = 1;
      bump = 255;
    };
  };
  position = record {
    key = (example_pda.find_program_address (position_seeds config_key 40) marginfi_usdc_id).0;
    is_writable = true;
    state = position 100 100 150;
  };
  owner = record { key = 40; is_signer = true; is_writable = true };
  mint = 6;
  marginfi_program = 5;
  marginfi_group = 50;
  marginfi_account = record { key = 20; is_writable = true };
  marginfi_bank = record { key = 30; is_writable = true };
  owner_token_account = record { key = 21; is_writable = true };
  bank_liquidity_vault_authority = vault_authority example_pda 30 5;
  liquidity_vault = record { key = 32; is_writable = true };
  token_program = 3;
  remaining_accounts = remaining 30 ∷ remaining 33 ∷ [];
}

deposit_21 :
    deposit example_pda chain accounts 21 100
    ≡ ok (position 121 121 181, 121, marginfi_usdc_deposit 40 6 21 121 181)
unfolding deposit digest zeros to_le_bytes from_le_bytes check_written_position validate_common
    validate_deposit_accounts deposit_call read_marginfi_position scan_balances read_pubkey
    read_i80f48_raw index
deposit_21 = refl

deposit_marginfi_iff_example :
    (deposit example_pda chain accounts 21 100
      ≡ ok (position 121 121 181, 121, marginfi_usdc_deposit 40 6 21 121 181))
    ↔ ((0 < 21)
        × Entitled example_pda accounts
        × Writable accounts
        × DepositLinked example_pda chain 100 accounts
        × Deposited example_pda chain accounts 21 100 121
            (position 121 121 181)
            (marginfi_usdc_deposit 40 6 21 121 181))
deposit_marginfi_iff_example =
    deposit_marginfi_iff example_pda chain accounts 21 100 121 (position 121 121 181)
      (marginfi_usdc_deposit 40 6 21 121 181)

withdraw_30 :
    withdraw example_pda chain accounts 30 100
    ≡ ok (position 70 70 105, 70, marginfi_usdc_withdraw 40 6 30 70 105)
unfolding withdraw digest zeros to_le_bytes from_le_bytes check_written_position validate_common
    validate_withdraw_accounts withdraw_call read_marginfi_position scan_balances read_pubkey
    read_i80f48_raw index
withdraw_30 = refl

withdraw_marginfi_iff_example :
    (withdraw example_pda chain accounts 30 100
      ≡ ok (position 70 70 105, 70, marginfi_usdc_withdraw 40 6 30 70 105))
    ↔ ((0 < 30)
        × Entitled example_pda accounts
        × Writable accounts
        × WithdrawLinked example_pda chain 100 accounts
        × Withdrawn example_pda chain accounts 30 100 70
            (position 70 70 105)
            (marginfi_usdc_withdraw 40 6 30 70 105))
withdraw_marginfi_iff_example =
    withdraw_marginfi_iff example_pda chain accounts 30 100 70 (position 70 70 105)
      (marginfi_usdc_withdraw 40 6 30 70 105)
