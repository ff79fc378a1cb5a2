-- ===== src/Maple/Tests.antt =====
-- Each theorem about the Maple/Syrup adapter at an input that meets its hypotheses: a chain with
-- one vault, whose state is the amount that the vault holds.
use sol_yield.Base.{
  ℕ, zero, suc, ◌+◌, ◌-◌, ◌%◌, ◌<◌, leb, ◌==◌, if◌then◌else◌, ◌≡◌, ◌≢◌, ◌↔◌, refl, true, false,
  none, some, List, [], ◌∷◌, ◌++◌, arith,
}
use sol_yield.Base.Bytes.{to_le_bytes, from_le_bytes, slice}
use sol_yield.Base.Result.{ok, err, panicked}
use sol_yield.Solana.Account.{Pubkey, pubkey_bytes}
use sol_yield.Solana.Chain.{Chain}
use sol_yield.Solana.Example.{example_pda, digest}
use sol_yield.Maple.Types.{
  maple_syrup_id, maple_syrup_usdc_mint, maple_syrup_usdc_oracle, chainlink_store_program_id,
  token_program_id, MapleSyrupPosition, maple_syrup_deposit, maple_syrup_withdraw,
  maple_syrup_value, VaultAccounts, config_seeds, position_seeds,
}
use sol_yield.Maple.Feed.{latest_index, read_feed_answer, shares_to_usdc_value}
use sol_yield.Maple.Validate.{
  validate_owner_and_mint, validate_common, validate_deposit_accounts, validate_withdraw_accounts,
  validate_value_accounts, read_token_amount,
}
use sol_yield.Maple.Handlers.{
  token_transfer_instruction, check_position, check_written_position, deposit, withdraw,
  current_value,
}
use sol_yield.Maple.Access.{Entitled, Writable, Linked, IsUserAccount}
use sol_yield.Maple.Vault.{
  Valued, Deposited, Withdrawn, deposit_vault_iff, withdraw_vault_iff, current_value_vault_iff,
}
use sol_yield.Maple.Price.{latest_index-behind_cursor, read_feed_answer-safe}

zeros : ℕ → List ℕ
zeros zero = []
zeros (suc n) = 0 ∷ zeros n

-- The feed: version 2, eight decimals, a ring of one slot, and the answer 1.1.
abbrev feed_bytes : List ℕ
feed_bytes =
    zeros 8
    ++ (2 ∷ zeros 129)
    ++ (8 ∷ zeros 9)
    ++ to_le_bytes 4 1
    ++ to_le_bytes 4 0
    ++ zeros 60
    ++ to_le_bytes 16 110000000
    ++ zeros 16

abbrev config_key : Pubkey
config_key =
    (example_pda.find_program_address (config_seeds maple_syrup_usdc_mint 1) maple_syrup_id).0

abbrev position_key : Pubkey
position_key = (example_pda.find_program_address (position_seeds config_key 40) maple_syrup_id).0

abbrev token_account : Pubkey → ℕ → List ℕ
token_account owner amount =
    pubkey_bytes maple_syrup_usdc_mint ++ pubkey_bytes owner ++ to_le_bytes 8 amount

-- Account 20 is the vault and 21 the user's.
abbrev chain : Chain ℕ
chain = record {
  account_owner = λ s key.
      if key == maple_syrup_usdc_oracle then chainlink_store_program_id else token_program_id;
  account_bytes = λ s key.
      if key == maple_syrup_usdc_oracle
      then feed_bytes
      else (if key == 20 then token_account position_key s else token_account 40 1000);
  invoke = λ instruction infos s. some (s + from_le_bytes (slice instruction.bytes 1 8));
  invoke_signed = λ instruction infos seeds s.
      let amount = from_le_bytes (slice instruction.bytes 1 8) in
      if leb amount s then some (s - amount) else none;
}

abbrev position : ℕ → ℕ → ℕ → MapleSyrupPosition
position deposited shares value = record {
  owner = 40;
  vault_token_account = 20;
  deposited_amount = deposited;
  shares = shares;
  last_value = value;
  bump = 255;
}

abbrev accounts : VaultAccounts
accounts = record {
  config = record {
    key = config_key;
    is_writable = false;
    state = record {
      authority = 41;
      supported_mint = maple_syrup_usdc_mint;
      protocol_program_id = token_program_id;
      version = 1;
      bump = 255;
    };
  };
  position = record { key = position_key; is_writable = true; state = position 100 100 110 };
  owner = record { key = 40; is_signer = true; is_writable = true };
  mint = maple_syrup_usdc_mint;
  token_program = token_program_id;
  user_token_account = record { key = 21; is_writable = true };
  vault_token_account = record { key = 20; is_writable = true };
  price_feed = maple_syrup_usdc_oracle;
}

deposit_20 :
    deposit example_pda chain accounts 20 100
    ≡ ok (position 120 120 132, 120, maple_syrup_deposit 40 maple_syrup_usdc_mint 20 120 132)
unfolding deposit digest zeros to_le_bytes from_le_bytes check_written_position validate_common
    validate_deposit_accounts read_token_amount shares_to_usdc_value token_transfer_instruction
deposit_20 = refl

deposit_vault_iff_example :
    (deposit example_pda chain accounts 20 100
      ≡ ok (position 120 120 132, 120, maple_syrup_deposit 40 maple_syrup_usdc_mint 20 120 132))
    ↔ ((0 < 20)
        × Entitled example_pda accounts
        × Writable accounts
        × Linked chain 100 accounts
        × IsUserAccount chain 100 accounts
        × Deposited example_pda chain accounts 20 100 120
            (position 120 120 132)
            (maple_syrup_deposit 40 maple_syrup_usdc_mint 20 120 132))
deposit_vault_iff_example =
    deposit_vault_iff example_pda chain accounts 20 100 120 (position 120 120 132)
      (maple_syrup_deposit 40 maple_syrup_usdc_mint 20 120 132)

withdraw_30 :
    withdraw example_pda chain accounts 30 100
    ≡ ok (position 70 70 77, 70, maple_syrup_withdraw 40 maple_syrup_usdc_mint 30 70 77)
unfolding withdraw digest zeros to_le_bytes from_le_bytes check_written_position validate_common
    validate_withdraw_accounts read_token_amount shares_to_usdc_value token_transfer_instruction
withdraw_30 = refl

withdraw_vault_iff_example :
    (withdraw example_pda chain accounts 30 100
      ≡ ok (position 70 70 77, 70, maple_syrup_withdraw 40 maple_syrup_usdc_mint 30 70 77))
    ↔ ((0 < 30)
        × Entitled example_pda accounts
        × Writable accounts
        × Linked chain 100 accounts
        × IsUserAccount chain 100 accounts
        × Withdrawn example_pda chain accounts 30 100 70
            (position 70 70 77)
            (maple_syrup_withdraw 40 maple_syrup_usdc_mint 30 70 77))
withdraw_vault_iff_example =
    withdraw_vault_iff example_pda chain accounts 30 100 70 (position 70 70 77)
      (maple_syrup_withdraw 40 maple_syrup_usdc_mint 30 70 77)

value_110 :
    current_value example_pda chain accounts 100
    ≡ ok (to_le_bytes 8 110, maple_syrup_value 40 maple_syrup_usdc_mint 100 110)
unfolding current_value digest zeros to_le_bytes from_le_bytes check_position
    validate_owner_and_mint validate_value_accounts read_token_amount shares_to_usdc_value
value_110 = refl

current_value_vault_iff_example :
    (current_value example_pda chain accounts 100
      ≡ ok (to_le_bytes 8 110, maple_syrup_value 40 maple_syrup_usdc_mint 100 110))
    ↔ (Entitled example_pda accounts
        × Linked chain 100 accounts
        × ((shares value : ℕ) × Valued chain accounts 100 shares value
            × (to_le_bytes 8 110 ≡ to_le_bytes 8 value)
            × (maple_syrup_value 40 maple_syrup_usdc_mint 100 110
                ≡ maple_syrup_value 40 maple_syrup_usdc_mint shares value)))
current_value_vault_iff_example =
    current_value_vault_iff example_pda chain accounts 100 (to_le_bytes 8 110)
      (maple_syrup_value 40 maple_syrup_usdc_mint 100 110)

latest_index-behind_cursor_example : (7 < 8) × ((7 + 1) % 8 ≡ 0 % 8)
unfolding latest_index
latest_index-behind_cursor_example = latest_index-behind_cursor 0 8 7 (omega arith) refl

read_feed_answer-safe_example : read_feed_answer feed_bytes ≢ err panicked
read_feed_answer-safe_example = read_feed_answer-safe feed_bytes
