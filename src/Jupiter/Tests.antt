-- ===== src/Jupiter/Tests.antt =====
-- Each theorem about the Jupiter adapter at an input that meets its hypotheses: a chain with one
-- pool at the rate of one and a half, whose state is the LP tokens that the user holds.
use sol_yield.Base.{
  ℕ, zero, suc, ◌+◌, ◌-◌, ◌*◌, ◌/◌, ◌≤◌, ◌<◌, leb, ◌==◌, if◌then◌else◌, ◌≡◌, ◌↔◌, refl, true, false,
  none, some, List, [], ◌∷◌, ◌++◌, ◌||◌, arith,
}
use sol_yield.Base.Bytes.{to_le_bytes, from_le_bytes, slice}
use sol_yield.Base.Data.{index}
use sol_yield.Base.Result.{ok, err, custom}
use sol_yield.Solana.Account.{Pubkey, pubkey_bytes}
use sol_yield.Solana.Chain.{Chain}
use sol_yield.Solana.Pda.{Pda}
use sol_yield.Solana.Example.{digest}
use sol_yield.Jupiter.Types.{
  invalid_pool, jupiter_lp_id, jupiter_perps_program_id, jlp_pool, jlp_mint, jlp_usdc_custody,
  jlp_usdc_doves_ag_price_account, token_program_id, perpetuals_seed, transfer_authority_seed,
  event_authority_seed, lp_token_mint_seed, custody_discriminator, perpetuals_discriminator,
  JupiterLpPosition, jupiter_lp_deposit, jupiter_lp_withdraw, JupiterAccounts, config_seeds,
  position_seeds,
}
use sol_yield.Jupiter.Pool.{
  read_pubkey, read_u32, read_u64, read_u128, read_token_amount, read_mint_supply, scan_keys,
  read_pool_aum_with_custody,
}
use sol_yield.Jupiter.Quote.{
  scale_floor, scale_ceil, lp_to_usdc_floor, usdc_to_lp_floor, usdc_to_lp_ceil, apply_bps_floor,
  apply_bps_ceil, u128_to_u64,
}
use sol_yield.Jupiter.Custodies.{pool_bytes, contains, read_pool_aum-pool_bytes}
use sol_yield.Jupiter.Slippage.{min_lp_amount_out_bounds, lp_amount_in_bounds}
use sol_yield.Jupiter.Validate.{
  validate_common, validate_protocol_program, validate_jupiter_pdas, validate_token_program,
  validate_static_position_accounts, validate_token_account, validate_jlp_mint,
  validate_custody_basic, validate_custody_accounts, validate_perpetuals, pool_aum, read_pool_aum,
  validate_deposit_accounts, validate_withdraw_accounts,
}
use sol_yield.Jupiter.Calls.{add_liquidity_call, remove_liquidity_call}
use sol_yield.Jupiter.Handlers.{
  value_of, min_lp_amount_out, lp_amount_in, check_written_position, deposit, withdraw,
}
use sol_yield.Jupiter.Access.{Entitled, Writable}
use sol_yield.Jupiter.Permit.{Linked}
use sol_yield.Jupiter.Effects.{Deposited, Withdrawn, deposit_jupiter_iff, withdraw_jupiter_iff}

-- A derivation of addresses that gives the pool's LP mint its known address.
abbrev mint_digest : ℕ
mint_digest =
    digest (lp_token_mint_seed ∷ pubkey_bytes jlp_pool ∷ (255 ∷ []) ∷ []) jupiter_perps_program_id

abbrev address : ℕ → Pubkey
address d = if d == mint_digest then jlp_mint else d

abbrev pool_pda : Pda
pool_pda = record {
  find_program_address =
      λ seeds program. (address (digest (seeds ++ ((255 ∷ []) ∷ [])) program), 255);
  create_program_address = λ seeds program. some (address (digest seeds program));
  create-find = λ seeds program. refl;
}

zeros : ℕ → List ℕ
zeros zero = []
zeros (suc n) = 0 ∷ zeros n

abbrev config_key : Pubkey
config_key = (pool_pda.find_program_address (config_seeds 6 1) jupiter_lp_id).0

abbrev perpetuals_key : Pubkey
perpetuals_key = (pool_pda.find_program_address (perpetuals_seed ∷ []) jupiter_perps_program_id).0

-- A pool with two custodies, and none of them 8.
read_pool_aum-pool_bytes_example :
    read_pool_aum_with_custody jupiter_perps_program_id
      (pool_bytes (zeros 4) (jlp_usdc_custody ∷ 7 ∷ []) 1500 (1 ∷ 2 ∷ []))
      8
    ≡ (if contains 8 (jlp_usdc_custody ∷ 7 ∷ []) then ok 1500 else err (custom invalid_pool))
unfolding zeros
read_pool_aum-pool_bytes_example =
    read_pool_aum-pool_bytes (zeros 4) (jlp_usdc_custody ∷ 7 ∷ []) 1500 (1 ∷ 2 ∷ []) (omega arith)
      (omega arith) (omega arith) (omega arith) 8

abbrev custody_bytes : List ℕ
custody_bytes =
    custody_discriminator
    ++ (pubkey_bytes jlp_pool
        ++ (pubkey_bytes 6
            ++ (pubkey_bytes 32
                ++ (zeros 2
                    ++ (pubkey_bytes 31
                        ++ (zeros 246 ++ pubkey_bytes jlp_usdc_doves_ag_price_account))))))

abbrev perpetuals_bytes : List ℕ
perpetuals_bytes =
    perpetuals_discriminator ++ (zeros 7 ++ (to_le_bytes 4 1 ++ pubkey_bytes jlp_pool))

-- Account 21 is the user's tokens, 22 the user's LP tokens. The others hold 900 LP tokens.
abbrev chain : Chain ℕ
chain = record {
  account_owner = λ s key.
      if key == 21 || key == 22 || key == jlp_mint
      then token_program_id
      else jupiter_perps_program_id;
  account_bytes = λ s key.
      if key == 21
      then pubkey_bytes 6 ++ pubkey_bytes 40
      else (if key == 22
          then pubkey_bytes jlp_mint ++ (pubkey_bytes 40 ++ to_le_bytes 8 s)
          else (if key == jlp_mint
              then zeros 36 ++ (to_le_bytes 8 (s + 900) ++ (6 ∷ []))
              else (if key == jlp_pool
                  then pool_bytes (zeros 4) (jlp_usdc_custody ∷ []) ((s + 900) * 3 / 2) []
                  else (if key == perpetuals_key then perpetuals_bytes else custody_bytes))));
  invoke = λ instruction infos s.
      let amount = from_le_bytes (slice instruction.bytes 8 8) in
      if from_le_bytes (slice instruction.bytes 0 1) == 228
      then some (s + amount * 2 / 3)
      else (if leb amount s then some (s - amount) else none);
  invoke_signed = λ instruction infos seeds s. none;
}

abbrev position : ℕ → ℕ → ℕ → JupiterLpPosition
position deposited shares value = record {
  owner = 40;
  pool = jlp_pool;
  custody = jlp_usdc_custody;
  lp_token_account = 22;
  deposited_amount = deposited;
  shares = shares;
  last_value = value;
  bump = 255;
}

abbrev accounts : JupiterAccounts
accounts = record {
  config = record {
    key = config_key;
    is_writable = false;
    state = record {
      authority = 41;
      supported_mint = 6;
      protocol_program_id = jupiter_perps_program_id;
      version = 1;
      bump = 255;
    };
  };
  position = record {
    key = (pool_pda.find_program_address (position_seeds config_key 40) jupiter_lp_id).0;
    is_writable = true;
    state = position 100 100 150;
  };
  owner = record { key = 40; is_signer = true; is_writable = true };
  mint = 6;
  jupiter_program = jupiter_perps_program_id;
  user_token_account = record { key = 21; is_writable = true };
  lp_token_account = record { key = 22; is_writable = true };
  transfer_authority =
      (pool_pda.find_program_address (transfer_authority_seed ∷ []) jupiter_perps_program_id).0;
  perpetuals = perpetuals_key;
  pool = record { key = jlp_pool; is_writable = true };
  custody = record { key = jlp_usdc_custody; is_writable = true };
  custody_doves_price_account = jlp_usdc_doves_ag_price_account;
  custody_pythnet_price_account = 31;
  custody_token_account = record { key = 32; is_writable = true };
  lp_token_mint = record { key = jlp_mint; is_writable = true };
  token_program = token_program_id;
  event_authority =
      (pool_pda.find_program_address (event_authority_seed ∷ []) jupiter_perps_program_id).0;
  remaining_accounts = [];
}

-- 30 are 20 LP tokens; a deposit accepts 19 and a withdrawal burns 21.
min_lp_amount_out_bounds_example :
    (19 * 1500 * 100 ≤ 30 * 1000 * 95) × (30 * 1000 * 95 < (19 + 2) * 1500 * 100)
unfolding zeros to_le_bytes from_le_bytes read_mint_supply read_u64 min_lp_amount_out
    usdc_to_lp_floor apply_bps_floor scale_floor u128_to_u64
min_lp_amount_out_bounds_example =
    min_lp_amount_out_bounds chain 100 accounts 1500 1000 30 (omega arith) (omega arith)
      (omega arith) refl 19 refl

lp_amount_in_bounds_example :
    (30 * 1000 * 101 ≤ 21 * 1500 * 100) × (21 * 1500 * 100 < 30 * 1000 * 101 + 201 * 1500)
unfolding zeros to_le_bytes from_le_bytes read_mint_supply read_u64 lp_amount_in usdc_to_lp_ceil
    apply_bps_ceil scale_ceil u128_to_u64
lp_amount_in_bounds_example =
    lp_amount_in_bounds chain 100 accounts 1500 1000 30 (omega arith) (omega arith) (omega arith)
      refl 21 refl

deposit_30 :
    deposit pool_pda chain accounts 30 100
    ≡ ok (position 130 120 180, 120, jupiter_lp_deposit 40 6 30 120 20 180)
unfolding deposit digest zeros to_le_bytes from_le_bytes check_written_position validate_common
    validate_deposit_accounts validate_protocol_program validate_jupiter_pdas validate_token_program
    validate_static_position_accounts validate_token_account validate_jlp_mint
    validate_custody_basic validate_custody_accounts validate_perpetuals pool_aum read_pool_aum
    add_liquidity_call value_of min_lp_amount_out read_token_amount read_mint_supply scan_keys
    read_pool_aum_with_custody lp_to_usdc_floor usdc_to_lp_floor apply_bps_floor scale_floor
    u128_to_u64 read_pubkey read_u32 read_u64 read_u128 index
deposit_30 = refl

deposit_jupiter_iff_example :
    (deposit pool_pda chain accounts 30 100
      ≡ ok (position 130 120 180, 120, jupiter_lp_deposit 40 6 30 120 20 180))
    ↔ ((0 < 30)
        × Entitled pool_pda accounts
        × Writable accounts
        × ((aum : ℕ) × Linked pool_pda chain 100 accounts aum
            × Deposited pool_pda chain accounts 30 100 120
                (position 130 120 180)
                (jupiter_lp_deposit 40 6 30 120 20 180)
                aum))
deposit_jupiter_iff_example =
    deposit_jupiter_iff pool_pda chain accounts 30 100 120 (position 130 120 180)
      (jupiter_lp_deposit 40 6 30 120 20 180)

withdraw_30 :
    withdraw pool_pda chain accounts 30 100
    ≡ ok (position 70 79 118, 79, jupiter_lp_withdraw 40 6 30 79 21 118)
unfolding withdraw digest zeros to_le_bytes from_le_bytes check_written_position validate_common
    validate_withdraw_accounts validate_protocol_program validate_jupiter_pdas
    validate_token_program validate_static_position_accounts validate_token_account
    validate_jlp_mint validate_custody_basic validate_custody_accounts validate_perpetuals pool_aum
    read_pool_aum remove_liquidity_call value_of lp_amount_in read_token_amount read_mint_supply
    scan_keys read_pool_aum_with_custody lp_to_usdc_floor usdc_to_lp_ceil apply_bps_ceil scale_ceil
    u128_to_u64 read_pubkey read_u32 read_u64 read_u128 index
withdraw_30 = refl

withdraw_jupiter_iff_example :
    (withdraw pool_pda chain accounts 30 100
      ≡ ok (position 70 79 118, 79, jupiter_lp_withdraw 40 6 30 79 21 118))
    ↔ ((0 < 30)
        × Entitled pool_pda accounts
        × Writable accounts
        × ((aum : ℕ) × Linked pool_pda chain 100 accounts aum
            × Withdrawn pool_pda chain accounts 30 100 79
                (position 70 79 118)
                (jupiter_lp_withdraw 40 6 30 79 21 118)
                aum))
withdraw_jupiter_iff_example =
    withdraw_jupiter_iff pool_pda chain accounts 30 100 79 (position 70 79 118)
      (jupiter_lp_withdraw 40 6 30 79 21 118)
