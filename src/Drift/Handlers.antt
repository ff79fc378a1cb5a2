-- ===== src/Drift/Handlers.antt =====
-- The instruction handlers of the Drift adapter (programs/adapters/drift-insurance-fund/src/lib.rs,
-- `mod drift_insurance_fund`), behind the checks of their accounts. The state of the chain is
-- passed on from call to call; an instruction that fails leaves it as it was.
use sol_yield.Base.{ℕ, Bool, not, ◌==◌, List}
use sol_yield.Base.Bytes.{to_le_bytes}
use sol_yield.Base.Result.{
  Result, ok, account_already_in_use, require, constrain, ok_or, ◌>>=◌, ◌>>◌,
}
use sol_yield.Base.Word.{checked_add}
use sol_yield.Solana.Account.{Pubkey, default_pubkey, Signer, Account, AccountRef}
use sol_yield.Solana.Chain.{Chain}
use sol_yield.Solana.Pda.{Pda, constrain_seeds, constrain_init, constrain_mut, constrain_signer}
use sol_yield.Drift.Types.{
  drift_insurance_fund_id, DriftInsuranceFundConfig, DriftInsuranceFundPosition,
  DriftInsuranceFundEvent, config_initialized, drift_insurance_fund_deposit,
  drift_insurance_fund_withdraw, drift_insurance_fund_value, DriftInsuranceFundError, invalid_mint,
  invalid_protocol_program, invalid_insurance_fund_stake, invalid_user_stats, protocol_cpi_failed,
  math_overflow, config_seeds, position_seeds, derive_insurance_fund_stake, derive_user_stats,
  DriftAccounts,
}
use sol_yield.Drift.Stake.{u128_to_u64, read_drift_if_value}
use sol_yield.Drift.Calls.{add_stake_call, request_remove_call}
use sol_yield.Drift.Validate.{
  validate_common, validate_owner_and_mint, validate_deposit_accounts, validate_withdraw_accounts,
  validate_value_accounts,
}

-- The accounts of the two instructions that create an account: its address, the bump that the
-- framework found, and whether the address is still free.
pub record InitializeConfig : Type 0 where
  pub config : AccountRef
  pub config_bump : ℕ
  pub config_free : Bool
  pub authority : Signer

pub record InitializePosition : Type 0 where
  pub config : Account DriftInsuranceFundConfig
  pub position : AccountRef
  pub position_bump : ℕ
  pub position_free : Bool
  pub owner : Signer

module _ {ℓ} {S : Type ℓ} (chain : Chain S) where
  -- The shares of the stake and its value, from the three accounts.
  unfoldable pub read_position : DriftAccounts → S → Result DriftInsuranceFundError (ℕ × ℕ)
  read_position ctx s =
      read_drift_if_value (chain.account_bytes s ctx.insurance_fund_stake.key)
        (chain.account_bytes s ctx.spot_market.key)
        (chain.account_bytes s ctx.insurance_fund_vault.key)

module _ (pda : Pda) where
  unfoldable pub initialize_config :
      InitializeConfig
      → Pubkey
      → Pubkey
      → ℕ
      → Result DriftInsuranceFundError (DriftInsuranceFundConfig × DriftInsuranceFundEvent)
  unfolding constrain_init
  initialize_config ctx supported_mint protocol_program_id version = do
    constrain_signer ctx.authority
    constrain_init pda (config_seeds supported_mint version) drift_insurance_fund_id ctx.config.key
    constrain ctx.config_free account_already_in_use
    constrain_mut ctx.config.is_writable
    constrain_mut ctx.authority.is_writable
    require (not (supported_mint == default_pubkey)) invalid_mint
    require (not (protocol_program_id == default_pubkey)) invalid_protocol_program
    ok (
      record {
        authority = ctx.authority.key;
        supported_mint = supported_mint;
        protocol_program_id = protocol_program_id;
        version = version;
        bump = ctx.config_bump;
      },
      config_initialized ctx.authority.key supported_mint protocol_program_id version,
    )

  -- `seeds` and `bump` of `config`
  unfoldable pub check_config :
      Account DriftInsuranceFundConfig → Result DriftInsuranceFundError (Unit {0})
  unfolding constrain_seeds
  check_config config =
      constrain_seeds pda (config_seeds config.state.supported_mint config.state.version)
        config.state.bump drift_insurance_fund_id config.key

  unfoldable pub initialize_position :
      InitializePosition
      → ℕ
      → Pubkey
      → Pubkey
      → Result DriftInsuranceFundError DriftInsuranceFundPosition
  unfolding check_config constrain_init
  initialize_position ctx market_index insurance_fund_stake user_stats = do
    constrain_signer ctx.owner
    constrain_init pda (position_seeds ctx.config.key ctx.owner.key) drift_insurance_fund_id
        ctx.position.key
    constrain ctx.position_free account_already_in_use
    constrain_mut ctx.position.is_writable
    check_config ctx.config
    constrain_mut ctx.owner.is_writable
    let expected_stake =
        derive_insurance_fund_stake pda ctx.config.state.protocol_program_id ctx.owner.key
          market_index
    let expected_user_stats =
        derive_user_stats pda ctx.config.state.protocol_program_id ctx.owner.key
    require (insurance_fund_stake == expected_stake) invalid_insurance_fund_stake
    require (user_stats == expected_user_stats) invalid_user_stats
    ok (record {
      owner = ctx.owner.key;
      insurance_fund_stake = insurance_fund_stake;
      user_stats = user_stats;
      market_index = market_index;
      deposited_amount = 0;
      shares = 0;
      last_value = 0;
      pending_withdraw_amount = 0;
      bump = ctx.position_bump;
    })

  -- the checks of `CurrentValue`
  unfoldable pub check_position : DriftAccounts → Result DriftInsuranceFundError (Unit {0})
  unfolding check_config constrain_seeds
  check_position ctx = do
    constrain_signer ctx.owner
    check_config ctx.config
    constrain_seeds pda (position_seeds ctx.config.key ctx.position.state.owner)
        ctx.position.state.bump drift_insurance_fund_id ctx.position.key

  -- the checks of `Withdraw`, which writes the position and four more accounts
  unfoldable pub check_written_position : DriftAccounts → Result DriftInsuranceFundError (Unit {0})
  unfolding check_position
  check_written_position ctx = do
    check_position ctx
    constrain_mut ctx.position.is_writable
    constrain_mut ctx.spot_market.is_writable
    constrain_mut ctx.insurance_fund_stake.is_writable
    constrain_mut ctx.user_stats.is_writable
    constrain_mut ctx.insurance_fund_vault.is_writable

  -- the checks of `Deposit`, which writes the market's vault and the user's tokens too
  unfoldable pub check_written_vaults : DriftAccounts → Result DriftInsuranceFundError (Unit {0})
  unfolding check_written_position
  check_written_vaults ctx = do
    check_written_position ctx
    constrain_mut ctx.spot_market_vault.is_writable
    constrain_mut ctx.user_token_account.is_writable

  module _ {ℓ} {S : Type ℓ} (chain : Chain S) where
    unfoldable pub deposit :
        DriftAccounts
        → ℕ
        → S
        → Result DriftInsuranceFundError (DriftInsuranceFundPosition × S × DriftInsuranceFundEvent)
    deposit ctx amount s = do
      check_written_vaults ctx
      validate_common ctx.config.state ctx.position.state ctx.owner.key ctx.mint amount
      validate_deposit_accounts pda chain s ctx
      s' ←
          ok_or (chain.invoke (add_stake_call ctx amount).0 (add_stake_call ctx amount).1 s)
            protocol_cpi_failed
      (shares, value) ← read_position chain ctx s'
      let position = ctx.position.state
      deposited_amount ← ok_or (checked_add 64 position.deposited_amount amount) math_overflow
      shares' ← u128_to_u64 shares
      ok (
        record position {
          deposited_amount = deposited_amount;
          shares = shares';
          last_value = value;
          pending_withdraw_amount = 0;
        },
        s',
        drift_insurance_fund_deposit position.owner ctx.config.state.supported_mint amount shares'
            value,
      )

    unfoldable pub withdraw :
        DriftAccounts
        → ℕ
        → S
        → Result DriftInsuranceFundError (DriftInsuranceFundPosition × S × DriftInsuranceFundEvent)
    withdraw ctx amount s = do
      check_written_position ctx
      validate_common ctx.config.state ctx.position.state ctx.owner.key ctx.mint amount
      validate_withdraw_accounts pda chain s ctx
      s' ←
          ok_or
            (chain.invoke (request_remove_call ctx amount).0 (request_remove_call ctx amount).1 s)
            protocol_cpi_failed
      (shares, value) ← read_position chain ctx s'
      let position = ctx.position.state
      shares' ← u128_to_u64 shares
      ok (
        record position { shares = shares'; last_value = value; pending_withdraw_amount = amount },
        s',
        drift_insurance_fund_withdraw position.owner ctx.config.state.supported_mint amount shares'
            value,
      )

    -- The bytes are those of `set_return_data`.
    unfoldable pub current_value :
        DriftAccounts → S → Result DriftInsuranceFundError (List ℕ × DriftInsuranceFundEvent)
    current_value ctx s = do
      check_position ctx
      validate_owner_and_mint ctx.config.state ctx.position.state ctx.owner.key ctx.mint
      validate_value_accounts pda chain s ctx
      (shares, value) ← read_position chain ctx s
      shares' ← u128_to_u64 shares
      ok (
        to_le_bytes 8 value,
        drift_insurance_fund_value ctx.position.state.owner ctx.config.state.supported_mint shares'
            value,
      )
