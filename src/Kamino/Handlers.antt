-- ===== src/Kamino/Handlers.antt =====
-- The instruction handlers of the Kamino adapter (programs/adapters/kamino-usdc/src/lib.rs,
-- `mod kamino_usdc`), behind the checks of their accounts. The state of the chain is passed on
-- from call to call; an instruction that fails leaves it as it was.
use sol_yield.Base.{ℕ, Bool, not, ◌==◌, List}
use sol_yield.Base.Bytes.{to_le_bytes}
use sol_yield.Base.Result.{
  Result, ok, account_already_in_use, require, constrain, ok_or, ◌>>=◌, ◌>>◌,
}
use sol_yield.Base.Word.{checked_add, saturating_sub}
use sol_yield.Solana.Account.{Pubkey, default_pubkey, Signer, Account, AccountRef}
use sol_yield.Solana.Chain.{Chain}
use sol_yield.Solana.Pda.{Pda, constrain_seeds, constrain_init, constrain_mut, constrain_signer}
use sol_yield.Kamino.Types.{
  kamino_usdc_id, KaminoUsdcConfig, KaminoUsdcPosition, KaminoUsdcEvent, config_initialized,
  kamino_usdc_deposit, kamino_usdc_withdraw, kamino_usdc_value, KaminoUsdcError, invalid_mint,
  invalid_protocol_program, invalid_reserve, invalid_token_account, protocol_cpi_failed,
  math_overflow, config_seeds, position_seeds, KaminoAccounts,
}
use sol_yield.Kamino.Reserve.{read_reserve_fields}
use sol_yield.Kamino.Exchange.{collateral_to_liquidity, liquidity_to_collateral_ceil}
use sol_yield.Kamino.Calls.{deposit_call, redeem_call}
use sol_yield.Kamino.Validate.{
  validate_common, validate_owner_and_mint, validate_deposit_accounts, validate_withdraw_accounts,
  validate_value_accounts, read_token_amount,
}

-- The accounts of the two instructions that create an account: its address, the bump that the
-- framework found, and whether the address is still free.
pub record InitializeConfig : Type 0 where
  pub config : AccountRef
  pub config_bump : ℕ
  pub config_free : Bool
  pub authority : Signer

pub record InitializePosition : Type 0 where
  pub config : Account KaminoUsdcConfig
  pub position : AccountRef
  pub position_bump : ℕ
  pub position_free : Bool
  pub owner : Signer

module _ {ℓ} {S : Type ℓ} (chain : Chain S) where
  -- The collateral that the user holds after a call, and its value at the reserve's new rate.
  unfoldable pub read_position : KaminoAccounts → S → Result KaminoUsdcError (ℕ × ℕ)
  read_position ctx s = do
    fields ← read_reserve_fields (chain.account_bytes s ctx.reserve.key)
    shares ← read_token_amount chain s ctx.user_collateral.key
    value ← collateral_to_liquidity shares fields
    ok (shares, value)

module _ (pda : Pda) where
  unfoldable pub initialize_config :
      InitializeConfig
      → Pubkey
      → Pubkey
      → ℕ
      → Result KaminoUsdcError (KaminoUsdcConfig × KaminoUsdcEvent)
  unfolding constrain_init
  initialize_config ctx supported_mint protocol_program_id version = do
    constrain_signer ctx.authority
    constrain_init pda (config_seeds supported_mint version) kamino_usdc_id ctx.config.key
    constrain ctx.config_free account_already_in_use
    constrain_mut ctx.config.is_writable
    constrain_mut ctx.authority.is_writable
    require (not (supported_mint == default_pubkey)) invalid_mint
    require (not (protocol_program_id == default_pubkey)) invalid_protocol_program
    ok (
      record {
        authority = ctx.authority.key;
        supported_mint = supported_mint;
        protocol_program_id = protocol_program_id;
        version = version;
        bump = ctx.config_bump;
      },
      config_initialized ctx.authority.key supported_mint protocol_program_id version,
    )

  -- `seeds` and `bump` of `config`
  unfoldable pub check_config : Account KaminoUsdcConfig → Result KaminoUsdcError (Unit {0})
  unfolding constrain_seeds
  check_config config =
      constrain_seeds pda (config_seeds config.state.supported_mint config.state.version)
        config.state.bump kamino_usdc_id config.key

  unfoldable pub initialize_position :
      InitializePosition → Pubkey → Pubkey → Result KaminoUsdcError KaminoUsdcPosition
  unfolding check_config constrain_init
  initialize_position ctx reserve collateral_token_account = do
    constrain_signer ctx.owner
    constrain_init pda (position_seeds ctx.config.key ctx.owner.key) kamino_usdc_id ctx.position.key
    constrain ctx.position_free account_already_in_use
    constrain_mut ctx.position.is_writable
    check_config ctx.config
    constrain_mut ctx.owner.is_writable
    require (not (reserve == default_pubkey)) invalid_reserve
    require (not (collateral_token_account == default_pubkey)) invalid_token_account
    ok (record {
      owner = ctx.owner.key;
      reserve = reserve;
      collateral_token_account = collateral_token_account;
      deposited_amount = 0;
      shares = 0;
      last_value = 0;
      bump = ctx.position_bump;
    })

  -- the checks of `CurrentValue`
  unfoldable pub check_position : KaminoAccounts → Result KaminoUsdcError (Unit {0})
  unfolding check_config constrain_seeds
  check_position ctx = do
    constrain_signer ctx.owner
    check_config ctx.config
    constrain_seeds pda (position_seeds ctx.config.key ctx.position.state.owner)
        ctx.position.state.bump kamino_usdc_id ctx.position.key

  -- the checks of `Deposit` and `Withdraw`, which write the position and five more accounts
  unfoldable pub check_written_position : KaminoAccounts → Result KaminoUsdcError (Unit {0})
  unfolding check_position
  check_written_position ctx = do
    check_position ctx
    constrain_mut ctx.position.is_writable
    constrain_mut ctx.reserve.is_writable
    constrain_mut ctx.reserve_liquidity_supply.is_writable
    constrain_mut ctx.reserve_collateral_mint.is_writable
    constrain_mut ctx.user_liquidity.is_writable
    constrain_mut ctx.user_collateral.is_writable

  module _ {ℓ} {S : Type ℓ} (instructions_sysvar_id : Pubkey) (chain : Chain S) where
    unfoldable pub deposit :
        KaminoAccounts → ℕ → S → Result KaminoUsdcError (KaminoUsdcPosition × S × KaminoUsdcEvent)
    deposit ctx amount s = do
      check_written_position ctx
      validate_common ctx.config.state ctx.position.state ctx.owner.key ctx.mint amount
      reserve_fields ← validate_deposit_accounts pda instructions_sysvar_id chain s ctx
      s' ←
          ok_or (chain.invoke (deposit_call ctx amount).0 (deposit_call ctx amount).1 s)
            protocol_cpi_failed
      (shares, value) ← read_position chain ctx s'
      let position = ctx.position.state
      deposited_amount ← ok_or (checked_add 64 position.deposited_amount amount) math_overflow
      ok (
        record position {
          deposited_amount = deposited_amount;
          shares = shares;
          last_value = value;
        },
        s',
        kamino_usdc_deposit position.owner ctx.config.state.supported_mint amount shares value,
      )

    unfoldable pub withdraw :
        KaminoAccounts → ℕ → S → Result KaminoUsdcError (KaminoUsdcPosition × S × KaminoUsdcEvent)
    withdraw ctx amount s = do
      check_written_position ctx
      validate_common ctx.config.state ctx.position.state ctx.owner.key ctx.mint amount
      reserve_fields ← validate_withdraw_accounts pda instructions_sysvar_id chain s ctx
      collateral_amount ← liquidity_to_collateral_ceil amount reserve_fields
      s' ←
          ok_or
            (chain.invoke (redeem_call ctx collateral_amount).0
              (redeem_call ctx collateral_amount).1 s)
            protocol_cpi_failed
      (shares, value) ← read_position chain ctx s'
      let position = ctx.position.state
      ok (
        record position {
          deposited_amount = saturating_sub position.deposited_amount amount;
          shares = shares;
          last_value = value;
        },
        s',
        kamino_usdc_withdraw position.owner ctx.config.state.supported_mint amount shares value,
      )

  -- The bytes are those of `set_return_data`.
  unfoldable pub current_value {ℓ} :
      {S : Type ℓ}
      → Chain S
      → KaminoAccounts
      → S
      → Result KaminoUsdcError (List ℕ × KaminoUsdcEvent)
  current_value chain ctx s = do
    check_position ctx
    validate_owner_and_mint ctx.config.state ctx.position.state ctx.owner.key ctx.mint
    reserve_fields ← validate_value_accounts chain s ctx
    shares ← read_token_amount chain s ctx.user_collateral.key
    value ← collateral_to_liquidity shares reserve_fields
    ok (
      to_le_bytes 8 value,
      kamino_usdc_value ctx.position.state.owner ctx.config.state.supported_mint shares value,
    )
