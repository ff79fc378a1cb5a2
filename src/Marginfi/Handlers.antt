-- ===== src/Marginfi/Handlers.antt =====
-- The instruction handlers of the MarginFi adapter (programs/adapters/marginfi-usdc/src/lib.rs,
-- `mod marginfi_usdc`), behind the checks of their accounts. The state of the chain is passed on
-- from call to call; an instruction that fails leaves it as it was.
use sol_yield.Base.{ℕ, Bool, not, ◌==◌, List}
use sol_yield.Base.Bytes.{to_le_bytes}
use sol_yield.Base.Result.{
  Result, ok, account_already_in_use, require, constrain, ok_or, ◌>>=◌, ◌>>◌,
}
use sol_yield.Base.Word.{checked_add, saturating_sub}
use sol_yield.Solana.Account.{Pubkey, default_pubkey, Signer, Account, AccountRef}
use sol_yield.Solana.Chain.{Chain}
use sol_yield.Solana.Pda.{Pda, constrain_seeds, constrain_init, constrain_mut, constrain_signer}
use sol_yield.Marginfi.Types.{
  marginfi_usdc_id, MarginfiUsdcConfig, MarginfiUsdcPosition, MarginfiUsdcEvent, config_initialized,
  marginfi_usdc_deposit, marginfi_usdc_withdraw, marginfi_usdc_value, MarginfiUsdcError,
  invalid_mint, invalid_protocol_program, invalid_marginfi_account, invalid_bank,
  protocol_cpi_failed, math_overflow, config_seeds, position_seeds, MarginfiAccounts,
}
use sol_yield.Marginfi.Fixed.{read_marginfi_position}
use sol_yield.Marginfi.Calls.{deposit_call, withdraw_call}
use sol_yield.Marginfi.Validate.{
  validate_common, validate_owner_and_mint, validate_deposit_accounts, validate_withdraw_accounts,
  validate_value_accounts,
}

-- The accounts of the two instructions that create an account: its address, the bump that the
-- framework found, and whether the address is still free.
pub record InitializeConfig : Type 0 where
  pub config : AccountRef
  pub config_bump : ℕ
  pub config_free : Bool
  pub authority : Signer

pub record InitializePosition : Type 0 where
  pub config : Account MarginfiUsdcConfig
  pub position : AccountRef
  pub position_bump : ℕ
  pub position_free : Bool
  pub owner : Signer

module _ {ℓ} {S : Type ℓ} (chain : Chain S) where
  -- the position as account and bank show it
  abbrev pub read_position : MarginfiAccounts → S → Result MarginfiUsdcError (ℕ × ℕ)
  read_position ctx s =
      read_marginfi_position (chain.account_bytes s ctx.marginfi_account.key)
        (chain.account_bytes s ctx.marginfi_bank.key) ctx.marginfi_bank.key

module _ (pda : Pda) where
  unfoldable pub initialize_config :
      InitializeConfig
      → Pubkey
      → Pubkey
      → ℕ
      → Result MarginfiUsdcError (MarginfiUsdcConfig × MarginfiUsdcEvent)
  unfolding constrain_init
  initialize_config ctx supported_mint protocol_program_id version = do
    constrain_signer ctx.authority
    constrain_init pda (config_seeds supported_mint version) marginfi_usdc_id ctx.config.key
    constrain ctx.config_free account_already_in_use
    constrain_mut ctx.config.is_writable
    constrain_mut ctx.authority.is_writable
    require (not (supported_mint == default_pubkey)) invalid_mint
    require (not (protocol_program_id == default_pubkey)) invalid_protocol_program
    ok (
      record {
        authority = ctx.authority.key;
        supported_mint = supported_mint;
        protocol_program_id = protocol_program_id;
        version = version;
        bump = ctx.config_bump;
      },
      config_initialized ctx.authority.key supported_mint protocol_program_id version,
    )

  -- `seeds` and `bump` of `config`
  unfoldable pub check_config : Account MarginfiUsdcConfig → Result MarginfiUsdcError (Unit {0})
  unfolding constrain_seeds
  check_config config =
      constrain_seeds pda (config_seeds config.state.supported_mint config.state.version)
        config.state.bump marginfi_usdc_id config.key

  unfoldable pub initialize_position :
      InitializePosition → Pubkey → Pubkey → Result MarginfiUsdcError MarginfiUsdcPosition
  unfolding check_config constrain_init
  initialize_position ctx marginfi_account marginfi_bank = do
    constrain_signer ctx.owner
    constrain_init pda (position_seeds ctx.config.key ctx.owner.key) marginfi_usdc_id
        ctx.position.key
    constrain ctx.position_free account_already_in_use
    constrain_mut ctx.position.is_writable
    check_config ctx.config
    constrain_mut ctx.owner.is_writable
    require (not (marginfi_account == default_pubkey)) invalid_marginfi_account
    require (not (marginfi_bank == default_pubkey)) invalid_bank
    ok (record {
      owner = ctx.owner.key;
      marginfi_account = marginfi_account;
      marginfi_bank = marginfi_bank;
      deposited_amount = 0;
      shares = 0;
      last_value = 0;
      bump = ctx.position_bump;
    })

  -- the checks of `CurrentValue`
  unfoldable pub check_position : MarginfiAccounts → Result MarginfiUsdcError (Unit {0})
  unfolding check_config constrain_seeds
  check_position ctx = do
    constrain_signer ctx.owner
    check_config ctx.config
    constrain_seeds pda (position_seeds ctx.config.key ctx.position.state.owner)
        ctx.position.state.bump marginfi_usdc_id ctx.position.key

  -- the checks of `Deposit` and `Withdraw`, which write the position and four more accounts
  unfoldable pub check_written_position : MarginfiAccounts → Result MarginfiUsdcError (Unit {0})
  unfolding check_position
  check_written_position ctx = do
    check_position ctx
    constrain_mut ctx.position.is_writable
    constrain_mut ctx.marginfi_account.is_writable
    constrain_mut ctx.marginfi_bank.is_writable
    constrain_mut ctx.owner_token_account.is_writable
    constrain_mut ctx.liquidity_vault.is_writable

  module _ {ℓ} {S : Type ℓ} (chain : Chain S) where
    unfoldable pub deposit :
        MarginfiAccounts
        → ℕ
        → S
        → Result MarginfiUsdcError (MarginfiUsdcPosition × S × MarginfiUsdcEvent)
    deposit ctx amount s = do
      check_written_position ctx
      validate_common ctx.config.state ctx.position.state ctx.owner.key ctx.mint amount
      validate_deposit_accounts pda chain s ctx
      s' ←
          ok_or (chain.invoke (deposit_call ctx amount).0 (deposit_call ctx amount).1 s)
            protocol_cpi_failed
      (shares, value) ← read_position chain ctx s'
      let position = ctx.position.state
      deposited_amount ← ok_or (checked_add 64 position.deposited_amount amount) math_overflow
      ok (
        record position {
          deposited_amount = deposited_amount;
          shares = shares;
          last_value = value;
        },
        s',
        marginfi_usdc_deposit position.owner ctx.config.state.supported_mint amount shares value,
      )

    unfoldable pub withdraw :
        MarginfiAccounts
        → ℕ
        → S
        → Result MarginfiUsdcError (MarginfiUsdcPosition × S × MarginfiUsdcEvent)
    withdraw ctx amount s = do
      check_written_position ctx
      validate_common ctx.config.state ctx.position.state ctx.owner.key ctx.mint amount
      validate_withdraw_accounts pda chain s ctx
      s' ←
          ok_or (chain.invoke (withdraw_call ctx amount).0 (withdraw_call ctx amount).1 s)
            protocol_cpi_failed
      (shares, value) ← read_position chain ctx s'
      let position = ctx.position.state
      ok (
        record position {
          deposited_amount = saturating_sub position.deposited_amount amount;
          shares = shares;
          last_value = value;
        },
        s',
        marginfi_usdc_withdraw position.owner ctx.config.state.supported_mint amount shares value,
      )

    -- The bytes are those of `set_return_data`.
    unfoldable pub current_value :
        MarginfiAccounts → S → Result MarginfiUsdcError (List ℕ × MarginfiUsdcEvent)
    current_value ctx s = do
      check_position ctx
      validate_owner_and_mint ctx.config.state ctx.position.state ctx.owner.key ctx.mint
      validate_value_accounts pda chain s ctx
      (shares, value) ← read_position chain ctx s
      ok (
        to_le_bytes 8 value,
        marginfi_usdc_value ctx.position.state.owner ctx.config.state.supported_mint value,
      )
