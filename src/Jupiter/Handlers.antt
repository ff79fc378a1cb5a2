-- ===== src/Jupiter/Handlers.antt =====
-- The instruction handlers of the Jupiter adapter (programs/adapters/jupiter-lp/src/lib.rs,
-- `mod jupiter_lp`), behind the checks of their accounts. The state of the chain is passed on
-- from call to call; an instruction that fails leaves it as it was.
use sol_yield.Base.{ℕ, Bool, not, leb, ◌==◌, List}
use sol_yield.Base.Bytes.{to_le_bytes}
use sol_yield.Base.Result.{
  Result, ok, account_already_in_use, require, constrain, ok_or, ◌>>=◌, ◌>>◌,
}
use sol_yield.Base.Word.{checked_add, checked_sub, saturating_sub}
use sol_yield.Solana.Account.{Pubkey, default_pubkey, Signer, Account, AccountRef}
use sol_yield.Solana.Chain.{Chain}
use sol_yield.Solana.Pda.{Pda, constrain_seeds, constrain_init, constrain_mut, constrain_signer}
use sol_yield.Jupiter.Types.{
  jupiter_lp_id, JupiterLpConfig, JupiterLpPosition, JupiterLpEvent, config_initialized,
  jupiter_lp_deposit, jupiter_lp_withdraw, jupiter_lp_value, JupiterLpError, invalid_amount,
  invalid_mint, invalid_protocol_program, invalid_pool, invalid_custody, invalid_token_account,
  protocol_cpi_failed, math_overflow, deposit_min_out_bps, withdraw_burn_buffer_bps, config_seeds,
  position_seeds, JupiterAccounts,
}
use sol_yield.Jupiter.Pool.{read_token_amount, read_mint_supply}
use sol_yield.Jupiter.Quote.{
  lp_to_usdc_floor, usdc_to_lp_floor, usdc_to_lp_ceil, apply_bps_floor, apply_bps_ceil,
}
use sol_yield.Jupiter.Calls.{add_liquidity_call, remove_liquidity_call}
use sol_yield.Jupiter.Validate.{
  validate_common, validate_owner_and_mint, validate_deposit_accounts, validate_withdraw_accounts,
  validate_value_accounts, read_pool_aum,
}

-- The accounts of the two instructions that create an account: its address, the bump that the
-- framework found, and whether the address is still free.
pub record InitializeConfig : Type 0 where
  pub config : AccountRef
  pub config_bump : ℕ
  pub config_free : Bool
  pub authority : Signer

pub record InitializePosition : Type 0 where
  pub config : Account JupiterLpConfig
  pub position : AccountRef
  pub position_bump : ℕ
  pub position_free : Bool
  pub owner : Signer

module _ {ℓ} {S : Type ℓ} (chain : Chain S) (s : S) (ctx : JupiterAccounts) where
  abbrev pub lp_supply : Result JupiterLpError ℕ
  lp_supply = read_mint_supply (chain.account_bytes s ctx.lp_token_mint.key)

  abbrev pub held_shares : Result JupiterLpError ℕ
  held_shares = read_token_amount (chain.account_bytes s ctx.lp_token_account.key)

  -- What an amount of LP tokens is worth at the pool's present rate.
  unfoldable pub value_of : ℕ → Result JupiterLpError ℕ
  value_of shares = do
    aum ← read_pool_aum chain s ctx.pool.key
    supply ← lp_supply
    lp_to_usdc_floor shares aum supply

  -- The least amount of LP tokens that a deposit accepts, from the assets of the pool.
  unfoldable pub min_lp_amount_out : ℕ → ℕ → Result JupiterLpError ℕ
  min_lp_amount_out aum amount = do
    supply ← lp_supply
    quoted_lp ← usdc_to_lp_floor amount aum supply
    apply_bps_floor quoted_lp deposit_min_out_bps

  -- The LP tokens that a withdrawal burns, from the assets of the pool.
  unfoldable pub lp_amount_in : ℕ → ℕ → Result JupiterLpError ℕ
  lp_amount_in aum amount = do
    supply ← lp_supply
    base_lp_amount ← usdc_to_lp_ceil amount aum supply
    apply_bps_ceil base_lp_amount withdraw_burn_buffer_bps

module _ (pda : Pda) where
  unfoldable pub initialize_config :
      InitializeConfig
      → Pubkey
      → Pubkey
      → ℕ
      → Result JupiterLpError (JupiterLpConfig × JupiterLpEvent)
  unfolding constrain_init
  initialize_config ctx supported_mint protocol_program_id version = do
    constrain_signer ctx.authority
    constrain_init pda (config_seeds supported_mint version) jupiter_lp_id ctx.config.key
    constrain ctx.config_free account_already_in_use
    constrain_mut ctx.config.is_writable
    constrain_mut ctx.authority.is_writable
    require (not (supported_mint == default_pubkey)) invalid_mint
    require (not (protocol_program_id == default_pubkey)) invalid_protocol_program
    ok (
      record {
        authority = ctx.authority.key;
        supported_mint = supported_mint;
        protocol_program_id = protocol_program_id;
        version = version;
        bump = ctx.config_bump;
      },
      config_initialized ctx.authority.key supported_mint protocol_program_id version,
    )

  -- `seeds` and `bump` of `config`
  unfoldable pub check_config : Account JupiterLpConfig → Result JupiterLpError (Unit {0})
  unfolding constrain_seeds
  check_config config =
      constrain_seeds pda (config_seeds config.state.supported_mint config.state.version)
        config.state.bump jupiter_lp_id config.key

  unfoldable pub initialize_position :
      InitializePosition → Pubkey → Pubkey → Pubkey → Result JupiterLpError JupiterLpPosition
  unfolding check_config constrain_init
  initialize_position ctx pool custody lp_token_account = do
    constrain_signer ctx.owner
    constrain_init pda (position_seeds ctx.config.key ctx.owner.key) jupiter_lp_id ctx.position.key
    constrain ctx.position_free account_already_in_use
    constrain_mut ctx.position.is_writable
    check_config ctx.config
    constrain_mut ctx.owner.is_writable
    require (not (pool == default_pubkey)) invalid_pool
    require (not (custody == default_pubkey)) invalid_custody
    require (not (lp_token_account == default_pubkey)) invalid_token_account
    ok (record {
      owner = ctx.owner.key;
      pool = pool;
      custody = custody;
      lp_token_account = lp_token_account;
      deposited_amount = 0;
      shares = 0;
      last_value = 0;
      bump = ctx.position_bump;
    })

  -- the checks of `CurrentValue`
  unfoldable pub check_position : JupiterAccounts → Result JupiterLpError (Unit {0})
  unfolding check_config constrain_seeds
  check_position ctx = do
    constrain_signer ctx.owner
    check_config ctx.config
    constrain_seeds pda (position_seeds ctx.config.key ctx.position.state.owner)
        ctx.position.state.bump jupiter_lp_id ctx.position.key

  -- the checks of `Deposit` and `Withdraw`, which write the position and six more accounts
  unfoldable pub check_written_position : JupiterAccounts → Result JupiterLpError (Unit {0})
  unfolding check_position
  check_written_position ctx = do
    check_position ctx
    constrain_mut ctx.position.is_writable
    constrain_mut ctx.user_token_account.is_writable
    constrain_mut ctx.lp_token_account.is_writable
    constrain_mut ctx.pool.is_writable
    constrain_mut ctx.custody.is_writable
    constrain_mut ctx.custody_token_account.is_writable
    constrain_mut ctx.lp_token_mint.is_writable

  module _ {ℓ} {S : Type ℓ} (chain : Chain S) where
    unfoldable pub deposit :
        JupiterAccounts → ℕ → S → Result JupiterLpError (JupiterLpPosition × S × JupiterLpEvent)
    deposit ctx amount s = do
      check_written_position ctx
      validate_common ctx.config.state ctx.position.state ctx.owner.key ctx.mint amount
      aum ← validate_deposit_accounts pda chain s ctx
      least ← min_lp_amount_out chain s ctx aum amount
      before_shares ← held_shares chain s ctx
      s' ←
          ok_or
            (chain.invoke (add_liquidity_call ctx amount least).0
              (add_liquidity_call ctx amount least).1 s)
            protocol_cpi_failed
      shares ← held_shares chain s' ctx
      require (leb before_shares shares) math_overflow
      value ← value_of chain s' ctx shares
      minted_shares ← ok_or (checked_sub shares before_shares) math_overflow
      let position = ctx.position.state
      deposited_amount ← ok_or (checked_add 64 position.deposited_amount amount) math_overflow
      ok (
        record position {
          deposited_amount = deposited_amount;
          shares = shares;
          last_value = value;
        },
        s',
        jupiter_lp_deposit position.owner ctx.config.state.supported_mint amount shares
            minted_shares value,
      )

    unfoldable pub withdraw :
        JupiterAccounts → ℕ → S → Result JupiterLpError (JupiterLpPosition × S × JupiterLpEvent)
    withdraw ctx amount s = do
      check_written_position ctx
      validate_common ctx.config.state ctx.position.state ctx.owner.key ctx.mint amount
      aum ← validate_withdraw_accounts pda chain s ctx
      burned ← lp_amount_in chain s ctx aum amount
      before_shares ← held_shares chain s ctx
      require (leb burned before_shares) invalid_amount
      s' ←
          ok_or
            (chain.invoke (remove_liquidity_call ctx burned amount).0
              (remove_liquidity_call ctx burned amount).1 s)
            protocol_cpi_failed
      shares ← held_shares chain s' ctx
      require (leb shares before_shares) math_overflow
      value ← value_of chain s' ctx shares
      burned_shares ← ok_or (checked_sub before_shares shares) math_overflow
      let position = ctx.position.state
      ok (
        record position {
          deposited_amount = saturating_sub position.deposited_amount amount;
          shares = shares;
          last_value = value;
        },
        s',
        jupiter_lp_withdraw position.owner ctx.config.state.supported_mint amount shares
            burned_shares value,
      )

    -- The bytes are those of `set_return_data`.
    unfoldable pub current_value :
        JupiterAccounts → S → Result JupiterLpError (List ℕ × JupiterLpEvent)
    current_value ctx s = do
      check_position ctx
      validate_owner_and_mint ctx.config.state ctx.position.state ctx.owner.key ctx.mint
      aum ← validate_value_accounts chain s ctx
      shares ← held_shares chain s ctx
      supply ← lp_supply chain s ctx
      value ← lp_to_usdc_floor shares aum supply
      ok (
        to_le_bytes 8 value,
        jupiter_lp_value ctx.position.state.owner ctx.config.state.supported_mint shares value,
      )
