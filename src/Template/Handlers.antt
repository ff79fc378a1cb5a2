-- ===== src/Template/Handlers.antt =====
-- The instruction handlers of the adapter template
-- (programs/adapters/adapter-template/src/lib.rs), behind the checks of their accounts.
use sol_yield.Base.{ℕ, not, ltb, ◌==◌, List}
use sol_yield.Base.Bytes.{to_le_bytes}
use sol_yield.Base.Result.{
  Result, constrain, account_already_in_use, ok, require, ok_or, ◌>>=◌, ◌>>◌,
}
use sol_yield.Base.Word.{checked_add, checked_sub}
use sol_yield.Solana.Account.{Pubkey, default_pubkey, Account}
use sol_yield.Solana.Pda.{Pda, constrain_seeds, constrain_init, constrain_mut, constrain_signer}
use sol_yield.Template.Types.{
  template_id, AdapterConfig, UserPosition, AdapterTemplateError, invalid_amount, invalid_mint,
  invalid_owner, math_overflow, AdapterEvent, adapter_deposit, adapter_withdraw, adapter_value,
  adapter_config_seeds, user_position_seeds, InitializeAdapter, InitializePosition,
  PositionAccounts,
}

unfoldable pub validate_mint : AdapterConfig → Pubkey → Result AdapterTemplateError (Unit {0})
validate_mint adapter_config mint = do
  require (mint == adapter_config.supported_mint) invalid_mint
  ok tt

unfoldable pub validate_owner : UserPosition → Pubkey → Result AdapterTemplateError (Unit {0})
validate_owner user_position owner = do require (owner == user_position.owner) invalid_owner; ok tt

-- The handler bodies, on accounts that the framework has checked.
unfoldable pub deposit :
    PositionAccounts → ℕ → Result AdapterTemplateError (UserPosition × AdapterEvent)
unfolding validate_mint validate_owner
deposit ctx amount = do
  require (ltb 0 amount) invalid_amount
  validate_mint ctx.adapter_config.state ctx.mint
  validate_owner ctx.user_position.state ctx.owner.key
  let user_position = ctx.user_position.state
  deposited_amount ← ok_or (checked_add 64 user_position.deposited_amount amount) math_overflow
  shares ← ok_or (checked_add 64 user_position.shares amount) math_overflow
  ok (
    record user_position {
      deposited_amount = deposited_amount;
      shares = shares;
      last_value = deposited_amount;
    },
    adapter_deposit user_position.owner ctx.adapter_config.state.supported_mint amount shares
        deposited_amount,
  )

unfoldable pub withdraw :
    PositionAccounts → ℕ → Result AdapterTemplateError (UserPosition × AdapterEvent)
unfolding validate_mint validate_owner
withdraw ctx amount = do
  require (ltb 0 amount) invalid_amount
  validate_mint ctx.adapter_config.state ctx.mint
  validate_owner ctx.user_position.state ctx.owner.key
  let user_position = ctx.user_position.state
  deposited_amount ← ok_or (checked_sub user_position.deposited_amount amount) math_overflow
  shares ← ok_or (checked_sub user_position.shares amount) math_overflow
  ok (
    record user_position {
      deposited_amount = deposited_amount;
      shares = shares;
      last_value = deposited_amount;
    },
    adapter_withdraw user_position.owner ctx.adapter_config.state.supported_mint amount shares
        deposited_amount,
  )

-- The bytes are those of `set_return_data`.
unfoldable pub current_value :
    PositionAccounts → Result AdapterTemplateError (List ℕ × AdapterEvent)
unfolding validate_mint validate_owner
current_value ctx = do
  validate_mint ctx.adapter_config.state ctx.mint
  validate_owner ctx.user_position.state ctx.owner.key
  let value = ctx.user_position.state.last_value
  ok (
    to_le_bytes 8 value,
    adapter_value ctx.user_position.state.owner ctx.adapter_config.state.supported_mint value,
  )

module _ (pda : Pda) where
  unfoldable pub initialize_adapter :
      InitializeAdapter → Pubkey → Pubkey → ℕ → Result AdapterTemplateError AdapterConfig
  unfolding constrain_init
  initialize_adapter ctx supported_mint protocol_program_id version = do
    constrain_signer ctx.authority
    constrain_init pda (adapter_config_seeds supported_mint version) template_id
        ctx.adapter_config.key
    constrain ctx.adapter_config_free account_already_in_use
    constrain_mut ctx.adapter_config.is_writable
    constrain_mut ctx.authority.is_writable
    require (not (supported_mint == default_pubkey)) invalid_mint
    ok (record {
      authority = ctx.authority.key;
      supported_mint = supported_mint;
      protocol_program_id = protocol_program_id;
      version = version;
      bump = ctx.adapter_config_bump;
    })

  -- `seeds` and `bump` of `adapter_config`
  unfoldable pub check_adapter_config :
      Account AdapterConfig → Result AdapterTemplateError (Unit {0})
  unfolding constrain_seeds
  check_adapter_config config =
      constrain_seeds pda (adapter_config_seeds config.state.supported_mint config.state.version)
        config.state.bump template_id config.key

  unfoldable pub initialize_position : InitializePosition → Result AdapterTemplateError UserPosition
  unfolding check_adapter_config constrain_init
  initialize_position ctx = do
    constrain_signer ctx.owner
    constrain_init pda (user_position_seeds ctx.adapter_config.key ctx.owner.key) template_id
        ctx.user_position.key
    constrain ctx.user_position_free account_already_in_use
    constrain_mut ctx.user_position.is_writable
    check_adapter_config ctx.adapter_config
    constrain_mut ctx.owner.is_writable
    ok (record {
      owner = ctx.owner.key;
      deposited_amount = 0;
      shares = 0;
      last_value = 0;
      bump = ctx.user_position_bump;
    })

  -- the checks of `CurrentValue`
  unfoldable pub check_position : PositionAccounts → Result AdapterTemplateError (Unit {0})
  unfolding check_adapter_config constrain_seeds
  check_position ctx = do
    constrain_signer ctx.owner
    check_adapter_config ctx.adapter_config
    constrain_seeds pda (user_position_seeds ctx.adapter_config.key ctx.user_position.state.owner)
        ctx.user_position.state.bump template_id ctx.user_position.key

  -- the checks of `Deposit` and `Withdraw`, which write the position
  unfoldable pub check_written_position : PositionAccounts → Result AdapterTemplateError (Unit {0})
  unfolding check_position
  check_written_position ctx = do check_position ctx; constrain_mut ctx.user_position.is_writable

  unfoldable pub run_deposit :
      PositionAccounts → ℕ → Result AdapterTemplateError (UserPosition × AdapterEvent)
  unfolding check_written_position deposit
  run_deposit ctx amount = do check_written_position ctx; deposit ctx amount

  unfoldable pub run_withdraw :
      PositionAccounts → ℕ → Result AdapterTemplateError (UserPosition × AdapterEvent)
  unfolding check_written_position withdraw
  run_withdraw ctx amount = do check_written_position ctx; withdraw ctx amount

  unfoldable pub run_current_value :
      PositionAccounts → Result AdapterTemplateError (List ℕ × AdapterEvent)
  unfolding check_position current_value
  run_current_value ctx = do check_position ctx; current_value ctx
