-- ===== src/Maple/Handlers.antt =====
-- The instruction handlers of the Maple/Syrup adapter (programs/adapters/maple-syrup/src/lib.rs,
-- `mod maple_syrup`), behind the checks of their accounts. The state of the chain is passed on
-- from call to call; an instruction that fails leaves it as it was.
use sol_yield.Base.{ℕ, Bool, true, false, not, ◌==◌, leb, List, [], ◌∷◌}
use sol_yield.Base.Bytes.{to_le_bytes}
use sol_yield.Base.Result.{
  Result, ok, account_already_in_use, require, constrain, ok_or, ◌>>=◌, ◌>>◌,
}
use sol_yield.Base.Word.{checked_add, saturating_sub}
use sol_yield.Solana.Account.{
  Pubkey, default_pubkey, pubkey_bytes, meta_new, meta_new_readonly, Instruction, Signer, Account,
  AccountRef,
}
use sol_yield.Solana.Chain.{Chain}
use sol_yield.Solana.Pda.{Pda, constrain_seeds, constrain_init, constrain_mut, constrain_signer}
use sol_yield.Maple.Types.{
  maple_syrup_id, maple_syrup_usdc_mint, token_program_id, position_seed, spl_token_transfer_ix,
  MapleSyrupConfig, MapleSyrupPosition, MapleSyrupEvent, config_initialized, maple_syrup_deposit,
  maple_syrup_withdraw, maple_syrup_value, MapleSyrupError, invalid_amount, invalid_mint,
  protocol_cpi_failed, math_overflow, invalid_protocol_program, invalid_token_account, config_seeds,
  position_seeds, VaultAccounts,
}
use sol_yield.Maple.Feed.{shares_to_usdc_value}
use sol_yield.Maple.Validate.{
  validate_common, validate_owner_and_mint, validate_deposit_accounts, validate_withdraw_accounts,
  validate_value_accounts, read_token_amount,
}

-- The accounts of the two instructions that create an account: its address, the bump that the
-- framework found, and whether the address is still free.
pub record InitializeConfig : Type 0 where
  pub config : AccountRef
  pub config_bump : ℕ
  pub config_free : Bool
  pub authority : Signer

pub record InitializePosition : Type 0 where
  pub config : Account MapleSyrupConfig
  pub position : AccountRef
  pub position_bump : ℕ
  pub position_free : Bool
  pub owner : Signer

unfoldable pub token_transfer_instruction : Pubkey → Pubkey → Pubkey → Pubkey → ℕ → Instruction
token_transfer_instruction token_program source destination authority amount = record {
  program_id = token_program;
  accounts =
      meta_new source false ∷ meta_new destination false ∷ meta_new_readonly authority true ∷ [];
  bytes = spl_token_transfer_ix ∷ to_le_bytes 8 amount;
}

-- The position's seeds with its bump, under which a withdrawal is signed.
abbrev pub signer_seeds : VaultAccounts → List (List ℕ)
signer_seeds ctx =
    position_seed
    ∷ pubkey_bytes ctx.config.key
    ∷ pubkey_bytes ctx.position.state.owner
    ∷ (ctx.position.state.bump ∷ [])
    ∷ []

module _ (pda : Pda) where
  unfoldable pub initialize_config :
      InitializeConfig
      → Pubkey
      → Pubkey
      → ℕ
      → Result MapleSyrupError (MapleSyrupConfig × MapleSyrupEvent)
  unfolding constrain_init
  initialize_config ctx supported_mint protocol_program_id version = do
    constrain_signer ctx.authority
    constrain_init pda (config_seeds supported_mint version) maple_syrup_id ctx.config.key
    constrain ctx.config_free account_already_in_use
    constrain_mut ctx.config.is_writable
    constrain_mut ctx.authority.is_writable
    require (supported_mint == maple_syrup_usdc_mint) invalid_mint
    require (protocol_program_id == token_program_id) invalid_protocol_program
    ok (
      record {
        authority = ctx.authority.key;
        supported_mint = supported_mint;
        protocol_program_id = protocol_program_id;
        version = version;
        bump = ctx.config_bump;
      },
      config_initialized ctx.authority.key supported_mint protocol_program_id version,
    )

  -- `seeds` and `bump` of `config`
  unfoldable pub check_config : Account MapleSyrupConfig → Result MapleSyrupError (Unit {0})
  unfolding constrain_seeds
  check_config config =
      constrain_seeds pda (config_seeds config.state.supported_mint config.state.version)
        config.state.bump maple_syrup_id config.key

  unfoldable pub initialize_position :
      InitializePosition → Pubkey → Result MapleSyrupError MapleSyrupPosition
  unfolding check_config constrain_init
  initialize_position ctx vault_token_account = do
    constrain_signer ctx.owner
    constrain_init pda (position_seeds ctx.config.key ctx.owner.key) maple_syrup_id ctx.position.key
    constrain ctx.position_free account_already_in_use
    constrain_mut ctx.position.is_writable
    check_config ctx.config
    constrain_mut ctx.owner.is_writable
    require (not (vault_token_account == default_pubkey)) invalid_token_account
    ok (record {
      owner = ctx.owner.key;
      vault_token_account = vault_token_account;
      deposited_amount = 0;
      shares = 0;
      last_value = 0;
      bump = ctx.position_bump;
    })

  -- the checks of `CurrentValue`
  unfoldable pub check_position : VaultAccounts → Result MapleSyrupError (Unit {0})
  unfolding check_config constrain_seeds
  check_position ctx = do
    constrain_signer ctx.owner
    check_config ctx.config
    constrain_seeds pda (position_seeds ctx.config.key ctx.position.state.owner)
        ctx.position.state.bump maple_syrup_id ctx.position.key

  -- the checks of `Deposit` and `Withdraw`, which write the position and both token accounts
  unfoldable pub check_written_position : VaultAccounts → Result MapleSyrupError (Unit {0})
  unfolding check_position
  check_written_position ctx = do
    check_position ctx
    constrain_mut ctx.position.is_writable
    constrain_mut ctx.user_token_account.is_writable
    constrain_mut ctx.vault_token_account.is_writable

  module _ {ℓ} {S : Type ℓ} (chain : Chain S) where
    unfoldable pub deposit :
        VaultAccounts → ℕ → S → Result MapleSyrupError (MapleSyrupPosition × S × MapleSyrupEvent)
    deposit ctx amount s = do
      check_written_position ctx
      validate_common ctx.config.state ctx.position.state ctx.owner.key ctx.mint amount
      validate_deposit_accounts chain s ctx
      let instruction =
          token_transfer_instruction ctx.token_program ctx.user_token_account.key
            ctx.vault_token_account.key ctx.owner.key amount
      s' ←
          ok_or
            (chain.invoke instruction
              (ctx.user_token_account.key ∷ ctx.vault_token_account.key ∷ ctx.owner.key
                ∷ ctx.token_program ∷ [])
              s)
            protocol_cpi_failed
      shares ← read_token_amount chain s' ctx.vault_token_account.key
      value ← shares_to_usdc_value shares (chain.account_bytes s' ctx.price_feed)
      let position = ctx.position.state
      deposited_amount ← ok_or (checked_add 64 position.deposited_amount amount) math_overflow
      ok (
        record position {
          deposited_amount = deposited_amount;
          shares = shares;
          last_value = value;
        },
        s',
        maple_syrup_deposit position.owner ctx.config.state.supported_mint amount shares value,
      )

    unfoldable pub withdraw :
        VaultAccounts → ℕ → S → Result MapleSyrupError (MapleSyrupPosition × S × MapleSyrupEvent)
    withdraw ctx amount s = do
      check_written_position ctx
      validate_common ctx.config.state ctx.position.state ctx.owner.key ctx.mint amount
      validate_withdraw_accounts chain s ctx
      vault_amount ← read_token_amount chain s ctx.vault_token_account.key
      require (leb amount vault_amount) invalid_amount
      let instruction =
          token_transfer_instruction ctx.token_program ctx.vault_token_account.key
            ctx.user_token_account.key ctx.position.key amount
      s' ←
          ok_or
            (chain.invoke_signed instruction
              (ctx.vault_token_account.key ∷ ctx.user_token_account.key ∷ ctx.position.key
                ∷ ctx.token_program ∷ [])
              (signer_seeds ctx) s)
            protocol_cpi_failed
      shares ← read_token_amount chain s' ctx.vault_token_account.key
      value ← shares_to_usdc_value shares (chain.account_bytes s' ctx.price_feed)
      let position = ctx.position.state
      ok (
        record position {
          deposited_amount = saturating_sub position.deposited_amount amount;
          shares = shares;
          last_value = value;
        },
        s',
        maple_syrup_withdraw position.owner ctx.config.state.supported_mint amount shares value,
      )

    -- The bytes are those of `set_return_data`.
    unfoldable pub current_value :
        VaultAccounts → S → Result MapleSyrupError (List ℕ × MapleSyrupEvent)
    current_value ctx s = do
      check_position ctx
      validate_owner_and_mint ctx.config.state ctx.position.state ctx.owner.key ctx.mint
      validate_value_accounts chain s ctx
      shares ← read_token_amount chain s ctx.vault_token_account.key
      value ← shares_to_usdc_value shares (chain.account_bytes s ctx.price_feed)
      ok (
        to_le_bytes 8 value,
        maple_syrup_value ctx.position.state.owner ctx.config.state.supported_mint shares value,
      )
