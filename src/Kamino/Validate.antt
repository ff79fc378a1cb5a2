-- ===== src/Kamino/Validate.antt =====
-- The checks of the Kamino adapter on its accounts (programs/adapters/kamino-usdc/src/lib.rs,
-- `validate_*`), against the chain's present state. The address of the instructions sysvar is the
-- SDK's, and a parameter.
use sol_yield.Base.{ℕ, ltb, ◌==◌, List, [], ◌∷◌}
use sol_yield.Base.Result.{Result, ok, require, ◌>>=◌, ◌>>◌}
use sol_yield.Solana.Account.{Pubkey, pubkey_bytes}
use sol_yield.Solana.Chain.{Chain}
use sol_yield.Solana.Pda.{Pda}
use sol_yield.Kamino.Types.{
  KaminoUsdcConfig, KaminoUsdcPosition, KaminoUsdcError, invalid_amount, invalid_mint,
  invalid_owner, invalid_protocol_program, invalid_protocol_account, invalid_reserve,
  invalid_lending_market, invalid_vault, invalid_token_account, invalid_instruction_sysvar,
  KaminoReserveFields, lending_market_auth_seed, token_account_mint_offset,
  token_account_owner_offset, token_account_amount_offset, KaminoAccounts,
}
use sol_yield.Kamino.Reserve.{read_pubkey, read_u64, read_reserve_fields}

unfoldable pub validate_owner_and_mint :
    KaminoUsdcConfig → KaminoUsdcPosition → Pubkey → Pubkey → Result KaminoUsdcError (Unit {0})
validate_owner_and_mint config position owner mint = do
  require (mint == config.supported_mint) invalid_mint
  require (owner == position.owner) invalid_owner
  ok tt

unfoldable pub validate_common :
    KaminoUsdcConfig → KaminoUsdcPosition → Pubkey → Pubkey → ℕ → Result KaminoUsdcError (Unit {0})
unfolding validate_owner_and_mint
validate_common config position owner mint amount = do
  require (ltb 0 amount) invalid_amount
  validate_owner_and_mint config position owner mint

unfoldable pub validate_protocol_program :
    KaminoUsdcConfig → Pubkey → Result KaminoUsdcError (Unit {0})
validate_protocol_program config kamino_program = do
  require (kamino_program == config.protocol_program_id) invalid_protocol_program
  ok tt

unfoldable pub validate_market_accounts :
    Pda → Pubkey → KaminoReserveFields → Pubkey → Pubkey → Result KaminoUsdcError (Unit {0})
validate_market_accounts pda kamino_program fields lending_market lending_market_authority = do
  require (lending_market == fields.lending_market) invalid_lending_market
  let expected_authority =
      (pda.find_program_address (lending_market_auth_seed ∷ pubkey_bytes lending_market ∷ [])
        kamino_program).0
  require (lending_market_authority == expected_authority) invalid_lending_market
  ok tt

-- The source passes the program and the reserve too, and does not read them.
unfoldable pub validate_reserve_vault_accounts :
    KaminoReserveFields → Pubkey → Pubkey → Pubkey → Pubkey → Result KaminoUsdcError (Unit {0})
validate_reserve_vault_accounts fields reserve_liquidity_mint reserve_liquidity_supply
      reserve_collateral_mint liquidity_token_program =
    do
      require (reserve_liquidity_mint == fields.liquidity_mint) invalid_mint
      require (reserve_liquidity_supply == fields.liquidity_supply) invalid_vault
      require (reserve_collateral_mint == fields.collateral_mint) invalid_vault
      require (liquidity_token_program == fields.liquidity_token_program) invalid_token_account
      ok tt

unfoldable pub validate_token_account_with_owner_only :
    List ℕ → Pubkey → Pubkey → Result KaminoUsdcError (Unit {0})
validate_token_account_with_owner_only token_bytes expected_mint expected_owner = do
  mint ← read_pubkey token_bytes token_account_mint_offset
  require (mint == expected_mint) invalid_token_account
  owner ← read_pubkey token_bytes token_account_owner_offset
  require (owner == expected_owner) invalid_token_account
  ok tt

unfoldable pub validate_instruction_sysvar : Pubkey → Pubkey → Result KaminoUsdcError (Unit {0})
validate_instruction_sysvar instructions_sysvar_id instruction_sysvar = do
  require (instruction_sysvar == instructions_sysvar_id) invalid_instruction_sysvar
  ok tt

-- the user's collateral account is the one that the position names
abbrev pub validate_collateral_account :
    KaminoUsdcPosition → Pubkey → Result KaminoUsdcError (Unit {0})
validate_collateral_account position user_collateral =
    require (user_collateral == position.collateral_token_account) invalid_token_account

module _ {ℓ} {S : Type ℓ} (chain : Chain S) (s : S) where
  unfoldable pub validate_reserve_common :
      KaminoUsdcConfig
      → KaminoUsdcPosition
      → Pubkey
      → Pubkey
      → Result KaminoUsdcError KaminoReserveFields
  validate_reserve_common config position kamino_program reserve = do
    require (reserve == position.reserve) invalid_reserve
    require (chain.account_owner s reserve == kamino_program) invalid_protocol_account
    fields ← read_reserve_fields (chain.account_bytes s reserve)
    require (fields.liquidity_mint == config.supported_mint) invalid_mint
    ok fields

  unfoldable pub validate_token_account :
      Pubkey → Pubkey → Pubkey → Pubkey → Result KaminoUsdcError (Unit {0})
  unfolding validate_token_account_with_owner_only
  validate_token_account token_account token_program expected_mint expected_owner = do
    require (chain.account_owner s token_account == token_program) invalid_token_account
    validate_token_account_with_owner_only (chain.account_bytes s token_account) expected_mint
        expected_owner

  unfoldable pub read_token_amount : Pubkey → Result KaminoUsdcError ℕ
  unfolding read_u64
  read_token_amount token_account =
      read_u64 (chain.account_bytes s token_account) token_account_amount_offset

  unfoldable pub validate_value_accounts :
      KaminoAccounts → Result KaminoUsdcError KaminoReserveFields
  validate_value_accounts ctx = do
    validate_protocol_program ctx.config.state ctx.kamino_program
    fields ←
        validate_reserve_common ctx.config.state ctx.position.state ctx.kamino_program
          ctx.reserve.key
    validate_token_account_with_owner_only (chain.account_bytes s ctx.user_collateral.key)
        fields.collateral_mint ctx.owner.key
    validate_collateral_account ctx.position.state ctx.user_collateral.key
    ok fields

module _ {ℓ} {S : Type ℓ} (pda : Pda) (instructions_sysvar_id : Pubkey) (chain : Chain S)
    (s : S) where
  -- The checks with which a deposit and a withdrawal begin: program, reserve, market and vaults.
  unfoldable pub validate_reserve_accounts :
      KaminoAccounts → Result KaminoUsdcError KaminoReserveFields
  validate_reserve_accounts ctx = do
    validate_protocol_program ctx.config.state ctx.kamino_program
    fields ←
        validate_reserve_common chain s ctx.config.state ctx.position.state ctx.kamino_program
          ctx.reserve.key
    validate_market_accounts pda ctx.kamino_program fields ctx.lending_market
        ctx.lending_market_authority
    validate_reserve_vault_accounts fields ctx.reserve_liquidity_mint
        ctx.reserve_liquidity_supply.key ctx.reserve_collateral_mint.key ctx.liquidity_token_program
    ok fields

  unfoldable pub validate_deposit_accounts :
      KaminoAccounts → Result KaminoUsdcError KaminoReserveFields
  validate_deposit_accounts ctx = do
    fields ← validate_reserve_accounts ctx
    validate_token_account chain s ctx.user_liquidity.key ctx.liquidity_token_program
        ctx.config.state.supported_mint ctx.owner.key
    validate_token_account chain s ctx.user_collateral.key ctx.collateral_token_program
        fields.collateral_mint ctx.owner.key
    validate_collateral_account ctx.position.state ctx.user_collateral.key
    validate_instruction_sysvar instructions_sysvar_id ctx.instruction_sysvar_account
    ok fields

  unfoldable pub validate_withdraw_accounts :
      KaminoAccounts → Result KaminoUsdcError KaminoReserveFields
  validate_withdraw_accounts ctx = do
    fields ← validate_reserve_accounts ctx
    validate_token_account chain s ctx.user_collateral.key ctx.collateral_token_program
        fields.collateral_mint ctx.owner.key
    validate_collateral_account ctx.position.state ctx.user_collateral.key
    validate_token_account chain s ctx.user_liquidity.key ctx.liquidity_token_program
        ctx.config.state.supported_mint ctx.owner.key
    validate_instruction_sysvar instructions_sysvar_id ctx.instruction_sysvar_account
    ok fields
