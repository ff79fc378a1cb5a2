-- ===== src/Maple/Validate.antt =====
-- The checks of the Maple/Syrup adapter on its accounts (programs/adapters/maple-syrup/src/lib.rs,
-- `validate_*` and `read_token_amount`), against the chain's present state.
use sol_yield.Base.{ℕ, ltb, ◌==◌, List}
use sol_yield.Base.Result.{Result, ok, require, ◌>>=◌, ◌>>◌}
use sol_yield.Solana.Account.{Pubkey}
use sol_yield.Solana.Chain.{Chain}
use sol_yield.Maple.Types.{
  MapleSyrupConfig, MapleSyrupPosition, MapleSyrupError, invalid_amount, invalid_mint,
  invalid_owner, invalid_protocol_program, invalid_token_account, invalid_price_feed,
  maple_syrup_usdc_mint, maple_syrup_usdc_oracle, chainlink_store_program_id, token_program_id,
  token_account_mint_offset, token_account_owner_offset, token_account_amount_offset, VaultAccounts,
}
use sol_yield.Maple.Feed.{read_pubkey, read_u64}

unfoldable pub validate_owner_and_mint :
    MapleSyrupConfig → MapleSyrupPosition → Pubkey → Pubkey → Result MapleSyrupError (Unit {0})
validate_owner_and_mint config position owner mint = do
  require (mint == config.supported_mint) invalid_mint
  require (mint == maple_syrup_usdc_mint) invalid_mint
  require (owner == position.owner) invalid_owner
  ok tt

unfoldable pub validate_common :
    MapleSyrupConfig → MapleSyrupPosition → Pubkey → Pubkey → ℕ → Result MapleSyrupError (Unit {0})
unfolding validate_owner_and_mint
validate_common config position owner mint amount = do
  require (ltb 0 amount) invalid_amount
  validate_owner_and_mint config position owner mint

unfoldable pub validate_token_program : Pubkey → Pubkey → Result MapleSyrupError (Unit {0})
validate_token_program config_program passed_program = do
  require (config_program == passed_program) invalid_protocol_program
  require (passed_program == token_program_id) invalid_protocol_program
  ok tt

unfoldable pub validate_position_vault :
    MapleSyrupPosition → Pubkey → Result MapleSyrupError (Unit {0})
validate_position_vault position vault = do
  require (vault == position.vault_token_account) invalid_token_account
  ok tt

unfoldable pub validate_token_account_with_owner_only :
    List ℕ → Pubkey → Pubkey → Result MapleSyrupError (Unit {0})
unfolding read_pubkey
validate_token_account_with_owner_only token_bytes expected_mint expected_owner = do
  mint ← read_pubkey token_bytes token_account_mint_offset
  require (mint == expected_mint) invalid_token_account
  owner ← read_pubkey token_bytes token_account_owner_offset
  require (owner == expected_owner) invalid_token_account
  ok tt

module _ {ℓ} {S : Type ℓ} (chain : Chain S) (s : S) where
  unfoldable pub validate_price_feed : Pubkey → Result MapleSyrupError (Unit {0})
  validate_price_feed price_feed = do
    require (price_feed == maple_syrup_usdc_oracle) invalid_price_feed
    require (chain.account_owner s price_feed == chainlink_store_program_id) invalid_price_feed
    ok tt

  unfoldable pub validate_token_account :
      Pubkey → Pubkey → Pubkey → Pubkey → Result MapleSyrupError (Unit {0})
  unfolding validate_token_account_with_owner_only
  validate_token_account token_account token_program expected_mint expected_owner = do
    require (chain.account_owner s token_account == token_program) invalid_token_account
    validate_token_account_with_owner_only (chain.account_bytes s token_account) expected_mint
        expected_owner

  unfoldable pub read_token_amount : Pubkey → Result MapleSyrupError ℕ
  unfolding read_u64
  read_token_amount token_account =
      read_u64 (chain.account_bytes s token_account) token_account_amount_offset

  unfoldable pub validate_deposit_accounts : VaultAccounts → Result MapleSyrupError (Unit {0})
  unfolding validate_token_program validate_position_vault validate_token_account
      validate_price_feed
  validate_deposit_accounts ctx = do
    validate_token_program ctx.config.state.protocol_program_id ctx.token_program
    validate_position_vault ctx.position.state ctx.vault_token_account.key
    validate_token_account ctx.user_token_account.key ctx.token_program
        ctx.config.state.supported_mint ctx.owner.key
    validate_token_account ctx.vault_token_account.key ctx.token_program
        ctx.config.state.supported_mint ctx.position.key
    validate_price_feed ctx.price_feed

  unfoldable pub validate_withdraw_accounts : VaultAccounts → Result MapleSyrupError (Unit {0})
  unfolding validate_token_program validate_position_vault validate_token_account
      validate_price_feed
  validate_withdraw_accounts ctx = do
    validate_token_program ctx.config.state.protocol_program_id ctx.token_program
    validate_position_vault ctx.position.state ctx.vault_token_account.key
    validate_token_account ctx.vault_token_account.key ctx.token_program
        ctx.config.state.supported_mint ctx.position.key
    validate_token_account ctx.user_token_account.key ctx.token_program
        ctx.config.state.supported_mint ctx.owner.key
    validate_price_feed ctx.price_feed

  unfoldable pub validate_value_accounts : VaultAccounts → Result MapleSyrupError (Unit {0})
  unfolding validate_token_program validate_position_vault validate_token_account
      validate_price_feed
  validate_value_accounts ctx = do
    validate_token_program ctx.config.state.protocol_program_id ctx.token_program
    validate_position_vault ctx.position.state ctx.vault_token_account.key
    validate_token_account ctx.vault_token_account.key ctx.token_program
        ctx.config.state.supported_mint ctx.position.key
    validate_price_feed ctx.price_feed
