-- ===== src/Jupiter/Validate.antt =====
-- The checks of the Jupiter adapter on its accounts (programs/adapters/jupiter-lp/src/lib.rs,
-- `validate_*`), against the chain's present state or the accounts' owners and data.
use sol_yield.Base.{ℕ, ◌+◌, false, ltb, leb, ◌==◌, List, [], ◌∷◌, length}
use sol_yield.Base.Bytes.{bytes_eq}
use sol_yield.Base.Data.{checked_slice, index, or_panic}
use sol_yield.Base.Result.{Result, ok, require, ◌>>=◌, ◌>>◌}
use sol_yield.Solana.Account.{Pubkey}
use sol_yield.Solana.Chain.{Chain}
use sol_yield.Solana.Pda.{Pda}
use sol_yield.Jupiter.Types.{
  JupiterLpConfig, JupiterLpPosition, JupiterLpError, invalid_amount, invalid_mint, invalid_owner,
  invalid_protocol_program, invalid_pool, invalid_custody, invalid_perpetuals,
  invalid_transfer_authority, invalid_event_authority, invalid_token_account,
  jupiter_perps_program_id, jlp_pool, jlp_mint, token_program_id, jlp_usdc_custody,
  jlp_usdc_doves_ag_price_account, perpetuals_seed, transfer_authority_seed, event_authority_seed,
  custody_discriminator, perpetuals_discriminator, token_account_mint_offset,
  token_account_owner_offset, mint_decimals_offset, custody_pool_offset, custody_mint_offset,
  custody_token_account_offset, custody_pythnet_price_account_offset,
  custody_doves_ag_price_account_offset, derive_lp_token_mint, JupiterAccounts,
}
use sol_yield.Jupiter.Pool.{read_pubkey, read_u32, scan_keys, read_pool_aum_with_custody}

unfoldable pub validate_owner_and_mint :
    JupiterLpConfig → JupiterLpPosition → Pubkey → Pubkey → Result JupiterLpError (Unit {0})
validate_owner_and_mint config position owner mint = do
  require (mint == config.supported_mint) invalid_mint
  require (owner == position.owner) invalid_owner
  ok tt

unfoldable pub validate_common :
    JupiterLpConfig → JupiterLpPosition → Pubkey → Pubkey → ℕ → Result JupiterLpError (Unit {0})
unfolding validate_owner_and_mint
validate_common config position owner mint amount = do
  require (ltb 0 amount) invalid_amount
  validate_owner_and_mint config position owner mint

unfoldable pub validate_protocol_program : Pubkey → Pubkey → Result JupiterLpError (Unit {0})
validate_protocol_program config_program passed_program = do
  require (config_program == passed_program) invalid_protocol_program
  require (passed_program == jupiter_perps_program_id) invalid_protocol_program
  ok tt

unfoldable pub validate_token_program : Pubkey → Result JupiterLpError (Unit {0})
validate_token_program token_program = do
  require (token_program == token_program_id) invalid_token_account
  ok tt

unfoldable pub validate_static_position_accounts :
    JupiterLpPosition → Pubkey → Pubkey → Pubkey → Result JupiterLpError (Unit {0})
validate_static_position_accounts position pool custody lp_token_account = do
  require (pool == position.pool) invalid_pool
  require (pool == jlp_pool) invalid_pool
  require (custody == position.custody) invalid_custody
  require (custody == jlp_usdc_custody) invalid_custody
  require (lp_token_account == position.lp_token_account) invalid_token_account
  ok tt

unfoldable pub validate_jupiter_pdas :
    Pda → Pubkey → Pubkey → Pubkey → Pubkey → Result JupiterLpError (Unit {0})
validate_jupiter_pdas pda jupiter_program transfer_authority perpetuals event_authority = do
  let expected_perpetuals = (pda.find_program_address (perpetuals_seed ∷ []) jupiter_program).0
  let expected_transfer_authority =
      (pda.find_program_address (transfer_authority_seed ∷ []) jupiter_program).0
  let expected_event_authority =
      (pda.find_program_address (event_authority_seed ∷ []) jupiter_program).0
  require (perpetuals == expected_perpetuals) invalid_perpetuals
  require (transfer_authority == expected_transfer_authority) invalid_transfer_authority
  require (event_authority == expected_event_authority) invalid_event_authority
  ok tt

-- The pool is in the list of the perpetuals account, which stands behind eight and seven bytes.
unfoldable pub validate_perpetuals : Pubkey → List ℕ → Pubkey → Result JupiterLpError (Unit {0})
unfolding scan_keys
validate_perpetuals perpetuals_owner bytes expected_pool = do
  require (perpetuals_owner == jupiter_perps_program_id) invalid_perpetuals
  require (leb (8 + 7 + 4 + 32) (length bytes)) invalid_perpetuals
  mark ← or_panic (checked_slice bytes 0 8)
  require (bytes_eq mark perpetuals_discriminator) invalid_perpetuals
  pool_count ← read_u32 bytes (8 + 7)
  (found, end) ← scan_keys bytes expected_pool pool_count (8 + 7 + 4) false
  require found invalid_perpetuals
  ok tt

unfoldable pub validate_custody_basic :
    Pubkey → List ℕ → Pubkey → Pubkey → Result JupiterLpError (Unit {0})
validate_custody_basic custody_owner bytes expected_pool expected_mint = do
  require (custody_owner == jupiter_perps_program_id) invalid_custody
  require (leb (custody_doves_ag_price_account_offset + 32) (length bytes)) invalid_custody
  mark ← or_panic (checked_slice bytes 0 8)
  require (bytes_eq mark custody_discriminator) invalid_custody
  pool ← read_pubkey bytes custody_pool_offset
  require (pool == expected_pool) invalid_custody
  mint ← read_pubkey bytes custody_mint_offset
  require (mint == expected_mint) invalid_mint
  ok tt

unfoldable pub validate_custody_accounts :
    Pubkey → List ℕ → Pubkey → Pubkey → Pubkey → Pubkey → Pubkey → Result JupiterLpError (Unit {0})
validate_custody_accounts custody_owner bytes expected_pool expected_mint custody_token_account
      custody_doves_price_account custody_pythnet_price_account =
    do
      validate_custody_basic custody_owner bytes expected_pool expected_mint
      token_account ← read_pubkey bytes custody_token_account_offset
      require (token_account == custody_token_account) invalid_custody
      doves ← read_pubkey bytes custody_doves_ag_price_account_offset
      require (doves == custody_doves_price_account) invalid_custody
      require (custody_doves_price_account == jlp_usdc_doves_ag_price_account) invalid_custody
      pythnet ← read_pubkey bytes custody_pythnet_price_account_offset
      require (pythnet == custody_pythnet_price_account) invalid_custody
      ok tt

unfoldable pub validate_mint_with_owner_only :
    Pubkey → List ℕ → Pubkey → Result JupiterLpError (Unit {0})
validate_mint_with_owner_only mint bytes expected_mint = do
  require (mint == expected_mint) invalid_token_account
  require (ltb mint_decimals_offset (length bytes)) invalid_token_account
  decimals ← index bytes mint_decimals_offset
  require (decimals == 6) invalid_token_account
  ok tt

unfoldable pub validate_token_account_with_owner_only :
    List ℕ → Pubkey → Pubkey → Result JupiterLpError (Unit {0})
validate_token_account_with_owner_only token_bytes expected_mint expected_owner = do
  mint ← read_pubkey token_bytes token_account_mint_offset
  require (mint == expected_mint) invalid_token_account
  owner ← read_pubkey token_bytes token_account_owner_offset
  require (owner == expected_owner) invalid_token_account
  ok tt

module _ {ℓ} {S : Type ℓ} (chain : Chain S) (s : S) where
  unfoldable pub validate_token_account :
      Pubkey → Pubkey → Pubkey → Pubkey → Result JupiterLpError (Unit {0})
  unfolding validate_token_account_with_owner_only
  validate_token_account token_account token_program expected_mint expected_owner = do
    require (chain.account_owner s token_account == token_program) invalid_token_account
    validate_token_account_with_owner_only (chain.account_bytes s token_account) expected_mint
        expected_owner

  unfoldable pub validate_jlp_mint :
      Pda → Pubkey → Pubkey → Pubkey → Pubkey → Result JupiterLpError (Unit {0})
  unfolding validate_mint_with_owner_only
  validate_jlp_mint pda lp_token_mint token_program jupiter_program pool = do
    require (lp_token_mint == derive_lp_token_mint pda jupiter_program pool) invalid_token_account
    require (lp_token_mint == jlp_mint) invalid_token_account
    require (chain.account_owner s lp_token_mint == token_program) invalid_token_account
    validate_mint_with_owner_only lp_token_mint (chain.account_bytes s lp_token_mint) jlp_mint

  -- The assets of the pool that is passed.
  unfoldable pub pool_aum : Pubkey → Pubkey → Result JupiterLpError ℕ
  pool_aum pool expected_custody =
      read_pool_aum_with_custody (chain.account_owner s pool) (chain.account_bytes s pool)
        expected_custody

  unfoldable pub read_pool_aum : Pubkey → Result JupiterLpError ℕ
  unfolding pool_aum
  read_pool_aum pool = pool_aum pool jlp_usdc_custody

  unfoldable pub validate_value_accounts : JupiterAccounts → Result JupiterLpError ℕ
  validate_value_accounts ctx = do
    validate_static_position_accounts ctx.position.state ctx.pool.key ctx.custody.key
        ctx.lp_token_account.key
    validate_token_account_with_owner_only (chain.account_bytes s ctx.lp_token_account.key) jlp_mint
        ctx.owner.key
    validate_mint_with_owner_only ctx.lp_token_mint.key
        (chain.account_bytes s ctx.lp_token_mint.key) jlp_mint
    validate_custody_basic (chain.account_owner s ctx.custody.key)
        (chain.account_bytes s ctx.custody.key) ctx.pool.key ctx.config.state.supported_mint
    pool_aum ctx.pool.key ctx.custody.key

module _ {ℓ} {S : Type ℓ} (pda : Pda) (chain : Chain S) (s : S) where
  -- The user's token account is the funding account here, and the receiving one of a withdrawal,
  -- which checks the same.
  unfoldable pub validate_deposit_accounts : JupiterAccounts → Result JupiterLpError ℕ
  validate_deposit_accounts ctx = do
    validate_protocol_program ctx.config.state.protocol_program_id ctx.jupiter_program
    validate_jupiter_pdas pda ctx.jupiter_program ctx.transfer_authority ctx.perpetuals
        ctx.event_authority
    validate_token_program ctx.token_program
    validate_static_position_accounts ctx.position.state ctx.pool.key ctx.custody.key
        ctx.lp_token_account.key
    validate_token_account chain s ctx.user_token_account.key ctx.token_program
        ctx.config.state.supported_mint ctx.owner.key
    validate_token_account chain s ctx.lp_token_account.key ctx.token_program jlp_mint ctx.owner.key
    validate_jlp_mint chain s pda ctx.lp_token_mint.key ctx.token_program ctx.jupiter_program
        ctx.pool.key
    validate_custody_accounts (chain.account_owner s ctx.custody.key)
        (chain.account_bytes s ctx.custody.key) ctx.pool.key ctx.config.state.supported_mint
        ctx.custody_token_account.key ctx.custody_doves_price_account
        ctx.custody_pythnet_price_account
    validate_perpetuals (chain.account_owner s ctx.perpetuals)
        (chain.account_bytes s ctx.perpetuals) ctx.pool.key
    pool_aum chain s ctx.pool.key ctx.custody.key

  unfoldable pub validate_withdraw_accounts : JupiterAccounts → Result JupiterLpError ℕ
  unfolding validate_deposit_accounts
  validate_withdraw_accounts ctx = validate_deposit_accounts ctx
