-- ===== src/Drift/Validate.antt =====
-- The checks of the Drift adapter on its accounts (programs/adapters/drift-insurance-fund/src/lib.rs,
-- `validate_*`), against the chain's present state. `validate_common_drift_accounts` is the checks
-- of the owners, of the user stats, of the stake, of the market and of the vault.
use sol_yield.Base.{ℕ, ltb, ◌==◌, Option, none, some, List, [], ◌∷◌}
use sol_yield.Base.Result.{Result, ok, require, ◌>>=◌, ◌>>◌}
use sol_yield.Solana.Account.{Pubkey}
use sol_yield.Solana.Chain.{Chain}
use sol_yield.Solana.Pda.{Pda}
use sol_yield.Drift.Types.{
  DriftInsuranceFundConfig, DriftInsuranceFundPosition, DriftInsuranceFundError, invalid_amount,
  invalid_mint, invalid_owner, invalid_protocol_program, invalid_protocol_account,
  invalid_spot_market, invalid_insurance_fund_stake, invalid_user_stats, invalid_vault,
  invalid_token_account, drift_signer_seed, token_account_mint_offset, token_account_owner_offset,
  if_stake_authority_offset, if_stake_market_index_offset, spot_market_pubkey_offset,
  spot_market_mint_offset, spot_market_vault_offset, spot_market_if_vault_offset,
  derive_spot_market, derive_insurance_fund_vault, derive_insurance_fund_stake, DriftAccounts,
}
use sol_yield.Drift.Stake.{read_pubkey, read_u16}

unfoldable pub validate_owner_and_mint :
    DriftInsuranceFundConfig
    → DriftInsuranceFundPosition
    → Pubkey
    → Pubkey
    → Result DriftInsuranceFundError (Unit {0})
validate_owner_and_mint config position owner mint = do
  require (mint == config.supported_mint) invalid_mint
  require (owner == position.owner) invalid_owner
  ok tt

unfoldable pub validate_common :
    DriftInsuranceFundConfig
    → DriftInsuranceFundPosition
    → Pubkey
    → Pubkey
    → ℕ
    → Result DriftInsuranceFundError (Unit {0})
unfolding validate_owner_and_mint
validate_common config position owner mint amount = do
  require (ltb 0 amount) invalid_amount
  validate_owner_and_mint config position owner mint

unfoldable pub validate_protocol_program :
    DriftInsuranceFundConfig → Pubkey → Result DriftInsuranceFundError (Unit {0})
validate_protocol_program config drift_program = do
  require (drift_program == config.protocol_program_id) invalid_protocol_program
  ok tt

-- The keys of the stake: the position's, and the one derived for its owner and market.
unfoldable pub check_stake_key :
    Pda
    → DriftInsuranceFundConfig
    → DriftInsuranceFundPosition
    → Pubkey
    → Result DriftInsuranceFundError (Unit {0})
check_stake_key pda config position insurance_fund_stake = do
  let expected_if_stake =
      derive_insurance_fund_stake pda config.protocol_program_id position.owner
        position.market_index
  require (insurance_fund_stake == position.insurance_fund_stake) invalid_insurance_fund_stake
  require (insurance_fund_stake == expected_if_stake) invalid_insurance_fund_stake
  ok tt

-- The data of a stake of the position's owner and market.
unfoldable pub check_stake :
    DriftInsuranceFundPosition → List ℕ → Result DriftInsuranceFundError (Unit {0})
check_stake position stake_bytes = do
  authority ← read_pubkey stake_bytes if_stake_authority_offset
  require (authority == position.owner) invalid_owner
  market_index ← read_u16 stake_bytes if_stake_market_index_offset
  require (market_index == position.market_index) invalid_insurance_fund_stake
  ok tt

-- The data of the market with this key, mint and insurance fund vault.
unfoldable pub check_spot_market :
    List ℕ → Pubkey → Pubkey → Pubkey → Result DriftInsuranceFundError (Unit {0})
check_spot_market spot_bytes spot_market supported_mint insurance_fund_vault = do
  pubkey ← read_pubkey spot_bytes spot_market_pubkey_offset
  require (pubkey == spot_market) invalid_spot_market
  mint ← read_pubkey spot_bytes spot_market_mint_offset
  require (mint == supported_mint) invalid_mint
  if_vault ← read_pubkey spot_bytes spot_market_if_vault_offset
  require (if_vault == insurance_fund_vault) invalid_vault
  ok tt

unfoldable pub validate_spot_market_vault :
    List ℕ → Pubkey → Result DriftInsuranceFundError (Unit {0})
validate_spot_market_vault spot_bytes spot_market_vault = do
  vault ← read_pubkey spot_bytes spot_market_vault_offset
  require (vault == spot_market_vault) invalid_vault
  ok tt

unfoldable pub validate_drift_signer :
    Pda → Pubkey → Pubkey → Result DriftInsuranceFundError (Unit {0})
validate_drift_signer pda drift_program drift_signer = do
  let (expected, bump) = pda.find_program_address (drift_signer_seed ∷ []) drift_program
  require (drift_signer == expected) invalid_vault
  ok tt

module _ {ℓ} {S : Type ℓ} (chain : Chain S) (s : S) where
  unfoldable pub validate_drift_owned : Pubkey → Pubkey → Result DriftInsuranceFundError (Unit {0})
  validate_drift_owned account drift_program = do
    require (chain.account_owner s account == drift_program) invalid_protocol_account
    ok tt

  -- The user stats are the position's, where they are passed.
  unfoldable pub check_user_stats :
      Option Pubkey
      → DriftInsuranceFundPosition
      → Pubkey
      → Result DriftInsuranceFundError (Unit {0})
  unfolding validate_drift_owned
  check_user_stats none position drift_program = ok tt
  check_user_stats (some user_stats) position drift_program = do
    validate_drift_owned user_stats drift_program
    require (user_stats == position.user_stats) invalid_user_stats
    ok tt

  unfoldable pub validate_token_account :
      Pubkey → Pubkey → Pubkey → Pubkey → Result DriftInsuranceFundError (Unit {0})
  validate_token_account token_account token_program expected_mint expected_owner = do
    require (chain.account_owner s token_account == token_program) invalid_token_account
    let token_bytes = chain.account_bytes s token_account
    mint ← read_pubkey token_bytes token_account_mint_offset
    require (mint == expected_mint) invalid_token_account
    owner ← read_pubkey token_bytes token_account_owner_offset
    require (owner == expected_owner) invalid_token_account
    ok tt

  unfoldable pub validate_if_vault_token_account :
      Pubkey → Pubkey → Pubkey → Result DriftInsuranceFundError (Unit {0})
  validate_if_vault_token_account token_account token_program expected_mint = do
    require (chain.account_owner s token_account == token_program) invalid_token_account
    mint ← read_pubkey (chain.account_bytes s token_account) token_account_mint_offset
    require (mint == expected_mint) invalid_token_account
    ok tt

module _ {ℓ} {S : Type ℓ} (pda : Pda) (chain : Chain S) (s : S) (ctx : DriftAccounts) where
  unfoldable pub validate_common_drift_accounts :
      Option Pubkey → Result DriftInsuranceFundError (Unit {0})
  validate_common_drift_accounts user_stats = do
    let config = ctx.config.state
    let position = ctx.position.state
    validate_drift_owned chain s ctx.spot_market.key ctx.drift_program
    validate_drift_owned chain s ctx.insurance_fund_stake.key ctx.drift_program
    check_user_stats chain s user_stats position ctx.drift_program
    require
        (ctx.spot_market.key
          == derive_spot_market pda config.protocol_program_id position.market_index)
        invalid_spot_market
    check_stake_key pda config position ctx.insurance_fund_stake.key
    check_stake position (chain.account_bytes s ctx.insurance_fund_stake.key)
    check_spot_market (chain.account_bytes s ctx.spot_market.key) ctx.spot_market.key
        config.supported_mint ctx.insurance_fund_vault.key
    require
        (ctx.insurance_fund_vault.key
          == derive_insurance_fund_vault pda config.protocol_program_id position.market_index)
        invalid_vault
    ok tt

  unfoldable pub validate_deposit_accounts : Result DriftInsuranceFundError (Unit {0})
  validate_deposit_accounts = do
    validate_protocol_program ctx.config.state ctx.drift_program
    validate_drift_owned chain s ctx.state ctx.drift_program
    validate_common_drift_accounts (some ctx.user_stats.key)
    validate_spot_market_vault (chain.account_bytes s ctx.spot_market.key) ctx.spot_market_vault.key
    validate_drift_signer pda ctx.config.state.protocol_program_id ctx.drift_signer
    validate_token_account chain s ctx.user_token_account.key ctx.token_program
        ctx.config.state.supported_mint ctx.owner.key
    validate_if_vault_token_account chain s ctx.insurance_fund_vault.key ctx.token_program
        ctx.config.state.supported_mint

  unfoldable pub validate_withdraw_accounts : Result DriftInsuranceFundError (Unit {0})
  validate_withdraw_accounts = do
    validate_protocol_program ctx.config.state ctx.drift_program
    validate_common_drift_accounts (some ctx.user_stats.key)

  unfoldable pub validate_value_accounts : Result DriftInsuranceFundError (Unit {0})
  validate_value_accounts = do
    validate_protocol_program ctx.config.state ctx.drift_program
    validate_common_drift_accounts none
