-- ===== src/Drift/Access.antt =====
-- What the checks of the Drift adapter establish about config, position, market, stake and fund
-- (programs/adapters/drift-insurance-fund/src/lib.rs, `validate_common_drift_accounts` and the
-- accounts structs).
use sol_yield.Base.{ℕ, ◌<◌, ◌≡◌, ◌↔◌, refl, true, none, some, Option, [], ◌∷◌, ◌++◌, arith}
use sol_yield.Base.Result.{ok}
use sol_yield.Solana.Account.{Pubkey}
use sol_yield.Solana.Chain.{Chain}
use sol_yield.Solana.Pda.{Pda, constrain_seeds}
use sol_yield.Drift.Types.{
  drift_insurance_fund_id, if_stake_authority_offset, if_stake_market_index_offset,
  spot_market_pubkey_offset, spot_market_mint_offset, spot_market_if_vault_offset, config_seeds,
  position_seeds, derive_spot_market, derive_insurance_fund_vault, derive_insurance_fund_stake,
  DriftAccounts,
}
use sol_yield.Drift.Stake.{read_pubkey, read_u16}
use sol_yield.Drift.Validate.{
  validate_owner_and_mint, validate_common, check_stake_key, check_stake, check_spot_market,
  validate_drift_owned, check_user_stats, validate_common_drift_accounts,
}
use sol_yield.Drift.Handlers.{
  check_config, check_position, check_written_position, check_written_vaults,
}

-- The caller signed and owns the position, config and position stand at their addresses, and
-- the mint is the config's.
pub record Entitled (pda : Pda) (ctx : DriftAccounts) : Type 0 where
  pub signed : ctx.owner.is_signer ≡ true
  pub config_at :
      pda.create_program_address
        (config_seeds ctx.config.state.supported_mint ctx.config.state.version
          ++ ((ctx.config.state.bump ∷ []) ∷ []))
        drift_insurance_fund_id
      ≡ some ctx.config.key
  pub position_at :
      pda.create_program_address
        (position_seeds ctx.config.key ctx.position.state.owner
          ++ ((ctx.position.state.bump ∷ []) ∷ []))
        drift_insurance_fund_id
      ≡ some ctx.position.key
  pub same_mint : ctx.mint ≡ ctx.config.state.supported_mint
  pub owned : ctx.owner.key ≡ ctx.position.state.owner

-- The accounts that a withdrawal writes, and those that a deposit writes besides.
pub record Writable (ctx : DriftAccounts) : Type 0 where
  pub position : ctx.position.is_writable ≡ true
  pub market : ctx.spot_market.is_writable ≡ true
  pub stake : ctx.insurance_fund_stake.is_writable ≡ true
  pub stats : ctx.user_stats.is_writable ≡ true
  pub fund : ctx.insurance_fund_vault.is_writable ≡ true

pub record VaultsWritable (ctx : DriftAccounts) : Type 0 where
  pub vault : ctx.spot_market_vault.is_writable ≡ true
  pub tokens : ctx.user_token_account.is_writable ≡ true

module _ (pda : Pda) (ctx : DriftAccounts) where
  pub check_position_iff :
      ((check_position pda ctx ≡ ok tt)
        × (validate_owner_and_mint ctx.config.state ctx.position.state ctx.owner.key ctx.mint
            ≡ ok tt))
      ↔ Entitled pda ctx
  unfolding check_position check_config constrain_seeds validate_owner_and_mint
  check_position_iff = (λ (checked, valid). ground arith, λ spec. ground arith)

  pub check_written_position_iff :
      (amount : ℕ)
      → ((check_written_position pda ctx ≡ ok tt)
          × (validate_common ctx.config.state ctx.position.state ctx.owner.key ctx.mint amount
              ≡ ok tt))
        ↔ ((0 < amount) × Entitled pda ctx × Writable ctx)
  unfolding check_written_position check_position check_config constrain_seeds validate_common
      validate_owner_and_mint
  check_written_position_iff amount = (λ (checked, valid). ground arith, λ spec. ground arith)

  pub check_written_vaults_iff :
      (check_written_vaults pda ctx ≡ ok tt)
      ↔ ((check_written_position pda ctx ≡ ok tt) × VaultsWritable ctx)
  unfolding check_written_vaults
  check_written_vaults_iff = (λ checked. ground arith, λ spec. ground arith)

module _ {ℓ} {S : Type ℓ} (pda : Pda) (chain : Chain S) (s : S) (ctx : DriftAccounts) where
  -- Market, stake and fund are those derived for the position, owned by Drift, and their data says
  -- the same.
  pub record FundLinked : Type 0 where
    pub market_owned : chain.account_owner s ctx.spot_market.key ≡ ctx.drift_program
    pub market_at :
        ctx.spot_market.key
        ≡ derive_spot_market pda ctx.config.state.protocol_program_id
            ctx.position.state.market_index
    pub market_self :
        read_pubkey (chain.account_bytes s ctx.spot_market.key) spot_market_pubkey_offset
        ≡ ok ctx.spot_market.key
    pub market_mint :
        read_pubkey (chain.account_bytes s ctx.spot_market.key) spot_market_mint_offset
        ≡ ok ctx.config.state.supported_mint
    pub market_fund :
        read_pubkey (chain.account_bytes s ctx.spot_market.key) spot_market_if_vault_offset
        ≡ ok ctx.insurance_fund_vault.key
    pub fund_at :
        ctx.insurance_fund_vault.key
        ≡ derive_insurance_fund_vault pda ctx.config.state.protocol_program_id
            ctx.position.state.market_index
    pub stake_owned : chain.account_owner s ctx.insurance_fund_stake.key ≡ ctx.drift_program
    pub stake_named : ctx.insurance_fund_stake.key ≡ ctx.position.state.insurance_fund_stake
    pub stake_at :
        ctx.insurance_fund_stake.key
        ≡ derive_insurance_fund_stake pda ctx.config.state.protocol_program_id
            ctx.position.state.owner ctx.position.state.market_index
    pub stake_authority :
        read_pubkey (chain.account_bytes s ctx.insurance_fund_stake.key) if_stake_authority_offset
        ≡ ok ctx.position.state.owner
    pub stake_market :
        read_u16 (chain.account_bytes s ctx.insurance_fund_stake.key) if_stake_market_index_offset
        ≡ ok ctx.position.state.market_index

  -- The user stats are the position's, and Drift's.
  pub record StatsLinked : Type 0 where
    pub owned : chain.account_owner s ctx.user_stats.key ≡ ctx.drift_program
    pub named : ctx.user_stats.key ≡ ctx.position.state.user_stats

  -- The parts of the check, each with its own data.
  abbrev FundChecked : Option Pubkey → Type 0
  FundChecked user_stats =
      (validate_drift_owned chain s ctx.spot_market.key ctx.drift_program ≡ ok tt)
      × (validate_drift_owned chain s ctx.insurance_fund_stake.key ctx.drift_program ≡ ok tt)
      × (check_user_stats chain s user_stats ctx.position.state ctx.drift_program ≡ ok tt)
      × (ctx.spot_market.key
          ≡ derive_spot_market pda ctx.config.state.protocol_program_id
              ctx.position.state.market_index)
      × (check_stake_key pda ctx.config.state ctx.position.state ctx.insurance_fund_stake.key
          ≡ ok tt)
      × (check_stake ctx.position.state (chain.account_bytes s ctx.insurance_fund_stake.key)
          ≡ ok tt)
      × (check_spot_market (chain.account_bytes s ctx.spot_market.key) ctx.spot_market.key
            ctx.config.state.supported_mint ctx.insurance_fund_vault.key
          ≡ ok tt)
      × (ctx.insurance_fund_vault.key
          ≡ derive_insurance_fund_vault pda ctx.config.state.protocol_program_id
              ctx.position.state.market_index)

  fund_parts :
      (user_stats : Option Pubkey)
      → (validate_common_drift_accounts pda chain s ctx user_stats ≡ ok tt) ↔ FundChecked user_stats
  unfolding validate_common_drift_accounts
  fund_parts user_stats = (λ accepted. ground arith, λ spec. ground arith)

  fund_spec_iff :
      (user_stats : Option Pubkey)
      → FundChecked user_stats ↔ (
          FundLinked
          × (check_user_stats chain s user_stats ctx.position.state ctx.drift_program ≡ ok tt))
  unfolding validate_drift_owned check_stake_key check_stake check_spot_market
  fund_spec_iff user_stats = (
    λ (owned, owned', stats, market, key, stake, bytes, fund). ground arith,
    λ (linked, stats). ground arith,
  )

  pub fund_linked_iff :
      (user_stats : Option Pubkey)
      → (validate_common_drift_accounts pda chain s ctx user_stats ≡ ok tt) ↔ (
          FundLinked
          × (check_user_stats chain s user_stats ctx.position.state ctx.drift_program ≡ ok tt))
  fund_linked_iff user_stats =
      let parts = fund_parts user_stats in
      let checked = fund_spec_iff user_stats in
      (λ h. checked.0 (parts.0 h), λ h. parts.1 (checked.1 h))

  pub stats_linked_iff :
      (check_user_stats chain s (some ctx.user_stats.key) ctx.position.state ctx.drift_program
        ≡ ok tt)
      ↔ StatsLinked
  unfolding check_user_stats validate_drift_owned
  stats_linked_iff = (λ accepted. ground arith, λ spec. ground arith)

  pub no_stats : check_user_stats chain s none ctx.position.state ctx.drift_program ≡ ok tt
  unfolding check_user_stats
  no_stats = refl
