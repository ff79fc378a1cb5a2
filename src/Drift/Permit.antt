-- ===== src/Drift/Permit.antt =====
-- When the accounts of a deposit, a withdrawal and a value query of the Drift adapter belong
-- together (programs/adapters/drift-insurance-fund/src/lib.rs, `validate_*_accounts`).
use sol_yield.Base.{◌≡◌, ◌↔◌, none, some, [], ◌∷◌, arith}
use sol_yield.Base.Result.{ok}
use sol_yield.Solana.Chain.{Chain}
use sol_yield.Solana.Pda.{Pda}
use sol_yield.Drift.Types.{
  drift_signer_seed, token_account_mint_offset, token_account_owner_offset,
  spot_market_vault_offset, DriftAccounts,
}
use sol_yield.Drift.Stake.{read_pubkey}
use sol_yield.Drift.Validate.{
  validate_protocol_program, validate_drift_owned, validate_common_drift_accounts,
  validate_spot_market_vault, validate_drift_signer, validate_token_account,
  validate_if_vault_token_account, validate_deposit_accounts, validate_withdraw_accounts,
  validate_value_accounts,
}
use sol_yield.Drift.Access.{FundLinked, StatsLinked, fund_linked_iff, stats_linked_iff, no_stats}

module _ {ℓ} {S : Type ℓ} (pda : Pda) (chain : Chain S) (s : S) (ctx : DriftAccounts) where
  -- State, market vault and signer are Drift's, the user's account holds the mint for the user,
  -- and it and the fund's vault are of the token program.
  pub record VaultsLinked : Type 0 where
    pub state_owned : chain.account_owner s ctx.state ≡ ctx.drift_program
    pub market_vault :
        read_pubkey (chain.account_bytes s ctx.spot_market.key) spot_market_vault_offset
        ≡ ok ctx.spot_market_vault.key
    pub signer :
        ctx.drift_signer
        ≡ (pda.find_program_address (drift_signer_seed ∷ []) ctx.config.state.protocol_program_id).0
    pub tokens_of_program : chain.account_owner s ctx.user_token_account.key ≡ ctx.token_program
    pub tokens_mint :
        read_pubkey (chain.account_bytes s ctx.user_token_account.key) token_account_mint_offset
        ≡ ok ctx.config.state.supported_mint
    pub tokens_owner :
        read_pubkey (chain.account_bytes s ctx.user_token_account.key) token_account_owner_offset
        ≡ ok ctx.owner.key
    pub fund_of_program : chain.account_owner s ctx.insurance_fund_vault.key ≡ ctx.token_program
    pub fund_mint :
        read_pubkey (chain.account_bytes s ctx.insurance_fund_vault.key) token_account_mint_offset
        ≡ ok ctx.config.state.supported_mint

  -- What the checks of a deposit say beside the common ones.
  abbrev VaultsChecked : Type 0
  VaultsChecked =
      (validate_drift_owned chain s ctx.state ctx.drift_program ≡ ok tt)
      × (validate_spot_market_vault (chain.account_bytes s ctx.spot_market.key)
            ctx.spot_market_vault.key
          ≡ ok tt)
      × (validate_drift_signer pda ctx.config.state.protocol_program_id ctx.drift_signer ≡ ok tt)
      × (validate_token_account chain s ctx.user_token_account.key ctx.token_program
            ctx.config.state.supported_mint ctx.owner.key
          ≡ ok tt)
      × (validate_if_vault_token_account chain s ctx.insurance_fund_vault.key ctx.token_program
            ctx.config.state.supported_mint
          ≡ ok tt)

  vaults_checked_iff : VaultsChecked ↔ VaultsLinked
  unfolding validate_drift_owned validate_spot_market_vault validate_drift_signer
      validate_token_account validate_if_vault_token_account
  vaults_checked_iff =
      (λ (owned, vault, signer, tokens, fund). ground arith, λ linked. ground arith)

  deposit_parts : (validate_deposit_accounts pda chain s ctx ≡ ok tt) ↔ (
      (validate_protocol_program ctx.config.state ctx.drift_program ≡ ok tt)
      × (validate_common_drift_accounts pda chain s ctx (some ctx.user_stats.key) ≡ ok tt)
      × VaultsChecked)
  unfolding validate_deposit_accounts
  deposit_parts = (λ accepted. ground arith, λ spec. ground arith)

  withdraw_parts : (validate_withdraw_accounts pda chain s ctx ≡ ok tt) ↔ (
      (validate_protocol_program ctx.config.state ctx.drift_program ≡ ok tt)
      × (validate_common_drift_accounts pda chain s ctx (some ctx.user_stats.key) ≡ ok tt))
  unfolding validate_withdraw_accounts
  withdraw_parts = (λ accepted. ground arith, λ spec. ground arith)

  value_parts : (validate_value_accounts pda chain s ctx ≡ ok tt) ↔ (
      (validate_protocol_program ctx.config.state ctx.drift_program ≡ ok tt)
      × (validate_common_drift_accounts pda chain s ctx none ≡ ok tt))
  unfolding validate_value_accounts
  value_parts = (λ accepted. ground arith, λ spec. ground arith)

  program_iff :
      (validate_protocol_program ctx.config.state ctx.drift_program ≡ ok tt)
      ↔ (ctx.drift_program ≡ ctx.config.state.protocol_program_id)
  unfolding validate_protocol_program
  program_iff = (λ accepted. ground arith, λ spec. ground arith)

  -- All accounts of a value query, of a withdrawal and of a deposit belong together.
  pub record ValueLinked : Type 0 where
    pub program : ctx.drift_program ≡ ctx.config.state.protocol_program_id
    pub fund : FundLinked pda chain s ctx

  pub record WithdrawLinked : Type 0 where
    pub program : ctx.drift_program ≡ ctx.config.state.protocol_program_id
    pub fund : FundLinked pda chain s ctx
    pub stats : StatsLinked pda chain s ctx

  pub record DepositLinked : Type 0 where
    pub withdrawable : WithdrawLinked
    pub vaults : VaultsLinked

  pub validate_value_accounts_iff : (validate_value_accounts pda chain s ctx ≡ ok tt) ↔ ValueLinked
  validate_value_accounts_iff =
      let fund = fund_linked_iff pda chain s ctx none in
      (
        λ accepted.
            let (program, common) = value_parts.0 accepted in
            record { program = program_iff.0 program; fund = (fund.0 common).0 },
        λ linked.
            value_parts.1
              (program_iff.1 linked.program, fund.1 (linked.fund, no_stats pda chain s ctx)),
      )

  pub validate_withdraw_accounts_iff :
      (validate_withdraw_accounts pda chain s ctx ≡ ok tt) ↔ WithdrawLinked
  validate_withdraw_accounts_iff =
      let fund = fund_linked_iff pda chain s ctx (some ctx.user_stats.key) in
      let stats = stats_linked_iff pda chain s ctx in
      (
        λ accepted.
            let (program, common) = withdraw_parts.0 accepted in
            let (linked, known) = fund.0 common in
            record { program = program_iff.0 program; fund = linked; stats = stats.0 known },
        λ linked.
            withdraw_parts.1
              (program_iff.1 linked.program, fund.1 (linked.fund, stats.1 linked.stats)),
      )

  pub validate_deposit_accounts_iff :
      (validate_deposit_accounts pda chain s ctx ≡ ok tt) ↔ DepositLinked
  validate_deposit_accounts_iff = (
    λ accepted.
        let (program, common, vaults) = deposit_parts.0 accepted in
        record {
          withdrawable = validate_withdraw_accounts_iff.0 (withdraw_parts.1 (program, common));
          vaults = vaults_checked_iff.0 vaults;
        },
    λ linked.
        let (program, common) =
          withdraw_parts.0 (validate_withdraw_accounts_iff.1 linked.withdrawable) in
        deposit_parts.1 (program, common, vaults_checked_iff.1 linked.vaults),
  )
