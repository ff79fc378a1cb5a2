-- ===== src/Kamino/Permit.antt =====
-- When the accounts of a deposit and of a withdrawal of the Kamino adapter belong together
-- (programs/adapters/kamino-usdc/src/lib.rs, `validate_deposit_accounts` and
-- `validate_withdraw_accounts`).
use sol_yield.Base.{◌≡◌, ◌↔◌, [], ◌∷◌, arith}
use sol_yield.Base.Result.{ok}
use sol_yield.Solana.Account.{Pubkey, pubkey_bytes}
use sol_yield.Solana.Chain.{Chain}
use sol_yield.Solana.Pda.{Pda}
use sol_yield.Kamino.Types.{lending_market_auth_seed, KaminoReserveFields, KaminoAccounts}
use sol_yield.Kamino.Validate.{
  validate_protocol_program, validate_reserve_common, validate_market_accounts,
  validate_reserve_vault_accounts, validate_token_account, validate_token_account_with_owner_only,
  validate_instruction_sysvar, validate_reserve_accounts, validate_deposit_accounts,
  validate_withdraw_accounts,
}
use sol_yield.Kamino.Access.{Holds, ReserveLinked, CollateralHeld, reserve_linked_iff}

module _ {ℓ} {S : Type ℓ} (pda : Pda) (instructions_sysvar_id : Pubkey) (chain : Chain S) (s : S)
    (ctx : KaminoAccounts) (fields : KaminoReserveFields) where
  -- Market, authority, mints, vault and token program are those of the reserve.
  pub record MarketLinked : Type 0 where
    pub market : ctx.lending_market ≡ fields.lending_market
    pub authority :
        ctx.lending_market_authority
        ≡ (pda.find_program_address
            (lending_market_auth_seed ∷ pubkey_bytes ctx.lending_market ∷ [])
            ctx.kamino_program).0
    pub liquidity_mint : ctx.reserve_liquidity_mint ≡ fields.liquidity_mint
    pub supply : ctx.reserve_liquidity_supply.key ≡ fields.liquidity_supply
    pub collateral_mint : ctx.reserve_collateral_mint.key ≡ fields.collateral_mint
    pub token_program : ctx.liquidity_token_program ≡ fields.liquidity_token_program

  -- The user's two accounts are of their token programs, the liquidity account holds the mint for
  -- the user, and the sysvar is the right one.
  pub record UserLinked : Type 0 where
    pub liquidity_of_program :
        chain.account_owner s ctx.user_liquidity.key ≡ ctx.liquidity_token_program
    pub liquidity_holds :
        Holds
          (chain.account_bytes s ctx.user_liquidity.key)
          ctx.config.state.supported_mint
          ctx.owner.key
    pub collateral_of_program :
        chain.account_owner s ctx.user_collateral.key ≡ ctx.collateral_token_program
    pub sysvar : ctx.instruction_sysvar_account ≡ instructions_sysvar_id

  market_linked_iff :
      ((validate_market_accounts pda ctx.kamino_program fields ctx.lending_market
            ctx.lending_market_authority
          ≡ ok tt)
        × (validate_reserve_vault_accounts fields ctx.reserve_liquidity_mint
              ctx.reserve_liquidity_supply.key ctx.reserve_collateral_mint.key
              ctx.liquidity_token_program
            ≡ ok tt))
      ↔ MarketLinked
  unfolding validate_market_accounts validate_reserve_vault_accounts
  market_linked_iff = (λ (market, vaults). ground arith, λ spec. ground arith)

  reserve_parts : (validate_reserve_accounts pda instructions_sysvar_id chain s ctx ≡ ok fields) ↔ (
      ((validate_protocol_program ctx.config.state ctx.kamino_program ≡ ok tt)
        × (validate_reserve_common chain s ctx.config.state ctx.position.state ctx.kamino_program
              ctx.reserve.key
            ≡ ok fields))
      × ((validate_market_accounts pda ctx.kamino_program fields ctx.lending_market
              ctx.lending_market_authority
            ≡ ok tt)
          × (validate_reserve_vault_accounts fields ctx.reserve_liquidity_mint
                ctx.reserve_liquidity_supply.key ctx.reserve_collateral_mint.key
                ctx.liquidity_token_program
              ≡ ok tt)))
  unfolding validate_reserve_accounts
  reserve_parts = (λ accepted. ground arith, λ spec. ground arith)

  reserve_accounts_iff :
      (validate_reserve_accounts pda instructions_sysvar_id chain s ctx ≡ ok fields)
      ↔ (ReserveLinked chain s ctx fields × MarketLinked)
  reserve_accounts_iff =
      let reserve = reserve_linked_iff chain s ctx fields in
      (
        λ accepted.
            let (linked, market) = reserve_parts.0 accepted in
            (reserve.0 linked, market_linked_iff.0 market),
        λ (linked, market). reserve_parts.1 (reserve.1 linked, market_linked_iff.1 market),
      )

  -- What the checks of the user's accounts say, in either order.
  abbrev UserChecked : Type 0
  UserChecked =
      (validate_token_account chain s ctx.user_liquidity.key ctx.liquidity_token_program
          ctx.config.state.supported_mint ctx.owner.key
        ≡ ok tt)
      × (validate_token_account chain s ctx.user_collateral.key ctx.collateral_token_program
            fields.collateral_mint ctx.owner.key
          ≡ ok tt)
      × (ctx.user_collateral.key ≡ ctx.position.state.collateral_token_account)
      × (validate_instruction_sysvar instructions_sysvar_id ctx.instruction_sysvar_account ≡ ok tt)

  user_checked_iff : UserChecked ↔ (CollateralHeld chain s ctx fields × UserLinked)
  unfolding validate_token_account validate_token_account_with_owner_only
      validate_instruction_sysvar
  user_checked_iff =
      (λ (liquidity, collateral, named, sysvar). ground arith, λ (held, linked). ground arith)

  deposit_parts : (validate_deposit_accounts pda instructions_sysvar_id chain s ctx ≡ ok fields) ↔ (
      (validate_reserve_accounts pda instructions_sysvar_id chain s ctx ≡ ok fields) × UserChecked)
  unfolding validate_deposit_accounts
  deposit_parts = (λ accepted. ground arith, λ spec. ground arith)

  withdraw_parts :
      (validate_withdraw_accounts pda instructions_sysvar_id chain s ctx ≡ ok fields) ↔ (
        (validate_reserve_accounts pda instructions_sysvar_id chain s ctx ≡ ok fields)
        × UserChecked)
  unfolding validate_withdraw_accounts
  withdraw_parts = (λ accepted. ground arith, λ spec. ground arith)

  -- All accounts of a deposit or a withdrawal belong together.
  pub record Linked : Type 0 where
    pub reserve : ReserveLinked chain s ctx fields
    pub market : MarketLinked
    pub collateral : CollateralHeld chain s ctx fields
    pub user : UserLinked

  linked_iff :
      ((validate_reserve_accounts pda instructions_sysvar_id chain s ctx ≡ ok fields) × UserChecked)
      ↔ Linked
  linked_iff = (
    λ (accounts, users).
        let (reserve, market) = reserve_accounts_iff.0 accounts in
        let (collateral, user) = user_checked_iff.0 users in
        record { reserve = reserve; market = market; collateral = collateral; user = user },
    λ linked. (
      reserve_accounts_iff.1 (linked.reserve, linked.market),
      user_checked_iff.1 (linked.collateral, linked.user),
    ),
  )

  pub validate_deposit_accounts_iff :
      (validate_deposit_accounts pda instructions_sysvar_id chain s ctx ≡ ok fields) ↔ Linked
  validate_deposit_accounts_iff =
      (λ h. linked_iff.0 (deposit_parts.0 h), λ h. deposit_parts.1 (linked_iff.1 h))

  pub validate_withdraw_accounts_iff :
      (validate_withdraw_accounts pda instructions_sysvar_id chain s ctx ≡ ok fields) ↔ Linked
  validate_withdraw_accounts_iff =
      (λ h. linked_iff.0 (withdraw_parts.0 h), λ h. withdraw_parts.1 (linked_iff.1 h))
