-- ===== src/Maple/Access.antt =====
-- What the checks of the Maple/Syrup adapter establish about the accounts of a call
-- (programs/adapters/maple-syrup/src/lib.rs, `validate_*` and the accounts structs).
use sol_yield.Base.{ℕ, ◌<◌, ◌≡◌, ◌↔◌, true, some, [], ◌∷◌, ◌++◌, arith}
use sol_yield.Base.Result.{ok, >>-ok}
use sol_yield.Solana.Account.{Pubkey}
use sol_yield.Solana.Chain.{Chain}
use sol_yield.Solana.Pda.{Pda, constrain_seeds}
use sol_yield.Maple.Types.{
  maple_syrup_id, maple_syrup_usdc_mint, maple_syrup_usdc_oracle, chainlink_store_program_id,
  token_program_id, token_account_mint_offset, token_account_owner_offset, config_seeds,
  position_seeds, VaultAccounts,
}
use sol_yield.Maple.Feed.{read_pubkey}
use sol_yield.Maple.Validate.{
  validate_owner_and_mint, validate_common, validate_token_program, validate_position_vault,
  validate_token_account_with_owner_only, validate_token_account, validate_price_feed,
  validate_deposit_accounts, validate_withdraw_accounts, validate_value_accounts,
}
use sol_yield.Maple.Handlers.{check_config, check_position, check_written_position}

-- The caller signed and owns the position, config and position stand at their addresses, and
-- the mint is the config's, and syrupUSDC.
pub record Entitled (pda : Pda) (ctx : VaultAccounts) : Type 0 where
  pub signed : ctx.owner.is_signer ≡ true
  pub config_at :
      pda.create_program_address
        (config_seeds ctx.config.state.supported_mint ctx.config.state.version
          ++ ((ctx.config.state.bump ∷ []) ∷ []))
        maple_syrup_id
      ≡ some ctx.config.key
  pub position_at :
      pda.create_program_address
        (position_seeds ctx.config.key ctx.position.state.owner
          ++ ((ctx.position.state.bump ∷ []) ∷ []))
        maple_syrup_id
      ≡ some ctx.position.key
  pub same_mint : ctx.mint ≡ ctx.config.state.supported_mint
  pub usdc : ctx.mint ≡ maple_syrup_usdc_mint
  pub owned : ctx.owner.key ≡ ctx.position.state.owner

-- The accounts that a deposit or a withdrawal writes.
pub record Writable (ctx : VaultAccounts) : Type 0 where
  pub position : ctx.position.is_writable ≡ true
  pub user : ctx.user_token_account.is_writable ≡ true
  pub vault : ctx.vault_token_account.is_writable ≡ true

module _ {ℓ} {S : Type ℓ} (chain : Chain S) (s : S) where
  -- A token account of this program, mint and owner.
  pub record IsTokenAccount (key program mint owner : Pubkey) : Type 0 where
    pub of_program : chain.account_owner s key ≡ program
    pub of_mint : read_pubkey (chain.account_bytes s key) token_account_mint_offset ≡ ok mint
    pub of_owner : read_pubkey (chain.account_bytes s key) token_account_owner_offset ≡ ok owner

  -- The token program is the SPL one and the config's, the vault is the one that the position
  -- names and holds the mint for the position, and the feed is Chainlink's.
  pub record Linked (ctx : VaultAccounts) : Type 0 where
    pub config_program : ctx.config.state.protocol_program_id ≡ ctx.token_program
    pub spl : ctx.token_program ≡ token_program_id
    pub named : ctx.vault_token_account.key ≡ ctx.position.state.vault_token_account
    pub vault :
        IsTokenAccount ctx.vault_token_account.key ctx.token_program ctx.config.state.supported_mint
          ctx.position.key
    pub feed : ctx.price_feed ≡ maple_syrup_usdc_oracle
    pub chainlink : chain.account_owner s ctx.price_feed ≡ chainlink_store_program_id

  abbrev pub IsUserAccount : VaultAccounts → Type 0
  IsUserAccount ctx =
      IsTokenAccount ctx.user_token_account.key ctx.token_program ctx.config.state.supported_mint
        ctx.owner.key

  -- A token account is accepted exactly when its program owns it and its data names the mint and
  -- the owner.
  pub validate_token_account_iff :
      (key program mint owner : Pubkey)
      → (validate_token_account chain s key program mint owner ≡ ok tt)
        ↔ IsTokenAccount key program mint owner
  unfolding validate_token_account validate_token_account_with_owner_only
  validate_token_account_iff key program mint owner =
      (λ accepted. ground arith, λ spec. ground arith)

  pub validate_value_accounts_iff :
      (ctx : VaultAccounts) → (validate_value_accounts chain s ctx ≡ ok tt) ↔ Linked ctx
  unfolding validate_value_accounts validate_token_program validate_position_vault
      validate_price_feed
  validate_value_accounts_iff ctx =
      let vault =
        validate_token_account_iff ctx.vault_token_account.key ctx.token_program
          ctx.config.state.supported_mint ctx.position.key in
      (λ accepted. ground arith, λ spec. ground arith)

  validate_withdraw_accounts_parts :
      (ctx : VaultAccounts)
      → (validate_withdraw_accounts chain s ctx ≡ ok tt) ↔ (
          (validate_value_accounts chain s ctx ≡ ok tt)
          × (validate_token_account chain s ctx.user_token_account.key ctx.token_program
                ctx.config.state.supported_mint ctx.owner.key
              ≡ ok tt))
  unfolding validate_withdraw_accounts validate_value_accounts
  validate_withdraw_accounts_parts ctx = (
    λ accepted.
        let (program, rest) =
          >>-ok (validate_token_program ctx.config.state.protocol_program_id ctx.token_program) _
            accepted in
        let (named, rest') =
          >>-ok (validate_position_vault ctx.position.state ctx.vault_token_account.key) _ rest in
        let (vault, rest'') =
          >>-ok
            (validate_token_account chain s ctx.vault_token_account.key ctx.token_program
              ctx.config.state.supported_mint ctx.position.key)
            _ rest' in
        let (mine, feed) =
          >>-ok
            (validate_token_account chain s ctx.user_token_account.key ctx.token_program
              ctx.config.state.supported_mint ctx.owner.key)
            _ rest'' in
        (ground arith, mine),
    λ spec. ground arith,
  )

  pub validate_withdraw_accounts_iff :
      (ctx : VaultAccounts)
      → (validate_withdraw_accounts chain s ctx ≡ ok tt) ↔ (Linked ctx × IsUserAccount ctx)
  validate_withdraw_accounts_iff ctx =
      let parts = validate_withdraw_accounts_parts ctx in
      let linked = validate_value_accounts_iff ctx in
      let user =
        validate_token_account_iff ctx.user_token_account.key ctx.token_program
          ctx.config.state.supported_mint ctx.owner.key in
      (
        λ accepted. (linked.0 (parts.0 accepted).0, user.0 (parts.0 accepted).1),
        λ (link, mine). parts.1 (linked.1 link, user.1 mine),
      )

  validate_deposit_accounts_parts :
      (ctx : VaultAccounts)
      → (validate_deposit_accounts chain s ctx ≡ ok tt) ↔ (
          (validate_value_accounts chain s ctx ≡ ok tt)
          × (validate_token_account chain s ctx.user_token_account.key ctx.token_program
                ctx.config.state.supported_mint ctx.owner.key
              ≡ ok tt))
  unfolding validate_deposit_accounts validate_value_accounts
  validate_deposit_accounts_parts ctx = (
    λ accepted.
        let (program, rest) =
          >>-ok (validate_token_program ctx.config.state.protocol_program_id ctx.token_program) _
            accepted in
        let (named, rest') =
          >>-ok (validate_position_vault ctx.position.state ctx.vault_token_account.key) _ rest in
        let (mine, rest'') =
          >>-ok
            (validate_token_account chain s ctx.user_token_account.key ctx.token_program
              ctx.config.state.supported_mint ctx.owner.key)
            _ rest' in
        let (vault, feed) =
          >>-ok
            (validate_token_account chain s ctx.vault_token_account.key ctx.token_program
              ctx.config.state.supported_mint ctx.position.key)
            _ rest'' in
        (ground arith, mine),
    λ spec. ground arith,
  )

  pub validate_deposit_accounts_iff :
      (ctx : VaultAccounts)
      → (validate_deposit_accounts chain s ctx ≡ ok tt) ↔ (Linked ctx × IsUserAccount ctx)
  validate_deposit_accounts_iff ctx =
      let parts = validate_deposit_accounts_parts ctx in
      let linked = validate_value_accounts_iff ctx in
      let user =
        validate_token_account_iff ctx.user_token_account.key ctx.token_program
          ctx.config.state.supported_mint ctx.owner.key in
      (
        λ accepted. (linked.0 (parts.0 accepted).0, user.0 (parts.0 accepted).1),
        λ (link, mine). parts.1 (linked.1 link, user.1 mine),
      )

module _ (pda : Pda) where
  pub check_position_iff :
      (ctx : VaultAccounts)
      → ((check_position pda ctx ≡ ok tt)
          × (validate_owner_and_mint ctx.config.state ctx.position.state ctx.owner.key ctx.mint
              ≡ ok tt))
        ↔ Entitled pda ctx
  unfolding check_position check_config constrain_seeds validate_owner_and_mint
  check_position_iff ctx = (λ (checked, valid). ground arith, λ spec. ground arith)

  pub check_written_position_iff :
      (ctx : VaultAccounts) (amount : ℕ)
      → ((check_written_position pda ctx ≡ ok tt)
          × (validate_common ctx.config.state ctx.position.state ctx.owner.key ctx.mint amount
              ≡ ok tt))
        ↔ ((0 < amount) × Entitled pda ctx × Writable ctx)
  unfolding check_written_position check_position check_config constrain_seeds validate_common
      validate_owner_and_mint
  check_written_position_iff ctx amount = (λ (checked, valid). ground arith, λ spec. ground arith)
