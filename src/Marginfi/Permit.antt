-- ===== src/Marginfi/Permit.antt =====
-- When a deposit, a withdrawal and a value query of the MarginFi adapter pass their checks
-- (programs/adapters/marginfi-usdc/src/lib.rs).
use sol_yield.Base.{ℕ, ◌<◌, ◌≡◌, ◌↔◌, refl, sym, true, none, some, List, [], ◌∷◌, ◌++◌, arith}
use mathlib.Core.Path.{subst}
use sol_yield.Base.Result.{ok, >>-ok}
use sol_yield.Solana.Account.{Pubkey, AccountInfo}
use sol_yield.Solana.Chain.{Chain}
use sol_yield.Solana.Pda.{Pda, constrain_seeds}
use sol_yield.Marginfi.Types.{
  marginfi_usdc_id, token_account_mint_offset, token_account_owner_offset, bank_oracle_keys_offset,
  config_seeds, position_seeds, MarginfiAccounts,
}
use sol_yield.Marginfi.Fixed.{read_pubkey}
use sol_yield.Marginfi.Validate.{
  validate_owner_and_mint, validate_common, validate_protocol_program, validate_token_account,
  check_health_accounts, validate_withdraw_health_accounts, validate_protocol_state,
  validate_deposit_accounts, validate_withdraw_accounts, validate_value_accounts,
}
use sol_yield.Marginfi.Handlers.{check_config, check_position, check_written_position}
use sol_yield.Marginfi.Access.{vault_authority, Linked, validate_protocol_state_iff}

-- The caller signed and owns the position, config and position stand at their addresses, and
-- the mint is the config's.
pub record Entitled (pda : Pda) (ctx : MarginfiAccounts) : Type 0 where
  pub signed : ctx.owner.is_signer ≡ true
  pub config_at :
      pda.create_program_address
        (config_seeds ctx.config.state.supported_mint ctx.config.state.version
          ++ ((ctx.config.state.bump ∷ []) ∷ []))
        marginfi_usdc_id
      ≡ some ctx.config.key
  pub position_at :
      pda.create_program_address
        (position_seeds ctx.config.key ctx.position.state.owner
          ++ ((ctx.position.state.bump ∷ []) ∷ []))
        marginfi_usdc_id
      ≡ some ctx.position.key
  pub same_mint : ctx.mint ≡ ctx.config.state.supported_mint
  pub owned : ctx.owner.key ≡ ctx.position.state.owner

-- The accounts that a deposit or a withdrawal writes.
pub record Writable (ctx : MarginfiAccounts) : Type 0 where
  pub position : ctx.position.is_writable ≡ true
  pub account : ctx.marginfi_account.is_writable ≡ true
  pub bank : ctx.marginfi_bank.is_writable ≡ true
  pub user : ctx.owner_token_account.is_writable ≡ true
  pub vault : ctx.liquidity_vault.is_writable ≡ true

-- The first remaining account is the bank, and the second the oracle that the bank names.
abbrev pub HealthAccounts : List AccountInfo → Pubkey → List ℕ → Type 0
HealthAccounts (first ∷ second ∷ _) bank bank_bytes =
    (first.key ≡ bank) × (read_pubkey bank_bytes bank_oracle_keys_offset ≡ ok second.key)
HealthAccounts _ bank bank_bytes = ⊥

check_health_accounts_iff :
    (remaining : List AccountInfo) (bank : Pubkey) (bank_bytes : List ℕ)
    → (check_health_accounts remaining bank bank_bytes ≡ ok tt)
      ↔ HealthAccounts remaining bank bank_bytes
unfolding check_health_accounts
check_health_accounts_iff [] bank bank_bytes = (λ accepted. ground arith, λ spec. absurd spec)
check_health_accounts_iff (first ∷ []) bank bank_bytes =
    (λ accepted. ground arith, λ spec. absurd spec)
check_health_accounts_iff (first ∷ second ∷ rest) bank bank_bytes =
    (λ accepted. ground arith, λ spec. ground arith)

module _ {ℓ} {S : Type ℓ} (chain : Chain S) (s : S) (ctx : MarginfiAccounts) where
  -- The user's token account is of the token program, the mint and the user.
  pub record IsUserAccount : Type 0 where
    pub of_program : chain.account_owner s ctx.owner_token_account.key ≡ ctx.token_program
    pub of_mint :
        read_pubkey (chain.account_bytes s ctx.owner_token_account.key) token_account_mint_offset
        ≡ ok ctx.config.state.supported_mint
    pub of_owner :
        read_pubkey (chain.account_bytes s ctx.owner_token_account.key) token_account_owner_offset
        ≡ ok ctx.owner.key

  abbrev pub IsHealthChecked : Type 0
  IsHealthChecked =
      HealthAccounts ctx.remaining_accounts ctx.marginfi_bank.key
        (chain.account_bytes s ctx.marginfi_bank.key)

  validate_token_account_iff :
      (validate_token_account chain s ctx.owner_token_account.key ctx.token_program
          ctx.config.state.supported_mint ctx.owner.key
        ≡ ok tt)
      ↔ IsUserAccount
  unfolding validate_token_account
  validate_token_account_iff = (λ accepted. ground arith, λ spec. ground arith)

  validate_withdraw_health_accounts_iff :
      (validate_withdraw_health_accounts chain s ctx ≡ ok tt) ↔ IsHealthChecked
  unfolding validate_withdraw_health_accounts
  validate_withdraw_health_accounts_iff =
      check_health_accounts_iff ctx.remaining_accounts ctx.marginfi_bank.key
        (chain.account_bytes s ctx.marginfi_bank.key)

module _ (pda : Pda) (ctx : MarginfiAccounts) where
  pub check_position_iff :
      ((check_position pda ctx ≡ ok tt)
        × (validate_owner_and_mint ctx.config.state ctx.position.state ctx.owner.key ctx.mint
            ≡ ok tt))
      ↔ Entitled pda ctx
  unfolding check_position check_config constrain_seeds validate_owner_and_mint
  check_position_iff = (λ (checked, valid). ground arith, λ spec. ground arith)

  pub check_written_position_iff :
      (amount : ℕ)
      → ((check_written_position pda ctx ≡ ok tt)
          × (validate_common ctx.config.state ctx.position.state ctx.owner.key ctx.mint amount
              ≡ ok tt))
        ↔ ((0 < amount) × Entitled pda ctx × Writable ctx)
  unfolding check_written_position check_position check_config constrain_seeds validate_common
      validate_owner_and_mint
  check_written_position_iff amount = (λ (checked, valid). ground arith, λ spec. ground arith)

module _ {ℓ} {S : Type ℓ} (pda : Pda) (chain : Chain S) (s : S) (ctx : MarginfiAccounts) where
  -- The program is the config's, and the accounts of a deposit belong together.
  pub record DepositLinked : Type 0 where
    pub program : ctx.marginfi_program ≡ ctx.config.state.protocol_program_id
    pub linked : Linked pda chain s ctx ctx.liquidity_vault.key
    pub user : IsUserAccount chain s ctx

  -- So do those of a withdrawal, with the authority of the bank's vault and the accounts of
  -- MarginFi's health check.
  pub record WithdrawLinked : Type 0 where
    pub deposit_linked : DepositLinked
    pub authority :
        ctx.bank_liquidity_vault_authority
        ≡ vault_authority pda ctx.marginfi_bank.key ctx.marginfi_program
    pub healthy : IsHealthChecked chain s ctx

  -- A query has no vault: any of the bank's will do.
  pub record ValueLinked : Type 0 where
    pub program : ctx.marginfi_program ≡ ctx.config.state.protocol_program_id
    pub linked : (vault : Pubkey) × Linked pda chain s ctx vault

  validate_protocol_program_iff :
      (validate_protocol_program ctx.config.state ctx.marginfi_program ≡ ok tt)
      ↔ (ctx.marginfi_program ≡ ctx.config.state.protocol_program_id)
  unfolding validate_protocol_program
  validate_protocol_program_iff = (λ accepted. ground arith, λ spec. ground arith)

  pub validate_value_accounts_iff : (validate_value_accounts pda chain s ctx ≡ ok tt) ↔ ValueLinked
  unfolding validate_value_accounts
  validate_value_accounts_iff =
      let state = validate_protocol_state_iff pda chain s ctx none none in
      let program = validate_protocol_program_iff in
      (
        λ accepted.
            let (named, rest) =
              >>-ok (validate_protocol_program ctx.config.state ctx.marginfi_program) _ accepted in
            let (vault, linked, _, _) = state.0 rest in
            record { program = program.0 named; linked = (vault, linked) },
        λ spec. rw (program.1 spec.program, state.1 (spec.linked.0, spec.linked.1, tt, tt)),
      )

  pub validate_deposit_accounts_iff :
      (validate_deposit_accounts pda chain s ctx ≡ ok tt) ↔ DepositLinked
  unfolding validate_deposit_accounts
  validate_deposit_accounts_iff =
      let vault = ctx.liquidity_vault.key in
      let state = validate_protocol_state_iff pda chain s ctx (some vault) none in
      let program = validate_protocol_program_iff in
      let user = validate_token_account_iff chain s ctx in
      (
        λ accepted.
            let (named, rest) =
              >>-ok (validate_protocol_program ctx.config.state ctx.marginfi_program) _ accepted in
            let (checked, mine) =
              >>-ok (validate_protocol_state pda chain s ctx (some vault) none) _ rest in
            let (other, linked, same, _) = state.0 checked in
            record {
              program = program.0 named;
              linked = subst (Linked pda chain s ctx) (sym same) linked;
              user = user.0 mine;
            },
        λ spec.
            rw (program.1 spec.program, state.1 (vault, spec.linked, refl, tt), user.1 spec.user),
      )

  pub validate_withdraw_accounts_iff :
      (validate_withdraw_accounts pda chain s ctx ≡ ok tt) ↔ WithdrawLinked
  unfolding validate_withdraw_accounts
  validate_withdraw_accounts_iff =
      let vault = ctx.liquidity_vault.key in
      let authority = ctx.bank_liquidity_vault_authority in
      let state = validate_protocol_state_iff pda chain s ctx (some vault) (some authority) in
      let program = validate_protocol_program_iff in
      let user = validate_token_account_iff chain s ctx in
      let health = validate_withdraw_health_accounts_iff chain s ctx in
      (
        λ accepted.
            let (named, rest) =
              >>-ok (validate_protocol_program ctx.config.state ctx.marginfi_program) _ accepted in
            let (checked, rest') =
              >>-ok (validate_protocol_state pda chain s ctx (some vault) (some authority)) _
                rest in
            let (mine, healthy) =
              >>-ok
                (validate_token_account chain s ctx.owner_token_account.key ctx.token_program
                  ctx.config.state.supported_mint ctx.owner.key)
                _ rest' in
            let (other, linked, same, derived) = state.0 checked in
            record {
              deposit_linked = record {
                program = program.0 named;
                linked = subst (Linked pda chain s ctx) (sym same) linked;
                user = user.0 mine;
              };
              authority = derived;
              healthy = health.0 healthy;
            },
        λ spec.
            let accounts = spec.deposit_linked in
            rw (
              program.1 accounts.program,
              state.1 (vault, accounts.linked, refl, spec.authority),
              user.1 accounts.user,
              health.1 spec.healthy,
            ),
      )
