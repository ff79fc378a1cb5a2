-- ===== src/Kamino/Access.antt =====
-- What the checks of the Kamino adapter establish about config, position, reserve and the user's
-- collateral (programs/adapters/kamino-usdc/src/lib.rs, `validate_*` and the accounts structs).
use sol_yield.Base.{ℕ, ◌<◌, ◌≡◌, ◌↔◌, true, some, List, [], ◌∷◌, ◌++◌, arith}
use sol_yield.Base.Result.{ok}
use sol_yield.Solana.Account.{Pubkey}
use sol_yield.Solana.Chain.{Chain}
use sol_yield.Solana.Pda.{Pda, constrain_seeds}
use sol_yield.Kamino.Types.{
  kamino_usdc_id, token_account_mint_offset, token_account_owner_offset, config_seeds,
  position_seeds, KaminoReserveFields, KaminoAccounts,
}
use sol_yield.Kamino.Reserve.{read_pubkey, read_reserve_fields}
use sol_yield.Kamino.Validate.{
  validate_owner_and_mint, validate_common, validate_protocol_program, validate_reserve_common,
  validate_token_account_with_owner_only, validate_value_accounts,
}
use sol_yield.Kamino.Handlers.{check_config, check_position, check_written_position}

-- The caller signed and owns the position, config and position stand at their addresses, and
-- the mint is the config's.
pub record Entitled (pda : Pda) (ctx : KaminoAccounts) : Type 0 where
  pub signed : ctx.owner.is_signer ≡ true
  pub config_at :
      pda.create_program_address
        (config_seeds ctx.config.state.supported_mint ctx.config.state.version
          ++ ((ctx.config.state.bump ∷ []) ∷ []))
        kamino_usdc_id
      ≡ some ctx.config.key
  pub position_at :
      pda.create_program_address
        (position_seeds ctx.config.key ctx.position.state.owner
          ++ ((ctx.position.state.bump ∷ []) ∷ []))
        kamino_usdc_id
      ≡ some ctx.position.key
  pub same_mint : ctx.mint ≡ ctx.config.state.supported_mint
  pub owned : ctx.owner.key ≡ ctx.position.state.owner

-- The accounts that a deposit or a withdrawal writes.
pub record Writable (ctx : KaminoAccounts) : Type 0 where
  pub position : ctx.position.is_writable ≡ true
  pub reserve : ctx.reserve.is_writable ≡ true
  pub supply : ctx.reserve_liquidity_supply.is_writable ≡ true
  pub collateral_mint : ctx.reserve_collateral_mint.is_writable ≡ true
  pub liquidity : ctx.user_liquidity.is_writable ≡ true
  pub collateral : ctx.user_collateral.is_writable ≡ true

module _ (pda : Pda) (ctx : KaminoAccounts) where
  pub check_position_iff :
      ((check_position pda ctx ≡ ok tt)
        × (validate_owner_and_mint ctx.config.state ctx.position.state ctx.owner.key ctx.mint
            ≡ ok tt))
      ↔ Entitled pda ctx
  unfolding check_position check_config constrain_seeds validate_owner_and_mint
  check_position_iff = (λ (checked, valid). ground arith, λ spec. ground arith)

  pub check_written_position_iff :
      (amount : ℕ)
      → ((check_written_position pda ctx ≡ ok tt)
          × (validate_common ctx.config.state ctx.position.state ctx.owner.key ctx.mint amount
              ≡ ok tt))
        ↔ ((0 < amount) × Entitled pda ctx × Writable ctx)
  unfolding check_written_position check_position check_config constrain_seeds validate_common
      validate_owner_and_mint
  check_written_position_iff amount = (λ (checked, valid). ground arith, λ spec. ground arith)

-- The bytes of a token account of this mint and owner.
pub record Holds (bytes : List ℕ) (mint owner : Pubkey) : Type 0 where
  pub of_mint : read_pubkey bytes token_account_mint_offset ≡ ok mint
  pub of_owner : read_pubkey bytes token_account_owner_offset ≡ ok owner

token_account_iff :
    (bytes : List ℕ) (mint owner : Pubkey)
    → (validate_token_account_with_owner_only bytes mint owner ≡ ok tt) ↔ Holds bytes mint owner
unfolding validate_token_account_with_owner_only
token_account_iff bytes mint owner = (λ accepted. ground arith, λ spec. ground arith)

module _ {ℓ} {S : Type ℓ} (chain : Chain S) (s : S) (ctx : KaminoAccounts)
    (fields : KaminoReserveFields) where
  -- Program and reserve are those of the config and of the position, the program owns the
  -- reserve, these are the fields of its data, and its mint is the config's.
  pub record ReserveLinked : Type 0 where
    pub program : ctx.kamino_program ≡ ctx.config.state.protocol_program_id
    pub named : ctx.reserve.key ≡ ctx.position.state.reserve
    pub owned : chain.account_owner s ctx.reserve.key ≡ ctx.kamino_program
    pub shown : read_reserve_fields (chain.account_bytes s ctx.reserve.key) ≡ ok fields
    pub of_mint : fields.liquidity_mint ≡ ctx.config.state.supported_mint

  -- The user's collateral account is the one that the position names, and holds the reserve's
  -- collateral for the user.
  pub record CollateralHeld : Type 0 where
    pub named : ctx.user_collateral.key ≡ ctx.position.state.collateral_token_account
    pub holds :
        Holds (chain.account_bytes s ctx.user_collateral.key) fields.collateral_mint ctx.owner.key

  pub reserve_linked_iff :
      ((validate_protocol_program ctx.config.state ctx.kamino_program ≡ ok tt)
        × (validate_reserve_common chain s ctx.config.state ctx.position.state ctx.kamino_program
              ctx.reserve.key
            ≡ ok fields))
      ↔ ReserveLinked
  unfolding validate_protocol_program validate_reserve_common
  reserve_linked_iff = (λ (program, reserve). ground arith, λ spec. ground arith)

  value_parts : (validate_value_accounts chain s ctx ≡ ok fields) ↔ (
      (validate_protocol_program ctx.config.state ctx.kamino_program ≡ ok tt)
      × (validate_reserve_common chain s ctx.config.state ctx.position.state ctx.kamino_program
            ctx.reserve.key
          ≡ ok fields)
      × (validate_token_account_with_owner_only
            (chain.account_bytes s ctx.user_collateral.key)
            fields.collateral_mint
            ctx.owner.key
          ≡ ok tt)
      × (ctx.user_collateral.key ≡ ctx.position.state.collateral_token_account))
  unfolding validate_value_accounts
  value_parts = (λ accepted. ground arith, λ spec. ground arith)

  pub validate_value_accounts_iff :
      (validate_value_accounts chain s ctx ≡ ok fields) ↔ (ReserveLinked × CollateralHeld)
  validate_value_accounts_iff =
      let bytes = chain.account_bytes s ctx.user_collateral.key in
      let holds = token_account_iff bytes fields.collateral_mint ctx.owner.key in
      (
        λ accepted.
            let (program, reserve, held, named) = value_parts.0 accepted in
            (
              reserve_linked_iff.0 (program, reserve),
              record { named = named; holds = holds.0 held },
            ),
        λ (linked, collateral).
            let (program, reserve) = reserve_linked_iff.1 linked in
            value_parts.1 (program, reserve, holds.1 collateral.holds, collateral.named),
      )
