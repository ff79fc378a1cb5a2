-- ===== src/Jupiter/Access.antt =====
-- What the checks of the Jupiter adapter establish about config, position and the accounts that
-- the adapter knows by their addresses (programs/adapters/jupiter-lp/src/lib.rs, `validate_*` and
-- the accounts structs).
use sol_yield.Base.{
  ℕ, ◌+◌, ◌<◌, ◌≤◌, ◌≡◌, ◌↔◌, true, some, List, [], ◌∷◌, ◌++◌, length, take, arith,
}
use sol_yield.Base.Bytes.{bytes_eq}
use sol_yield.Base.Data.{index}
use sol_yield.Base.Result.{ok}
use sol_yield.Solana.Account.{Pubkey}
use sol_yield.Solana.Pda.{Pda, constrain_seeds}
use sol_yield.Jupiter.Types.{
  JupiterLpError, jupiter_lp_id, jupiter_perps_program_id, jlp_pool, jlp_usdc_custody,
  jlp_usdc_doves_ag_price_account, token_program_id, perpetuals_seed, transfer_authority_seed,
  event_authority_seed, custody_discriminator, token_account_mint_offset,
  token_account_owner_offset, mint_decimals_offset, custody_pool_offset, custody_mint_offset,
  custody_token_account_offset, custody_pythnet_price_account_offset,
  custody_doves_ag_price_account_offset, config_seeds, position_seeds, JupiterAccounts,
}
use sol_yield.Jupiter.Pool.{read_pubkey}
use sol_yield.Jupiter.Validate.{
  validate_owner_and_mint, validate_common, validate_protocol_program, validate_token_program,
  validate_static_position_accounts, validate_jupiter_pdas, validate_custody_basic,
  validate_custody_accounts, validate_mint_with_owner_only, validate_token_account_with_owner_only,
}
use sol_yield.Jupiter.Handlers.{check_config, check_position, check_written_position}

-- The caller signed and owns the position, config and position stand at their addresses, and
-- the mint is the config's.
pub record Entitled (pda : Pda) (ctx : JupiterAccounts) : Type 0 where
  pub signed : ctx.owner.is_signer ≡ true
  pub config_at :
      pda.create_program_address
        (config_seeds ctx.config.state.supported_mint ctx.config.state.version
          ++ ((ctx.config.state.bump ∷ []) ∷ []))
        jupiter_lp_id
      ≡ some ctx.config.key
  pub position_at :
      pda.create_program_address
        (position_seeds ctx.config.key ctx.position.state.owner
          ++ ((ctx.position.state.bump ∷ []) ∷ []))
        jupiter_lp_id
      ≡ some ctx.position.key
  pub same_mint : ctx.mint ≡ ctx.config.state.supported_mint
  pub owned : ctx.owner.key ≡ ctx.position.state.owner

-- The accounts that a deposit or a withdrawal writes.
pub record Writable (ctx : JupiterAccounts) : Type 0 where
  pub position : ctx.position.is_writable ≡ true
  pub tokens : ctx.user_token_account.is_writable ≡ true
  pub lp_tokens : ctx.lp_token_account.is_writable ≡ true
  pub pool : ctx.pool.is_writable ≡ true
  pub custody : ctx.custody.is_writable ≡ true
  pub custody_tokens : ctx.custody_token_account.is_writable ≡ true
  pub lp_mint : ctx.lp_token_mint.is_writable ≡ true

-- The program and its accounts that have fixed addresses.
pub record ProgramLinked (pda : Pda) (ctx : JupiterAccounts) : Type 0 where
  pub configured : ctx.config.state.protocol_program_id ≡ ctx.jupiter_program
  pub known : ctx.jupiter_program ≡ jupiter_perps_program_id
  pub perpetuals :
      ctx.perpetuals ≡ (pda.find_program_address (perpetuals_seed ∷ []) ctx.jupiter_program).0
  pub authority :
      ctx.transfer_authority
      ≡ (pda.find_program_address (transfer_authority_seed ∷ []) ctx.jupiter_program).0
  pub events :
      ctx.event_authority
      ≡ (pda.find_program_address (event_authority_seed ∷ []) ctx.jupiter_program).0
  pub tokens : ctx.token_program ≡ token_program_id

-- Pool, custody and LP account are the position's, and the first two the known ones.
pub record PositionLinked (ctx : JupiterAccounts) : Type 0 where
  pub pool : ctx.pool.key ≡ ctx.position.state.pool
  pub pool_known : ctx.pool.key ≡ jlp_pool
  pub custody : ctx.custody.key ≡ ctx.position.state.custody
  pub custody_known : ctx.custody.key ≡ jlp_usdc_custody
  pub lp_tokens : ctx.lp_token_account.key ≡ ctx.position.state.lp_token_account

-- The bytes of a token account of this mint and owner.
pub record Holds (bytes : List ℕ) (mint owner : Pubkey) : Type 0 where
  pub of_mint : read_pubkey bytes token_account_mint_offset ≡ ok mint
  pub of_owner : read_pubkey bytes token_account_owner_offset ≡ ok owner

-- A custody of the program, for this pool and mint.
pub record CustodyOf (custody_owner : Pubkey) (bytes : List ℕ) (pool mint : Pubkey) : Type 0 where
  pub owned : custody_owner ≡ jupiter_perps_program_id
  pub long_enough : custody_doves_ag_price_account_offset + 32 ≤ length bytes
  pub marked : bytes_eq (take 8 bytes) custody_discriminator ≡ true
  pub of_pool : read_pubkey bytes custody_pool_offset ≡ ok pool
  pub of_mint : read_pubkey bytes custody_mint_offset ≡ ok mint

-- The token account and the price accounts are those of the custody.
pub record CustodyLinked (bytes : List ℕ) (ctx : JupiterAccounts) : Type 0 where
  pub tokens : read_pubkey bytes custody_token_account_offset ≡ ok ctx.custody_token_account.key
  pub doves :
      read_pubkey bytes custody_doves_ag_price_account_offset ≡ ok ctx.custody_doves_price_account
  pub doves_known : ctx.custody_doves_price_account ≡ jlp_usdc_doves_ag_price_account
  pub pythnet :
      read_pubkey bytes custody_pythnet_price_account_offset ≡ ok ctx.custody_pythnet_price_account

module _ (pda : Pda) (ctx : JupiterAccounts) where
  check_position_iff :
      ((check_position pda ctx ≡ ok tt)
        × (validate_owner_and_mint ctx.config.state ctx.position.state ctx.owner.key ctx.mint
            ≡ ok tt))
      ↔ Entitled pda ctx
  unfolding check_position check_config constrain_seeds validate_owner_and_mint
  check_position_iff = (λ (checked, valid). ground arith, λ spec. ground arith)

  pub check_written_position_iff :
      (amount : ℕ)
      → ((check_written_position pda ctx ≡ ok tt)
          × (validate_common ctx.config.state ctx.position.state ctx.owner.key ctx.mint amount
              ≡ ok tt))
        ↔ ((0 < amount) × Entitled pda ctx × Writable ctx)
  unfolding check_written_position check_position check_config constrain_seeds validate_common
      validate_owner_and_mint
  check_written_position_iff amount = (λ (checked, valid). ground arith, λ spec. ground arith)

  pub program_accounts_iff :
      ((validate_protocol_program ctx.config.state.protocol_program_id ctx.jupiter_program ≡ ok tt)
        × (validate_jupiter_pdas pda ctx.jupiter_program ctx.transfer_authority ctx.perpetuals
              ctx.event_authority
            ≡ ok tt)
        × (validate_token_program ctx.token_program ≡ ok tt))
      ↔ ProgramLinked pda ctx
  unfolding validate_protocol_program validate_jupiter_pdas validate_token_program
  program_accounts_iff = (λ (program, pdas, tokens). ground arith, λ spec. ground arith)

  pub position_accounts_iff :
      (validate_static_position_accounts ctx.position.state ctx.pool.key ctx.custody.key
          ctx.lp_token_account.key
        ≡ ok tt)
      ↔ PositionLinked ctx
  unfolding validate_static_position_accounts
  position_accounts_iff = (λ accepted. ground arith, λ spec. ground arith)

token_account_iff :
    (bytes : List ℕ) (mint owner : Pubkey)
    → (validate_token_account_with_owner_only bytes mint owner ≡ ok tt) ↔ Holds bytes mint owner
unfolding validate_token_account_with_owner_only
token_account_iff bytes mint owner = (λ accepted. ground arith, λ spec. ground arith)

-- The index is below the length, so the reading does not panic.
mint_account_iff :
    (mint : Pubkey) (bytes : List ℕ) (expected : Pubkey)
    → (validate_mint_with_owner_only mint bytes expected ≡ ok tt) ↔ (
        (mint ≡ expected)
        × (mint_decimals_offset < length bytes)
        × (index {E = JupiterLpError} bytes mint_decimals_offset ≡ ok 6))
unfolding validate_mint_with_owner_only
mint_account_iff mint bytes expected = (λ accepted. ground arith, λ spec. ground arith)

custody_basic_iff :
    (custody_owner : Pubkey) (bytes : List ℕ) (pool mint : Pubkey)
    → (validate_custody_basic custody_owner bytes pool mint ≡ ok tt)
      ↔ CustodyOf custody_owner bytes pool mint
unfolding validate_custody_basic
custody_basic_iff custody_owner bytes pool mint = (λ accepted. ground arith, λ spec. ground arith)

custody_parts :
    (custody_owner : Pubkey) (bytes : List ℕ) (mint : Pubkey) (ctx : JupiterAccounts)
    → (validate_custody_accounts custody_owner bytes ctx.pool.key mint ctx.custody_token_account.key
          ctx.custody_doves_price_account ctx.custody_pythnet_price_account
        ≡ ok tt)
      ↔ ((validate_custody_basic custody_owner bytes ctx.pool.key mint ≡ ok tt)
          × CustodyLinked bytes ctx)
unfolding validate_custody_accounts
custody_parts custody_owner bytes mint ctx = (λ accepted. ground arith, λ spec. ground arith)

pub custody_accounts_iff :
    (custody_owner : Pubkey) (bytes : List ℕ) (mint : Pubkey) (ctx : JupiterAccounts)
    → (validate_custody_accounts custody_owner bytes ctx.pool.key mint ctx.custody_token_account.key
          ctx.custody_doves_price_account ctx.custody_pythnet_price_account
        ≡ ok tt)
      ↔ (CustodyOf custody_owner bytes ctx.pool.key mint × CustodyLinked bytes ctx)
custody_accounts_iff custody_owner bytes mint ctx =
    let parts = custody_parts custody_owner bytes mint ctx in
    let basic = custody_basic_iff custody_owner bytes ctx.pool.key mint in
    (
      λ accepted. let (valid, linked) = parts.0 accepted in (basic.0 valid, linked),
      λ (custody, linked). parts.1 (basic.1 custody, linked),
    )
