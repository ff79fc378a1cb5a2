-- ===== src/Jupiter/Permit.antt =====
-- When the accounts of a deposit and of a withdrawal of the Jupiter adapter belong together
-- (programs/adapters/jupiter-lp/src/lib.rs, `validate_deposit_accounts` and
-- `validate_withdraw_accounts`).
use sol_yield.Base.{ℕ, ◌<◌, ◌≡◌, ◌↔◌, length, arith}
use sol_yield.Base.Data.{index}
use sol_yield.Base.Result.{ok}
use sol_yield.Solana.Chain.{Chain}
use sol_yield.Solana.Pda.{Pda}
use sol_yield.Jupiter.Types.{
  JupiterLpError, jlp_mint, mint_decimals_offset, derive_lp_token_mint, JupiterAccounts,
}
use sol_yield.Jupiter.Validate.{
  validate_protocol_program, validate_token_program, validate_static_position_accounts,
  validate_jupiter_pdas, validate_perpetuals, validate_custody_accounts, validate_token_account,
  validate_token_account_with_owner_only, validate_mint_with_owner_only, validate_jlp_mint,
  pool_aum, validate_deposit_accounts, validate_withdraw_accounts,
}
use sol_yield.Jupiter.Access.{
  ProgramLinked, PositionLinked, Holds, CustodyOf, CustodyLinked, program_accounts_iff,
  position_accounts_iff, custody_accounts_iff,
}

module _ {ℓ} {S : Type ℓ} (pda : Pda) (chain : Chain S) (s : S) (ctx : JupiterAccounts) where
  -- The user's two accounts are of the token program and hold the mint and LP tokens for the user.
  pub record TokensLinked : Type 0 where
    pub tokens_of_program : chain.account_owner s ctx.user_token_account.key ≡ ctx.token_program
    pub tokens :
        Holds
          (chain.account_bytes s ctx.user_token_account.key)
          ctx.config.state.supported_mint
          ctx.owner.key
    pub lp_of_program : chain.account_owner s ctx.lp_token_account.key ≡ ctx.token_program
    pub lp_tokens : Holds (chain.account_bytes s ctx.lp_token_account.key) jlp_mint ctx.owner.key

  -- The LP mint is the pool's, of the token program, with six decimals.
  pub record MintLinked : Type 0 where
    pub derived : ctx.lp_token_mint.key ≡ derive_lp_token_mint pda ctx.jupiter_program ctx.pool.key
    pub known : ctx.lp_token_mint.key ≡ jlp_mint
    pub of_program : chain.account_owner s ctx.lp_token_mint.key ≡ ctx.token_program
    pub long_enough : mint_decimals_offset < length (chain.account_bytes s ctx.lp_token_mint.key)
    pub decimals :
        index {E = JupiterLpError}
          (chain.account_bytes s ctx.lp_token_mint.key)
          mint_decimals_offset
        ≡ ok 6

  user_accounts_iff :
      ((validate_token_account chain s ctx.user_token_account.key ctx.token_program
            ctx.config.state.supported_mint ctx.owner.key
          ≡ ok tt)
        × (validate_token_account chain s ctx.lp_token_account.key ctx.token_program jlp_mint
              ctx.owner.key
            ≡ ok tt))
      ↔ TokensLinked
  unfolding validate_token_account validate_token_account_with_owner_only
  user_accounts_iff = (λ (tokens, lp_tokens). ground arith, λ linked. ground arith)

  lp_mint_iff :
      (validate_jlp_mint chain s pda ctx.lp_token_mint.key ctx.token_program ctx.jupiter_program
          ctx.pool.key
        ≡ ok tt)
      ↔ MintLinked
  unfolding validate_jlp_mint validate_mint_with_owner_only
  lp_mint_iff = (λ accepted. ground arith, λ linked. ground arith)

  -- All accounts of a deposit or a withdrawal belong together, and the pool holds these assets.
  pub record Linked (aum : ℕ) : Type 0 where
    pub program : ProgramLinked pda ctx
    pub position : PositionLinked ctx
    pub tokens : TokensLinked
    pub lp_mint : MintLinked
    pub custody :
        CustodyOf
          (chain.account_owner s ctx.custody.key)
          (chain.account_bytes s ctx.custody.key)
          ctx.pool.key
          ctx.config.state.supported_mint
    pub custody_accounts : CustodyLinked (chain.account_bytes s ctx.custody.key) ctx
    pub listed :
        validate_perpetuals
          (chain.account_owner s ctx.perpetuals)
          (chain.account_bytes s ctx.perpetuals)
          ctx.pool.key
        ≡ ok tt
    pub assets : pool_aum chain s ctx.pool.key ctx.custody.key ≡ ok aum

  deposit_parts :
      (aum : ℕ)
      → (validate_deposit_accounts pda chain s ctx ≡ ok aum) ↔ (
          ((validate_protocol_program ctx.config.state.protocol_program_id ctx.jupiter_program
              ≡ ok tt)
            × (validate_jupiter_pdas pda ctx.jupiter_program ctx.transfer_authority ctx.perpetuals
                  ctx.event_authority
                ≡ ok tt)
            × (validate_token_program ctx.token_program ≡ ok tt))
          × (validate_static_position_accounts ctx.position.state ctx.pool.key ctx.custody.key
                ctx.lp_token_account.key
              ≡ ok tt)
          × ((validate_token_account chain s ctx.user_token_account.key ctx.token_program
                  ctx.config.state.supported_mint ctx.owner.key
                ≡ ok tt)
              × (validate_token_account chain s ctx.lp_token_account.key ctx.token_program jlp_mint
                    ctx.owner.key
                  ≡ ok tt))
          × (validate_jlp_mint chain s pda ctx.lp_token_mint.key ctx.token_program
                ctx.jupiter_program ctx.pool.key
              ≡ ok tt)
          × (validate_custody_accounts
                (chain.account_owner s ctx.custody.key)
                (chain.account_bytes s ctx.custody.key)
                ctx.pool.key
                ctx.config.state.supported_mint
                ctx.custody_token_account.key
                ctx.custody_doves_price_account
                ctx.custody_pythnet_price_account
              ≡ ok tt)
          × (validate_perpetuals
                (chain.account_owner s ctx.perpetuals)
                (chain.account_bytes s ctx.perpetuals)
                ctx.pool.key
              ≡ ok tt)
          × (pool_aum chain s ctx.pool.key ctx.custody.key ≡ ok aum))
  unfolding validate_deposit_accounts
  deposit_parts aum = (λ accepted. ground arith, λ spec. ground arith)

  pub validate_deposit_accounts_iff :
      (aum : ℕ) → (validate_deposit_accounts pda chain s ctx ≡ ok aum) ↔ Linked aum
  validate_deposit_accounts_iff aum =
      let parts = deposit_parts aum in
      let program = program_accounts_iff pda ctx in
      let position = position_accounts_iff pda ctx in
      let custody =
        custody_accounts_iff (chain.account_owner s ctx.custody.key)
          (chain.account_bytes s ctx.custody.key) ctx.config.state.supported_mint ctx in
      (
        λ accepted.
            let (programs, positions, tokens, mint, custodies, listed, assets) = parts.0 accepted in
            record {
              program = program.0 programs;
              position = position.0 positions;
              tokens = user_accounts_iff.0 tokens;
              lp_mint = lp_mint_iff.0 mint;
              custody = (custody.0 custodies).0;
              custody_accounts = (custody.0 custodies).1;
              listed = listed;
              assets = assets;
            },
        λ linked. parts.1 (
          program.1 linked.program,
          position.1 linked.position,
          user_accounts_iff.1 linked.tokens,
          lp_mint_iff.1 linked.lp_mint,
          custody.1 (linked.custody, linked.custody_accounts),
          linked.listed,
          linked.assets,
        ),
      )

  pub validate_withdraw_accounts_iff :
      (aum : ℕ) → (validate_withdraw_accounts pda chain s ctx ≡ ok aum) ↔ Linked aum
  unfolding validate_withdraw_accounts
  validate_withdraw_accounts_iff aum = validate_deposit_accounts_iff aum
