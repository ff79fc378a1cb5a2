-- ===== src/Drift/Opening.antt =====
-- What a new position of the Drift adapter is linked to
-- (programs/adapters/drift-insurance-fund/src/lib.rs, `initialize_position`).
use sol_yield.Base.{ℕ, ◌+◌, ◌≡◌, ◌↔◌, arith}
use sol_yield.Base.Result.{ok}
use sol_yield.Solana.Account.{Pubkey}
use sol_yield.Solana.Pda.{Pda}
use sol_yield.Drift.Types.{DriftInsuranceFundPosition, derive_user_stats}
use sol_yield.Drift.Validate.{check_stake_key}
use sol_yield.Drift.Handlers.{InitializePosition, initialize_position}

-- A position that is opened holds nothing and names the owner's user stats, and the checks of later
-- instructions accept, as its stake, exactly the one that it was opened with.
opened_stake_key_iff :
    (pda : Pda) (ctx : InitializePosition) (market_index : ℕ) (stake stats key : Pubkey)
    (p : DriftInsuranceFundPosition)
    → initialize_position pda ctx market_index stake stats ≡ ok p
    → (p.deposited_amount + p.pending_withdraw_amount ≡ 0)
      × (p.user_stats ≡ derive_user_stats pda ctx.config.state.protocol_program_id p.owner)
      × ((check_stake_key pda ctx.config.state p key ≡ ok tt) ↔ (key ≡ stake))
unfolding initialize_position check_stake_key
opened_stake_key_iff pda ctx market_index stake stats key p opened =
    (ground arith, ground arith, (λ h. ground arith, λ h. ground arith))
