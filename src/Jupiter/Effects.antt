-- ===== src/Jupiter/Effects.antt =====
-- When a deposit and a withdrawal of the Jupiter adapter succeed, and what they do
-- (programs/adapters/jupiter-lp/src/lib.rs).
use sol_yield.Base.{ℕ, ◌+◌, ◌-◌, ◌≤◌, ◌<◌, ◌≡◌, ◌↔◌, some, arith}
use sol_yield.Base.Result.{ok, >>-ok, >>=-ok}
use sol_yield.Base.Word.{IsU64}
use sol_yield.Solana.Chain.{Chain}
use sol_yield.Solana.Pda.{Pda}
use sol_yield.Jupiter.Types.{
  JupiterLpPosition, JupiterLpEvent, jupiter_lp_deposit, jupiter_lp_withdraw, JupiterAccounts,
}
use sol_yield.Jupiter.Calls.{add_liquidity_call, remove_liquidity_call}
use sol_yield.Jupiter.Validate.{
  validate_common, validate_deposit_accounts, validate_withdraw_accounts,
}
use sol_yield.Jupiter.Handlers.{
  held_shares, value_of, min_lp_amount_out, lp_amount_in, check_written_position, deposit, withdraw,
}
use sol_yield.Jupiter.Access.{Entitled, Writable, check_written_position_iff}
use sol_yield.Jupiter.Permit.{Linked, validate_deposit_accounts_iff, validate_withdraw_accounts_iff}

-- The position with other amounts.
abbrev pub with_amounts : ℕ → ℕ → ℕ → JupiterLpPosition → JupiterLpPosition
with_amounts deposited shares value p = record p {
  deposited_amount = deposited;
  shares = shares;
  last_value = value;
}

module _ {S : Type 0} (pda : Pda) (chain : Chain S) (ctx : JupiterAccounts) (amount : ℕ) (s s' : S)
    (p' : JupiterLpPosition) (ev : JupiterLpEvent) where
  -- What a deposit does, once its checks are passed: Jupiter accepts the amount against the least
  -- LP tokens, which do not get fewer, and the position records the sum with the LP tokens and
  -- their value.
  abbrev pub Deposited : ℕ → Type 0
  Deposited aum =
      let before = ctx.position.state in
      (least before_shares : ℕ) × (min_lp_amount_out chain s ctx aum amount ≡ ok least)
      × (held_shares chain s ctx ≡ ok before_shares)
      × (chain.invoke (add_liquidity_call ctx amount least).0
            (add_liquidity_call ctx amount least).1 s
          ≡ some s')
      × (held_shares chain s' ctx ≡ ok p'.shares)
      × (before_shares ≤ p'.shares)
      × (value_of chain s' ctx p'.shares ≡ ok p'.last_value)
      × IsU64 (before.deposited_amount + amount)
      × (p' ≡ with_amounts (before.deposited_amount + amount) p'.shares p'.last_value before)
      × (ev
          ≡ jupiter_lp_deposit before.owner ctx.config.state.supported_mint amount p'.shares
              (p'.shares - before_shares) p'.last_value)

  -- What a withdrawal does: the user holds the LP tokens to burn, Jupiter takes them for the
  -- amount, and the LP tokens do not get more; the deposited amount stops at zero.
  abbrev pub Withdrawn : ℕ → Type 0
  Withdrawn aum =
      let before = ctx.position.state in
      (burned before_shares : ℕ) × (lp_amount_in chain s ctx aum amount ≡ ok burned)
      × (held_shares chain s ctx ≡ ok before_shares)
      × (burned ≤ before_shares)
      × (chain.invoke (remove_liquidity_call ctx burned amount).0
            (remove_liquidity_call ctx burned amount).1 s
          ≡ some s')
      × (held_shares chain s' ctx ≡ ok p'.shares)
      × (p'.shares ≤ before_shares)
      × (value_of chain s' ctx p'.shares ≡ ok p'.last_value)
      × (p' ≡ with_amounts (before.deposited_amount - amount) p'.shares p'.last_value before)
      × (ev
          ≡ jupiter_lp_withdraw before.owner ctx.config.state.supported_mint amount p'.shares
              (before_shares - p'.shares) p'.last_value)

  module _ (checked : check_written_position pda ctx ≡ ok tt)
      (common : validate_common ctx.config.state ctx.position.state ctx.owner.key ctx.mint amount
        ≡ ok tt)
      (aum : ℕ) where
    deposit_steps :
        validate_deposit_accounts pda chain s ctx ≡ ok aum
        → (deposit pda chain ctx amount s ≡ ok (p', s', ev)) ↔ Deposited aum
    unfolding deposit
    deposit_steps linked = (λ accepted. ground arith, λ spec. ground arith)

    withdraw_steps :
        validate_withdraw_accounts pda chain s ctx ≡ ok aum
        → (withdraw pda chain ctx amount s ≡ ok (p', s', ev)) ↔ Withdrawn aum
    unfolding withdraw
    withdraw_steps linked = (λ accepted. ground arith, λ spec. ground arith)

  -- A deposit succeeds exactly when the amount is not zero, the caller is entitled, the written
  -- accounts are writable, the accounts of Jupiter and of the user belong together, Jupiter accepts
  -- the amount against the least LP tokens, the LP tokens do not get fewer and have a value, and
  -- the sum is a u64; the position then records the sum, the LP tokens and their value.
  pub deposit_jupiter_iff : (deposit pda chain ctx amount s ≡ ok (p', s', ev)) ↔ (
      (0 < amount)
      × Entitled pda ctx
      × Writable ctx
      × ((aum : ℕ) × Linked pda chain s ctx aum × Deposited aum))
  unfolding deposit
  deposit_jupiter_iff =
      let permit = check_written_position_iff pda ctx amount in
      (
        λ accepted.
            let (checked, rest) = >>-ok (check_written_position pda ctx) _ accepted in
            let (common, rest') =
              >>-ok
                (validate_common ctx.config.state ctx.position.state ctx.owner.key ctx.mint amount)
                _ rest in
            let (aum, linked, _) = >>=-ok (validate_deposit_accounts pda chain s ctx) _ rest' in
            let (given, entitled, writable) = permit.0 (checked, common) in
            (
              given,
              entitled,
              writable,
              (
                aum,
                (validate_deposit_accounts_iff pda chain s ctx aum).0 linked,
                (deposit_steps checked common aum linked).0 accepted,
              ),
            ),
        λ (given, entitled, writable, (aum, linked, done)).
            let (checked, common) = permit.1 (given, entitled, writable) in
            let valid = (validate_deposit_accounts_iff pda chain s ctx aum).1 linked in
            (deposit_steps checked common aum valid).1 done,
      )

  -- A withdrawal succeeds exactly when the amount is not zero, the caller is entitled, the written
  -- accounts are writable, the accounts of Jupiter and of the user belong together, the user holds
  -- the LP tokens to burn, Jupiter takes them for the amount, and the LP tokens do not get more and
  -- have a value; the position then records the deposited amount less the withdrawn one, stopping
  -- at zero, the LP tokens and their value.
  pub withdraw_jupiter_iff : (withdraw pda chain ctx amount s ≡ ok (p', s', ev)) ↔ (
      (0 < amount)
      × Entitled pda ctx
      × Writable ctx
      × ((aum : ℕ) × Linked pda chain s ctx aum × Withdrawn aum))
  unfolding withdraw
  withdraw_jupiter_iff =
      let permit = check_written_position_iff pda ctx amount in
      (
        λ accepted.
            let (checked, rest) = >>-ok (check_written_position pda ctx) _ accepted in
            let (common, rest') =
              >>-ok
                (validate_common ctx.config.state ctx.position.state ctx.owner.key ctx.mint amount)
                _ rest in
            let (aum, linked, _) = >>=-ok (validate_withdraw_accounts pda chain s ctx) _ rest' in
            let (given, entitled, writable) = permit.0 (checked, common) in
            (
              given,
              entitled,
              writable,
              (
                aum,
                (validate_withdraw_accounts_iff pda chain s ctx aum).0 linked,
                (withdraw_steps checked common aum linked).0 accepted,
              ),
            ),
        λ (given, entitled, writable, (aum, linked, done)).
            let (checked, common) = permit.1 (given, entitled, writable) in
            let valid = (validate_withdraw_accounts_iff pda chain s ctx aum).1 linked in
            (withdraw_steps checked common aum valid).1 done,
      )
