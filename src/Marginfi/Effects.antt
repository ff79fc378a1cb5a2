-- ===== src/Marginfi/Effects.antt =====
-- When a deposit, a withdrawal and a value query of the MarginFi adapter succeed, and what they do
-- (programs/adapters/marginfi-usdc/src/lib.rs).
use sol_yield.Base.{ℕ, ◌+◌, ◌-◌, ◌<◌, ◌≡◌, ◌↔◌, some, List, arith}
use sol_yield.Base.Bytes.{to_le_bytes}
use sol_yield.Base.Result.{ok, >>-ok, >>=-ok}
use sol_yield.Base.Word.{IsU64}
use sol_yield.Solana.Chain.{Chain}
use sol_yield.Solana.Pda.{Pda}
use sol_yield.Marginfi.Types.{
  MarginfiUsdcPosition, MarginfiUsdcEvent, marginfi_usdc_deposit, marginfi_usdc_withdraw,
  marginfi_usdc_value, MarginfiAccounts,
}
use sol_yield.Marginfi.Validate.{
  validate_owner_and_mint, validate_common, validate_deposit_accounts, validate_withdraw_accounts,
  validate_value_accounts,
}
use sol_yield.Marginfi.Calls.{deposit_call, withdraw_call}
use sol_yield.Marginfi.Handlers.{
  check_position, check_written_position, read_position, deposit, withdraw, current_value,
}
use sol_yield.Marginfi.Permit.{
  Entitled, Writable, DepositLinked, WithdrawLinked, ValueLinked, check_position_iff,
  check_written_position_iff, validate_deposit_accounts_iff, validate_withdraw_accounts_iff,
  validate_value_accounts_iff,
}

-- The position with other amounts.
abbrev pub with_amounts : ℕ → ℕ → ℕ → MarginfiUsdcPosition → MarginfiUsdcPosition
with_amounts deposited shares value p = record p {
  deposited_amount = deposited;
  shares = shares;
  last_value = value;
}

module _ {ℓ} {S : Type ℓ} (pda : Pda) (chain : Chain S) (ctx : MarginfiAccounts) (amount : ℕ)
    (s s' : S) (p' : MarginfiUsdcPosition) (ev : MarginfiUsdcEvent) where
  -- What a deposit does, once its checks are passed: MarginFi accepts the call, and the position
  -- records the sum with the shares and the value that account and bank then show.
  abbrev pub Deposited : Type ℓ
  Deposited =
      let before = ctx.position.state in
      (chain.invoke (deposit_call ctx amount).0 (deposit_call ctx amount).1 s ≡ some s')
      × (read_position chain ctx s' ≡ ok (p'.shares, p'.last_value))
      × IsU64 (before.deposited_amount + amount)
      × (p' ≡ with_amounts (before.deposited_amount + amount) p'.shares p'.last_value before)
      × (ev
          ≡ marginfi_usdc_deposit before.owner ctx.config.state.supported_mint amount p'.shares
              p'.last_value)

  -- What a withdrawal does; the deposited amount stops at zero.
  abbrev pub Withdrawn : Type ℓ
  Withdrawn =
      let before = ctx.position.state in
      (chain.invoke (withdraw_call ctx amount).0 (withdraw_call ctx amount).1 s ≡ some s')
      × (read_position chain ctx s' ≡ ok (p'.shares, p'.last_value))
      × (p' ≡ with_amounts (before.deposited_amount - amount) p'.shares p'.last_value before)
      × (ev
          ≡ marginfi_usdc_withdraw before.owner ctx.config.state.supported_mint amount p'.shares
              p'.last_value)

  deposit_steps :
      check_written_position pda ctx ≡ ok tt
      → validate_common ctx.config.state ctx.position.state ctx.owner.key ctx.mint amount ≡ ok tt
      → validate_deposit_accounts pda chain s ctx ≡ ok tt
      → (deposit pda chain ctx amount s ≡ ok (p', s', ev)) ↔ Deposited
  unfolding deposit
  deposit_steps checked common linked = (λ accepted. ground arith, λ spec. ground arith)

  withdraw_steps :
      check_written_position pda ctx ≡ ok tt
      → validate_common ctx.config.state ctx.position.state ctx.owner.key ctx.mint amount ≡ ok tt
      → validate_withdraw_accounts pda chain s ctx ≡ ok tt
      → (withdraw pda chain ctx amount s ≡ ok (p', s', ev)) ↔ Withdrawn
  unfolding withdraw
  withdraw_steps checked common linked = (λ accepted. ground arith, λ spec. ground arith)

  -- A deposit succeeds exactly when the amount is not zero, the caller is entitled, the written
  -- accounts are writable, MarginFi's accounts and the user's belong together, MarginFi accepts
  -- the call, account and bank then show shares and value, and the sum is a u64; the position
  -- then records the sum, the shares and the value.
  pub deposit_marginfi_iff :
      (deposit pda chain ctx amount s ≡ ok (p', s', ev))
      ↔ ((0 < amount) × Entitled pda ctx × Writable ctx × DepositLinked pda chain s ctx × Deposited)
  unfolding deposit
  deposit_marginfi_iff =
      let permit = check_written_position_iff pda ctx amount in
      let link = validate_deposit_accounts_iff pda chain s ctx in
      (
        λ accepted.
            let (checked, rest) = >>-ok (check_written_position pda ctx) _ accepted in
            let (common, rest') =
              >>-ok
                (validate_common ctx.config.state ctx.position.state ctx.owner.key ctx.mint amount)
                _ rest in
            let (linked, _) = >>-ok (validate_deposit_accounts pda chain s ctx) _ rest' in
            let (given, entitled, writable) = permit.0 (checked, common) in
            (
              given,
              entitled,
              writable,
              link.0 linked,
              (deposit_steps checked common linked).0 accepted,
            ),
        λ (given, entitled, writable, linked, done).
            let (checked, common) = permit.1 (given, entitled, writable) in
            (deposit_steps checked common (link.1 linked)).1 done,
      )

  -- A withdrawal succeeds exactly when the amount is not zero, the caller is entitled, the
  -- written accounts are writable, MarginFi's accounts and the user's belong together, the
  -- authority is the one of the bank's vault, the remaining accounts begin with the bank and its
  -- oracle, MarginFi accepts the call, and account and bank then show shares and value; the
  -- position then records the deposited amount less the withdrawn one, stopping at zero, the
  -- shares and the value.
  pub withdraw_marginfi_iff : (withdraw pda chain ctx amount s ≡ ok (p', s', ev)) ↔ (
      (0 < amount) × Entitled pda ctx × Writable ctx × WithdrawLinked pda chain s ctx × Withdrawn)
  unfolding withdraw
  withdraw_marginfi_iff =
      let permit = check_written_position_iff pda ctx amount in
      let link = validate_withdraw_accounts_iff pda chain s ctx in
      (
        λ accepted.
            let (checked, rest) = >>-ok (check_written_position pda ctx) _ accepted in
            let (common, rest') =
              >>-ok
                (validate_common ctx.config.state ctx.position.state ctx.owner.key ctx.mint amount)
                _ rest in
            let (linked, _) = >>-ok (validate_withdraw_accounts pda chain s ctx) _ rest' in
            let (given, entitled, writable) = permit.0 (checked, common) in
            (
              given,
              entitled,
              writable,
              link.0 linked,
              (withdraw_steps checked common linked).0 accepted,
            ),
        λ (given, entitled, writable, linked, done).
            let (checked, common) = permit.1 (given, entitled, writable) in
            (withdraw_steps checked common (link.1 linked)).1 done,
      )

-- A value query succeeds exactly when the caller is entitled, MarginFi's accounts belong together
-- and account and bank show shares and a value, whose eight bytes it returns.
current_value_marginfi_iff {ℓ} :
    {S : Type ℓ} (pda : Pda) (chain : Chain S) (ctx : MarginfiAccounts) (s : S) (returned : List ℕ)
    (ev : MarginfiUsdcEvent)
    → (current_value pda chain ctx s ≡ ok (returned, ev)) ↔ (
        Entitled pda ctx
        × ValueLinked pda chain s ctx
        × ((shares value : ℕ) × (read_position chain ctx s ≡ ok (shares, value))
            × (returned ≡ to_le_bytes 8 value)
            × (ev
                ≡ marginfi_usdc_value ctx.position.state.owner ctx.config.state.supported_mint
                    value)))
unfolding current_value
current_value_marginfi_iff pda chain ctx s returned ev =
    let permit = check_position_iff pda ctx in
    let link = validate_value_accounts_iff pda chain s ctx in
    (
      λ accepted.
          let (checked, rest) = >>-ok (check_position pda ctx) _ accepted in
          let (common, rest') =
            >>-ok
              (validate_owner_and_mint ctx.config.state ctx.position.state ctx.owner.key ctx.mint) _
              rest in
          let (linked, rest'') = >>-ok (validate_value_accounts pda chain s ctx) _ rest' in
          let (shown, at, done) =
            >>=-ok (read_position chain ctx s)
              (λ ((shares, value) : ℕ × ℕ). ok (
                to_le_bytes 8 value,
                marginfi_usdc_value ctx.position.state.owner ctx.config.state.supported_mint value,
              ))
              rest'' in
          (
            permit.0 (checked, common),
            link.0 linked,
            (shown.0, shown.1, at, ground arith, ground arith),
          ),
      λ (entitled, linked, (shares, value, shown, same_bytes, same_event)).
          let (checked, common) = permit.1 entitled in let valid = link.1 linked in ground arith,
    )
