-- ===== src/Drift/Effects.antt =====
-- When a deposit, a withdrawal and a value query of the Drift adapter succeed, and what they do
-- (programs/adapters/drift-insurance-fund/src/lib.rs).
use sol_yield.Base.{ℕ, ◌+◌, ◌<◌, ◌≡◌, ◌↔◌, some, List, arith}
use sol_yield.Base.Bytes.{to_le_bytes}
use sol_yield.Base.Result.{ok, >>-ok}
use sol_yield.Base.Word.{IsU64}
use sol_yield.Solana.Chain.{Chain}
use sol_yield.Solana.Pda.{Pda}
use sol_yield.Drift.Types.{
  DriftInsuranceFundPosition, DriftInsuranceFundEvent, drift_insurance_fund_deposit,
  drift_insurance_fund_withdraw, drift_insurance_fund_value, DriftAccounts,
}
use sol_yield.Drift.Stake.{u128_to_u64}
use sol_yield.Drift.Calls.{add_stake_call, request_remove_call}
use sol_yield.Drift.Validate.{
  validate_common, validate_owner_and_mint, validate_deposit_accounts, validate_withdraw_accounts,
  validate_value_accounts,
}
use sol_yield.Drift.Handlers.{
  check_position, check_written_position, check_written_vaults, read_position, deposit, withdraw,
  current_value,
}
use sol_yield.Drift.Access.{
  Entitled, Writable, VaultsWritable, check_position_iff, check_written_position_iff,
  check_written_vaults_iff,
}
use sol_yield.Drift.Permit.{
  DepositLinked, WithdrawLinked, ValueLinked, validate_deposit_accounts_iff,
  validate_withdraw_accounts_iff, validate_value_accounts_iff,
}

-- The position with other amounts.
abbrev pub with_amounts : ℕ → ℕ → ℕ → ℕ → DriftInsuranceFundPosition → DriftInsuranceFundPosition
with_amounts deposited shares value pending p = record p {
  deposited_amount = deposited;
  shares = shares;
  last_value = value;
  pending_withdraw_amount = pending;
}

module _ {ℓ} {S : Type ℓ} (pda : Pda) (chain : Chain S) (ctx : DriftAccounts) (amount : ℕ)
    (s s' : S) (p' : DriftInsuranceFundPosition) (ev : DriftInsuranceFundEvent) where
  -- What a deposit does, once its checks are passed: Drift accepts the stake, and the position
  -- records the sum with the shares and the value that the stake then has, and no withdrawal.
  abbrev pub Deposited : Type ℓ
  Deposited =
      let before = ctx.position.state in
      (chain.invoke (add_stake_call ctx amount).0 (add_stake_call ctx amount).1 s ≡ some s')
      × (read_position chain ctx s' ≡ ok (p'.shares, p'.last_value))
      × IsU64 p'.shares
      × IsU64 (before.deposited_amount + amount)
      × (p' ≡ with_amounts (before.deposited_amount + amount) p'.shares p'.last_value 0 before)
      × (ev
          ≡ drift_insurance_fund_deposit before.owner ctx.config.state.supported_mint amount
              p'.shares p'.last_value)

  -- What a withdrawal does: Drift takes the request, and the position records its amount as
  -- pending; the deposited amount stays.
  abbrev pub Requested : Type ℓ
  Requested =
      let before = ctx.position.state in
      (chain.invoke (request_remove_call ctx amount).0 (request_remove_call ctx amount).1 s
        ≡ some s')
      × (read_position chain ctx s' ≡ ok (p'.shares, p'.last_value))
      × IsU64 p'.shares
      × (p' ≡ with_amounts before.deposited_amount p'.shares p'.last_value amount before)
      × (ev
          ≡ drift_insurance_fund_withdraw before.owner ctx.config.state.supported_mint amount
              p'.shares p'.last_value)

  module _
      (common : validate_common ctx.config.state ctx.position.state ctx.owner.key ctx.mint amount
        ≡ ok tt) where
    deposit_steps :
        check_written_vaults pda ctx ≡ ok tt
        → validate_deposit_accounts pda chain s ctx ≡ ok tt
        → (deposit pda chain ctx amount s ≡ ok (p', s', ev)) ↔ Deposited
    unfolding deposit u128_to_u64
    deposit_steps checked linked = (λ accepted. ground arith, λ spec. ground arith)

    withdraw_steps :
        check_written_position pda ctx ≡ ok tt
        → validate_withdraw_accounts pda chain s ctx ≡ ok tt
        → (withdraw pda chain ctx amount s ≡ ok (p', s', ev)) ↔ Requested
    unfolding withdraw u128_to_u64
    withdraw_steps checked linked = (λ accepted. ground arith, λ spec. ground arith)

  -- A deposit succeeds exactly when the amount is not zero, the caller is entitled, the written
  -- accounts are writable, the accounts of Drift and of the user belong together, Drift accepts the
  -- stake, the stake then has a value and u64 shares, and the sum is a u64; the position then
  -- records the sum, the shares, the value and no pending withdrawal.
  pub deposit_drift_iff : (deposit pda chain ctx amount s ≡ ok (p', s', ev)) ↔ (
      (0 < amount)
      × Entitled pda ctx
      × Writable ctx
      × VaultsWritable ctx
      × DepositLinked pda chain s ctx
      × Deposited)
  unfolding deposit
  deposit_drift_iff =
      let permit = check_written_position_iff pda ctx amount in
      let vaults = check_written_vaults_iff pda ctx in
      let accounts = validate_deposit_accounts_iff pda chain s ctx in
      (
        λ accepted.
            let (checked, rest) = >>-ok (check_written_vaults pda ctx) _ accepted in
            let (common, rest') =
              >>-ok
                (validate_common ctx.config.state ctx.position.state ctx.owner.key ctx.mint amount)
                _ rest in
            let (linked, _) = >>-ok (validate_deposit_accounts pda chain s ctx) _ rest' in
            let (written, writable') = vaults.0 checked in
            let (given, entitled, writable) = permit.0 (written, common) in
            (
              given,
              entitled,
              writable,
              writable',
              accounts.0 linked,
              (deposit_steps common checked linked).0 accepted,
            ),
        λ (given, entitled, writable, writable', linked, done).
            let (written, common) = permit.1 (given, entitled, writable) in
            (deposit_steps common (vaults.1 (written, writable')) (accounts.1 linked)).1 done,
      )

  -- A withdrawal succeeds exactly when the amount is not zero, the caller is entitled, the written
  -- accounts are writable, the accounts of Drift belong together, Drift takes the request, and the
  -- stake then has a value and u64 shares; the position then records the shares, the value and the
  -- amount as pending, and keeps the deposited amount.
  pub withdraw_drift_iff : (withdraw pda chain ctx amount s ≡ ok (p', s', ev)) ↔ (
      (0 < amount) × Entitled pda ctx × Writable ctx × WithdrawLinked pda chain s ctx × Requested)
  unfolding withdraw
  withdraw_drift_iff =
      let permit = check_written_position_iff pda ctx amount in
      let accounts = validate_withdraw_accounts_iff pda chain s ctx in
      (
        λ accepted.
            let (checked, rest) = >>-ok (check_written_position pda ctx) _ accepted in
            let (common, rest') =
              >>-ok
                (validate_common ctx.config.state ctx.position.state ctx.owner.key ctx.mint amount)
                _ rest in
            let (linked, _) = >>-ok (validate_withdraw_accounts pda chain s ctx) _ rest' in
            let (given, entitled, writable) = permit.0 (checked, common) in
            (
              given,
              entitled,
              writable,
              accounts.0 linked,
              (withdraw_steps common checked linked).0 accepted,
            ),
        λ (given, entitled, writable, linked, done).
            let (checked, common) = permit.1 (given, entitled, writable) in
            (withdraw_steps common checked (accounts.1 linked)).1 done,
      )

module _ {ℓ} {S : Type ℓ} (pda : Pda) (chain : Chain S) (ctx : DriftAccounts) (s : S)
    (returned : List ℕ) (ev : DriftInsuranceFundEvent) where
  -- What a query returns: the value's eight bytes, whatever the position last recorded.
  abbrev pub Valued : Type 0
  Valued =
      (shares value : ℕ) × (read_position chain ctx s ≡ ok (shares, value))
      × IsU64 shares
      × (returned ≡ to_le_bytes 8 value)
      × (ev
          ≡ drift_insurance_fund_value ctx.position.state.owner ctx.config.state.supported_mint
              shares value)

  value_steps :
      check_position pda ctx ≡ ok tt
      → validate_owner_and_mint ctx.config.state ctx.position.state ctx.owner.key ctx.mint ≡ ok tt
      → validate_value_accounts pda chain s ctx ≡ ok tt
      → (current_value pda chain ctx s ≡ ok (returned, ev)) ↔ Valued
  unfolding current_value u128_to_u64
  value_steps checked valid linked = (λ accepted. ground arith, λ spec. ground arith)

  -- A value query succeeds exactly when the caller is entitled, the accounts of Drift belong
  -- together and the stake has a value and u64 shares; it returns the value's eight bytes.
  pub current_value_drift_iff :
      (current_value pda chain ctx s ≡ ok (returned, ev))
      ↔ (Entitled pda ctx × ValueLinked pda chain s ctx × Valued)
  unfolding current_value
  current_value_drift_iff =
      let permit = check_position_iff pda ctx in
      let accounts = validate_value_accounts_iff pda chain s ctx in
      (
        λ accepted.
            let (checked, rest) = >>-ok (check_position pda ctx) _ accepted in
            let (valid, rest') =
              >>-ok
                (validate_owner_and_mint ctx.config.state ctx.position.state ctx.owner.key ctx.mint)
                _ rest in
            let (linked, _) = >>-ok (validate_value_accounts pda chain s ctx) _ rest' in
            (
              permit.0 (checked, valid),
              accounts.0 linked,
              (value_steps checked valid linked).0 accepted,
            ),
        λ (entitled, linked, done).
            let (checked, valid) = permit.1 entitled in
            (value_steps checked valid (accounts.1 linked)).1 done,
      )
