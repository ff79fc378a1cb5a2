-- ===== src/Kamino/Effects.antt =====
-- When a deposit, a withdrawal and a value query of the Kamino adapter succeed, and what they do
-- (programs/adapters/kamino-usdc/src/lib.rs).
use sol_yield.Base.{ℕ, ◌+◌, ◌-◌, ◌<◌, ◌≡◌, ◌↔◌, some, arith}
use sol_yield.Base.Result.{ok, >>-ok, >>=-ok}
use sol_yield.Base.Word.{IsU64}
use sol_yield.Solana.Account.{Pubkey}
use sol_yield.Solana.Chain.{Chain}
use sol_yield.Solana.Pda.{Pda}
use sol_yield.Kamino.Types.{
  KaminoUsdcPosition, KaminoUsdcEvent, kamino_usdc_deposit, kamino_usdc_withdraw, KaminoAccounts,
}
use sol_yield.Kamino.Types.{KaminoReserveFields}
use sol_yield.Kamino.Exchange.{liquidity_to_collateral_ceil}
use sol_yield.Kamino.Validate.{
  validate_common, validate_deposit_accounts, validate_withdraw_accounts,
}
use sol_yield.Kamino.Calls.{deposit_call, redeem_call}
use sol_yield.Kamino.Handlers.{check_written_position, read_position, deposit, withdraw}
use sol_yield.Kamino.Access.{Entitled, Writable, check_written_position_iff}
use sol_yield.Kamino.Permit.{Linked, validate_deposit_accounts_iff, validate_withdraw_accounts_iff}

-- The position with other amounts.
abbrev pub with_amounts : ℕ → ℕ → ℕ → KaminoUsdcPosition → KaminoUsdcPosition
with_amounts deposited shares value p = record p {
  deposited_amount = deposited;
  shares = shares;
  last_value = value;
}

module _ {ℓ} {S : Type ℓ} (pda : Pda) (instructions_sysvar_id : Pubkey) (chain : Chain S)
    (ctx : KaminoAccounts) (amount : ℕ) (s s' : S) (p' : KaminoUsdcPosition)
    (ev : KaminoUsdcEvent) where
  -- What a deposit does, once its checks are passed: Kamino accepts the call, and the position
  -- records the sum with the collateral that the user then holds and its value.
  abbrev pub Deposited : Type ℓ
  Deposited =
      let before = ctx.position.state in
      (chain.invoke (deposit_call ctx amount).0 (deposit_call ctx amount).1 s ≡ some s')
      × (read_position chain ctx s' ≡ ok (p'.shares, p'.last_value))
      × IsU64 (before.deposited_amount + amount)
      × (p' ≡ with_amounts (before.deposited_amount + amount) p'.shares p'.last_value before)
      × (ev
          ≡ kamino_usdc_deposit before.owner ctx.config.state.supported_mint amount p'.shares
              p'.last_value)

  -- What a withdrawal does: Kamino redeems the collateral for the amount, rounded up at the rate
  -- of the reserve before the call; the deposited amount stops at zero.
  abbrev pub Withdrawn : KaminoReserveFields → Type ℓ
  Withdrawn fields =
      let before = ctx.position.state in
      ((collateral : ℕ) × (liquidity_to_collateral_ceil amount fields ≡ ok collateral)
        × (chain.invoke (redeem_call ctx collateral).0 (redeem_call ctx collateral).1 s ≡ some s'))
      × (read_position chain ctx s' ≡ ok (p'.shares, p'.last_value))
      × (p' ≡ with_amounts (before.deposited_amount - amount) p'.shares p'.last_value before)
      × (ev
          ≡ kamino_usdc_withdraw before.owner ctx.config.state.supported_mint amount p'.shares
              p'.last_value)

  module _ (checked : check_written_position pda ctx ≡ ok tt)
      (common : validate_common ctx.config.state ctx.position.state ctx.owner.key ctx.mint amount
        ≡ ok tt)
      (fields : KaminoReserveFields) where
    deposit_steps :
        validate_deposit_accounts pda instructions_sysvar_id chain s ctx ≡ ok fields
        → (deposit pda instructions_sysvar_id chain ctx amount s ≡ ok (p', s', ev)) ↔ Deposited
    unfolding deposit
    deposit_steps linked = (λ accepted. ground arith, λ spec. ground arith)

    withdraw_steps :
        validate_withdraw_accounts pda instructions_sysvar_id chain s ctx ≡ ok fields
        → (withdraw pda instructions_sysvar_id chain ctx amount s ≡ ok (p', s', ev))
          ↔ Withdrawn fields
    unfolding withdraw
    withdraw_steps linked = (λ accepted. ground arith, λ spec. ground arith)

  -- A deposit succeeds exactly when the amount is not zero, the caller is entitled, the written
  -- accounts are writable, the reserve can be read and its accounts and the user's belong
  -- together, Kamino accepts the call, the reserve and the collateral account then show shares and
  -- value, and the sum is a u64; the position then records the sum, the shares and the value.
  pub deposit_kamino_iff :
      (deposit pda instructions_sysvar_id chain ctx amount s ≡ ok (p', s', ev)) ↔ (
        (0 < amount)
        × Entitled pda ctx
        × Writable ctx
        × ((fields : KaminoReserveFields) × Linked pda instructions_sysvar_id chain s ctx fields
            × Deposited))
  unfolding deposit
  deposit_kamino_iff =
      let permit = check_written_position_iff pda ctx amount in
      (
        λ accepted.
            let (checked, rest) = >>-ok (check_written_position pda ctx) _ accepted in
            let (common, rest') =
              >>-ok
                (validate_common ctx.config.state ctx.position.state ctx.owner.key ctx.mint amount)
                _ rest in
            let (fields, linked, _) =
              >>=-ok (validate_deposit_accounts pda instructions_sysvar_id chain s ctx) _ rest' in
            let (given, entitled, writable) = permit.0 (checked, common) in
            (
              given,
              entitled,
              writable,
              (
                fields,
                (validate_deposit_accounts_iff pda instructions_sysvar_id chain s ctx fields).0
                    linked,
                (deposit_steps checked common fields linked).0 accepted,
              ),
            ),
        λ (given, entitled, writable, (fields, linked, done)).
            let (checked, common) = permit.1 (given, entitled, writable) in
            let valid =
              (validate_deposit_accounts_iff pda instructions_sysvar_id chain s ctx fields).1
                linked in
            (deposit_steps checked common fields valid).1 done,
      )

  -- A withdrawal succeeds exactly when the amount is not zero, the caller is entitled, the written
  -- accounts are writable, the reserve can be read and its accounts and the user's belong
  -- together, the amount converts to collateral, rounded up, Kamino accepts to redeem it, and the
  -- reserve and the collateral account then show shares and value; the position then records the
  -- deposited amount less the withdrawn one, stopping at zero, the shares and the value.
  pub withdraw_kamino_iff :
      (withdraw pda instructions_sysvar_id chain ctx amount s ≡ ok (p', s', ev)) ↔ (
        (0 < amount)
        × Entitled pda ctx
        × Writable ctx
        × ((fields : KaminoReserveFields) × Linked pda instructions_sysvar_id chain s ctx fields
            × Withdrawn fields))
  unfolding withdraw
  withdraw_kamino_iff =
      let permit = check_written_position_iff pda ctx amount in
      (
        λ accepted.
            let (checked, rest) = >>-ok (check_written_position pda ctx) _ accepted in
            let (common, rest') =
              >>-ok
                (validate_common ctx.config.state ctx.position.state ctx.owner.key ctx.mint amount)
                _ rest in
            let (fields, linked, _) =
              >>=-ok (validate_withdraw_accounts pda instructions_sysvar_id chain s ctx) _ rest' in
            let (given, entitled, writable) = permit.0 (checked, common) in
            (
              given,
              entitled,
              writable,
              (
                fields,
                (validate_withdraw_accounts_iff pda instructions_sysvar_id chain s ctx fields).0
                    linked,
                (withdraw_steps checked common fields linked).0 accepted,
              ),
            ),
        λ (given, entitled, writable, (fields, linked, done)).
            let (checked, common) = permit.1 (given, entitled, writable) in
            let valid =
              (validate_withdraw_accounts_iff pda instructions_sysvar_id chain s ctx fields).1
                linked in
            (withdraw_steps checked common fields valid).1 done,
      )
