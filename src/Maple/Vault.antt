-- ===== src/Maple/Vault.antt =====
-- When a deposit, a withdrawal and a value query of the Maple/Syrup adapter succeed, and what
-- they do (programs/adapters/maple-syrup/src/lib.rs).
use sol_yield.Base.{ℕ, ◌+◌, ◌-◌, ◌≤◌, ◌<◌, ◌≡◌, ◌↔◌, some, List, [], ◌∷◌, arith}
use sol_yield.Base.Bytes.{to_le_bytes}
use sol_yield.Base.Result.{ok, >>-ok}
use sol_yield.Base.Word.{IsU64}
use sol_yield.Solana.Chain.{Chain}
use sol_yield.Solana.Pda.{Pda}
use sol_yield.Maple.Types.{
  MapleSyrupPosition, MapleSyrupEvent, maple_syrup_deposit, maple_syrup_withdraw, maple_syrup_value,
  VaultAccounts,
}
use sol_yield.Maple.Feed.{shares_to_usdc_value}
use sol_yield.Maple.Validate.{
  validate_owner_and_mint, validate_common, validate_deposit_accounts, validate_withdraw_accounts,
  validate_value_accounts, read_token_amount,
}
use sol_yield.Maple.Handlers.{
  token_transfer_instruction, signer_seeds, check_position, check_written_position, deposit,
  withdraw, current_value,
}
use sol_yield.Maple.Access.{
  Entitled, Writable, Linked, IsUserAccount, check_position_iff, check_written_position_iff,
  validate_value_accounts_iff, validate_withdraw_accounts_iff, validate_deposit_accounts_iff,
}

module _ {ℓ} {S : Type ℓ} (chain : Chain S) where
  -- The vault holds these shares, and they have this value at the feed's answer.
  pub record Valued (ctx : VaultAccounts) (s : S) (shares value : ℕ) : Type 0 where
    pub held : read_token_amount chain s ctx.vault_token_account.key ≡ ok shares
    pub worth : shares_to_usdc_value shares (chain.account_bytes s ctx.price_feed) ≡ ok value

  -- The user's tokens go to the vault, by the owner's signature.
  abbrev pub PaidIn : VaultAccounts → ℕ → S → S → Type ℓ
  PaidIn ctx amount s s' =
      chain.invoke
        (token_transfer_instruction ctx.token_program ctx.user_token_account.key
          ctx.vault_token_account.key ctx.owner.key amount)
        (ctx.user_token_account.key ∷ ctx.vault_token_account.key ∷ ctx.owner.key
          ∷ ctx.token_program ∷ [])
        s
      ≡ some s'

  -- The vault's tokens go to the user, by the position's seeds.
  abbrev pub PaidOut : VaultAccounts → ℕ → S → S → Type ℓ
  PaidOut ctx amount s s' =
      chain.invoke_signed
        (token_transfer_instruction ctx.token_program ctx.vault_token_account.key
          ctx.user_token_account.key ctx.position.key amount)
        (ctx.vault_token_account.key ∷ ctx.user_token_account.key ∷ ctx.position.key
          ∷ ctx.token_program ∷ [])
        (signer_seeds ctx) s
      ≡ some s'

-- A position with other amounts.
abbrev pub with_holding : ℕ → ℕ → ℕ → MapleSyrupPosition → MapleSyrupPosition
with_holding deposited shares value p = record p {
  deposited_amount = deposited;
  shares = shares;
  last_value = value;
}

module _ {ℓ} {S : Type ℓ} (pda : Pda) (chain : Chain S) where
  -- What a deposit does to the position, once its checks are passed.
  abbrev pub Deposited : VaultAccounts → ℕ → S → S → MapleSyrupPosition → MapleSyrupEvent → Type ℓ
  Deposited ctx amount s s' p' ev =
      let before = ctx.position.state in
      PaidIn chain ctx amount s s'
      × Valued chain ctx s' p'.shares p'.last_value
      × IsU64 (before.deposited_amount + amount)
      × (p' ≡ with_holding (before.deposited_amount + amount) p'.shares p'.last_value before)
      × (ev
          ≡ maple_syrup_deposit before.owner ctx.config.state.supported_mint amount p'.shares
              p'.last_value)

  -- What a withdrawal does: the vault held at least the amount.
  abbrev pub Withdrawn : VaultAccounts → ℕ → S → S → MapleSyrupPosition → MapleSyrupEvent → Type ℓ
  Withdrawn ctx amount s s' p' ev =
      let before = ctx.position.state in
      ((held : ℕ) × (read_token_amount chain s ctx.vault_token_account.key ≡ ok held)
        × (amount ≤ held))
      × PaidOut chain ctx amount s s'
      × Valued chain ctx s' p'.shares p'.last_value
      × (p' ≡ with_holding (before.deposited_amount - amount) p'.shares p'.last_value before)
      × (ev
          ≡ maple_syrup_withdraw before.owner ctx.config.state.supported_mint amount p'.shares
              p'.last_value)

  module _ (ctx : VaultAccounts) (amount : ℕ) (s s' : S) (p' : MapleSyrupPosition)
      (ev : MapleSyrupEvent) where
    deposit_steps :
        check_written_position pda ctx ≡ ok tt
        → validate_common ctx.config.state ctx.position.state ctx.owner.key ctx.mint amount ≡ ok tt
        → validate_deposit_accounts chain s ctx ≡ ok tt
        → (deposit pda chain ctx amount s ≡ ok (p', s', ev)) ↔ Deposited ctx amount s s' p' ev
    unfolding deposit
    deposit_steps checked common linked = (λ accepted. ground arith, λ spec. ground arith)

    withdraw_steps :
        check_written_position pda ctx ≡ ok tt
        → validate_common ctx.config.state ctx.position.state ctx.owner.key ctx.mint amount ≡ ok tt
        → validate_withdraw_accounts chain s ctx ≡ ok tt
        → (withdraw pda chain ctx amount s ≡ ok (p', s', ev)) ↔ Withdrawn ctx amount s s' p' ev
    unfolding withdraw
    withdraw_steps checked common linked = (λ accepted. ground arith, λ spec. ground arith)

    -- A deposit succeeds exactly when the amount is not zero, the caller is entitled, the written
    -- accounts are writable, vault, user's account and feed are the right ones, the token program
    -- makes the transfer and the sum is a u64; the position then records the sum, and the vault's
    -- amount after the transfer with its value.
    pub deposit_vault_iff : (deposit pda chain ctx amount s ≡ ok (p', s', ev)) ↔ (
        (0 < amount)
        × Entitled pda ctx
        × Writable ctx
        × Linked chain s ctx
        × IsUserAccount chain s ctx
        × Deposited ctx amount s s' p' ev)
    unfolding deposit
    deposit_vault_iff =
        let permit = check_written_position_iff pda ctx amount in
        let link = validate_deposit_accounts_iff chain s ctx in
        (
          λ accepted.
              let (checked, rest) = >>-ok (check_written_position pda ctx) _ accepted in
              let (common, rest') =
                >>-ok
                  (validate_common ctx.config.state ctx.position.state ctx.owner.key ctx.mint
                    amount)
                  _ rest in
              let (linked, rest'') = >>-ok (validate_deposit_accounts chain s ctx) _ rest' in
              let (given, entitled, writable) = permit.0 (checked, common) in
              let (linked', mine) = link.0 linked in
              (
                given,
                entitled,
                writable,
                linked',
                mine,
                (deposit_steps checked common linked).0 accepted,
              ),
          λ (given, entitled, writable, linked', mine, done).
              let (checked, common) = permit.1 (given, entitled, writable) in
              (deposit_steps checked common (link.1 (linked', mine))).1 done,
        )

    -- A withdrawal succeeds exactly when the amount is not zero and at most what the vault holds,
    -- the caller is entitled, the written accounts are writable, vault, user's account and feed
    -- are the right ones and the token program makes the transfer under the position's seeds; the
    -- position then records the deposited amount less the withdrawn one, stopping at zero, and
    -- the vault's amount after the transfer with its value.
    pub withdraw_vault_iff : (withdraw pda chain ctx amount s ≡ ok (p', s', ev)) ↔ (
        (0 < amount)
        × Entitled pda ctx
        × Writable ctx
        × Linked chain s ctx
        × IsUserAccount chain s ctx
        × Withdrawn ctx amount s s' p' ev)
    unfolding withdraw
    withdraw_vault_iff =
        let permit = check_written_position_iff pda ctx amount in
        let link = validate_withdraw_accounts_iff chain s ctx in
        (
          λ accepted.
              let (checked, rest) = >>-ok (check_written_position pda ctx) _ accepted in
              let (common, rest') =
                >>-ok
                  (validate_common ctx.config.state ctx.position.state ctx.owner.key ctx.mint
                    amount)
                  _ rest in
              let (linked, rest'') = >>-ok (validate_withdraw_accounts chain s ctx) _ rest' in
              let (given, entitled, writable) = permit.0 (checked, common) in
              let (linked', mine) = link.0 linked in
              (
                given,
                entitled,
                writable,
                linked',
                mine,
                (withdraw_steps checked common linked).0 accepted,
              ),
          λ (given, entitled, writable, linked', mine, done).
              let (checked, common) = permit.1 (given, entitled, writable) in
              (withdraw_steps checked common (link.1 (linked', mine))).1 done,
        )

  -- A value query succeeds exactly when the caller is entitled, vault and feed are the right ones
  -- and the vault's shares have a value, whose eight bytes it returns. The value is what
  -- shares_to_usdc_value makes of the shares by the feed, in USDC units, and not the token amount.
  pub current_value_vault_iff :
      (ctx : VaultAccounts) (s : S) (returned : List ℕ) (ev : MapleSyrupEvent)
      → (current_value pda chain ctx s ≡ ok (returned, ev)) ↔ (
          Entitled pda ctx
          × Linked chain s ctx
          × ((shares value : ℕ) × Valued chain ctx s shares value
              × (returned ≡ to_le_bytes 8 value)
              × (ev
                  ≡ maple_syrup_value ctx.position.state.owner ctx.config.state.supported_mint
                      shares value)))
  unfolding current_value
  current_value_vault_iff ctx s returned ev =
      let permit = check_position_iff pda ctx in
      let link = validate_value_accounts_iff chain s ctx in
      (
        λ accepted.
            let (checked, rest) = >>-ok (check_position pda ctx) _ accepted in
            let (common, rest') =
              >>-ok
                (validate_owner_and_mint ctx.config.state ctx.position.state ctx.owner.key ctx.mint)
                _ rest in
            let (linked, rest'') = >>-ok (validate_value_accounts chain s ctx) _ rest' in
            (permit.0 (checked, common), link.0 linked, ground arith),
        λ (entitled, linked, (shares, value, valued, same_bytes, same_event)).
            let (checked, common) = permit.1 entitled in let valid = link.1 linked in ground arith,
      )
