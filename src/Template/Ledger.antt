-- ===== src/Template/Ledger.antt =====
-- The template's position as a balance: what a deposit and a withdrawal do to it, and what any
-- history of them adds up to.
use sol_yield.Base.{ℕ, ◌+◌, ◌-◌, ◌≤◌, ◌<◌, ◌≡◌, ◌↔◌, refl, ◌∙◌, List, [], ◌∷◌, arith}
use sol_yield.Base.Result.{Result, ok, err, custom}
use sol_yield.Base.Word.{IsU64}
use sol_yield.Solana.Pda.{Pda}
use sol_yield.Template.Types.{
  UserPosition, AdapterTemplateError, math_overflow, AdapterEvent, adapter_deposit,
  adapter_withdraw, PositionAccounts,
}
use sol_yield.Template.Handlers.{deposit, withdraw, run_deposit, run_withdraw}

-- Shares and value are the deposited amount, which is a u64.
pub record IsBalance (p : UserPosition) : Type 0 where
  pub same_shares : p.shares ≡ p.deposited_amount
  pub same_value : p.last_value ≡ p.deposited_amount
  pub fits : IsU64 p.deposited_amount

-- The position with another balance.
abbrev pub with_balance : ℕ → UserPosition → UserPosition
with_balance n p = record p { deposited_amount = n; shares = n; last_value = n }

-- The call names the mint of the config, and its signer owns the position.
pub record Permitted (ctx : PositionAccounts) : Type 0 where
  pub same_mint : ctx.mint ≡ ctx.adapter_config.state.supported_mint
  pub same_owner : ctx.owner.key ≡ ctx.user_position.state.owner

-- On a balance, a deposit succeeds exactly when the amount is not zero, the call is permitted and
-- the sum is a u64; the balance is then the sum.
deposit_balance_iff :
    (ctx : PositionAccounts) (amount : ℕ) (p' : UserPosition) (ev : AdapterEvent)
    → IsBalance ctx.user_position.state
    → (deposit ctx amount ≡ ok (p', ev)) ↔ (
        (0 < amount)
        × Permitted ctx
        × IsU64 (ctx.user_position.state.deposited_amount + amount)
        × (p'
            ≡ with_balance
                (ctx.user_position.state.deposited_amount + amount)
                ctx.user_position.state)
        × (ev
            ≡ adapter_deposit ctx.user_position.state.owner ctx.adapter_config.state.supported_mint
                amount p'.shares p'.last_value))
unfolding deposit
deposit_balance_iff ctx amount p' ev h = (λ accepted. ground arith, λ spec. ground arith)

-- On a balance, a withdrawal succeeds exactly when the amount is not zero, the call is permitted
-- and the balance covers the amount; the balance is then the difference.
withdraw_balance_iff :
    (ctx : PositionAccounts) (amount : ℕ) (p' : UserPosition) (ev : AdapterEvent)
    → IsBalance ctx.user_position.state
    → (withdraw ctx amount ≡ ok (p', ev)) ↔ (
        (0 < amount)
        × Permitted ctx
        × (amount ≤ ctx.user_position.state.deposited_amount)
        × (p'
            ≡ with_balance
                (ctx.user_position.state.deposited_amount - amount)
                ctx.user_position.state)
        × (ev
            ≡ adapter_withdraw ctx.user_position.state.owner ctx.adapter_config.state.supported_mint
                amount p'.shares p'.last_value))
unfolding withdraw
withdraw_balance_iff ctx amount p' ev h = (λ accepted. ground arith, λ spec. ground arith)

-- A permitted withdrawal of more than the balance is refused with MathOverflow.
pub withdraw_overdraft :
    (ctx : PositionAccounts) (amount : ℕ)
    → Permitted ctx
    → ctx.user_position.state.deposited_amount < amount
    → withdraw ctx amount ≡ err (custom math_overflow)
unfolding withdraw
withdraw_overdraft ctx amount h short = ground arith

-- A deposit that is withdrawn again, through the same accounts, leaves the position as it was.
deposit-withdraw :
    (ctx ctx' : PositionAccounts) (amount : ℕ) (p' : UserPosition) (ev : AdapterEvent)
    → IsBalance ctx.user_position.state
    → deposit ctx amount ≡ ok (p', ev)
    → ctx'.user_position.state ≡ p'
    → ctx'.adapter_config.state ≡ ctx.adapter_config.state
    → ctx'.mint ≡ ctx.mint
    → ctx'.owner ≡ ctx.owner
    → (ev' : AdapterEvent) × (withdraw ctx' amount ≡ ok (ctx.user_position.state, ev'))
unfolding deposit withdraw
deposit-withdraw ctx ctx' amount p' ev h accepted same same_config same_mint same_owner =
    let before = ctx.user_position.state in
    (
      adapter_withdraw before.owner ctx.adapter_config.state.supported_mint amount
          before.deposited_amount before.deposited_amount,
      ground arith,
    )

-- A call on one position: its kind and amount, with the other accounts.
pub data Movement : Type 0 where
  paid_in paid_out : ℕ → Movement

pub record Operation : Type 0 where
  pub accounts : PositionAccounts
  pub movement : Movement

-- What a call did: the position after it, and the amounts that it moved in and out. A refused
-- one moves nothing.
abbrev pub settle :
    Movement
    → UserPosition
    → Result AdapterTemplateError (UserPosition × AdapterEvent)
    → UserPosition × ℕ × ℕ
settle (paid_in amount) p (ok (p', _)) = (p', amount, 0)
settle (paid_out amount) p (ok (p', _)) = (p', 0, amount)
settle _ p (err _) = (p, 0, 0)

-- The balance and the amounts that left make up the balance before and those that came.
abbrev pub Balances : UserPosition → UserPosition × ℕ × ℕ → Type 0
Balances p (p', came, went) =
    IsBalance p' × (p'.deposited_amount + went ≡ p.deposited_amount + came) × (p'.owner ≡ p.owner)

module _ (pda : Pda) where
  abbrev on_position : PositionAccounts → UserPosition → PositionAccounts
  on_position ctx p = record ctx {
    user_position = record {
      key = ctx.user_position.key;
      is_writable = ctx.user_position.is_writable;
      state = p;
    };
  }

  run_movement :
      Movement → PositionAccounts → Result AdapterTemplateError (UserPosition × AdapterEvent)
  unfolding run_deposit run_withdraw
  run_movement (paid_in amount) ctx = run_deposit pda ctx amount
  run_movement (paid_out amount) ctx = run_withdraw pda ctx amount

  apply : Operation → UserPosition → UserPosition × ℕ × ℕ
  unfolding run_movement
  apply op p = settle op.movement p (run_movement op.movement (on_position op.accounts p))

  -- The calls on a position, one after the other; a refused call changes nothing.
  unfoldable pub run : List Operation → UserPosition → UserPosition × ℕ × ℕ
  unfolding apply
  run [] p = (p, 0, 0)
  run (op ∷ ops) p =
      let (p', came, went) = apply op p in
      let (p'', came', went') = run ops p' in (p'', came + came', went + went')

  run_movement-Balances :
      (m : Movement) (ctx : PositionAccounts)
      → IsBalance ctx.user_position.state
      → Balances ctx.user_position.state (settle m ctx.user_position.state (run_movement m ctx))
  unfolding run_movement
  run_movement-Balances (paid_in amount) ctx h = ground arith
  run_movement-Balances (paid_out amount) ctx h = ground arith

  apply-Balances : (op : Operation) (p : UserPosition) → IsBalance p → Balances p (apply op p)
  unfolding apply
  apply-Balances op p h = run_movement-Balances op.movement (on_position op.accounts p) h

  -- After any calls on a balance, accepted or refused, the position is a balance of the same
  -- owner, and accounts for every amount that was moved.
  pub run-Balances :
      (ops : List Operation) (p : UserPosition) → IsBalance p → Balances p (run ops p)
  unfolding run
  run-Balances [] p h = (h, refl, refl)
  run-Balances (op ∷ ops) p h =
      let (balance, moved, owned) = apply-Balances op p h in
      let (balance', moved', owned') = run-Balances ops (apply op p).0 balance in
      (balance', omega (arith, moved, moved'), owned' ∙ owned)
