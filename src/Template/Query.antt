-- ===== src/Template/Query.antt =====
-- The value query of the template and the dispatcher's reading of it.
use sol_yield.Base.{ℕ, ◌≡◌, some, List, arith}
use sol_yield.Base.Bytes.{to_le_bytes}
use sol_yield.Base.Result.{ok}
use sol_yield.Solana.Account.{Pubkey}
use sol_yield.Template.Types.{AdapterEvent, PositionAccounts}
use sol_yield.Template.Handlers.{current_value}
use sol_yield.Template.Ledger.{IsBalance}
use sol_yield.Dispatcher.Types.{Runtime}
use sol_yield.Dispatcher.Handlers.{read_current_value_return}
use sol_yield.Dispatcher.Data.{read_current_value_return-to_le_bytes}

-- When the template accepts a value query on a balance and the runtime hands its bytes on under
-- the template's id, the dispatcher reads the deposited amount.
pub current_value-read_back {ℓ} :
    {S : Type ℓ} (runtime : Runtime S) (s : S) (program : Pubkey) (ctx : PositionAccounts)
    (returned : List ℕ) (ev : AdapterEvent)
    → IsBalance ctx.user_position.state
    → current_value ctx ≡ ok (returned, ev)
    → runtime.get_return_data s ≡ some (program, returned)
    → read_current_value_return runtime program s ≡ ok ctx.user_position.state.deposited_amount
unfolding current_value
current_value-read_back runtime s program ctx returned ev h accepted handed =
    let amount = ctx.user_position.state.deposited_amount in
    let same : returned ≡ to_le_bytes 8 amount = ground arith in
    read_current_value_return-to_le_bytes runtime program s amount h.fits (rw (← same) handed)
