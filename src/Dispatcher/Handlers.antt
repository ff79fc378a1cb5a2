-- ===== src/Dispatcher/Handlers.antt =====
-- The instruction handlers of the dispatcher (programs/dispatcher/src/lib.rs, `mod dispatcher`)
-- with the helpers that build the call of an adapter.
use sol_yield.Base.{ℕ, Bool, true, false, ltb, ◌==◌, if◌then◌else◌, List, [], ◌∷◌, ◌++◌, length}
use sol_yield.Base.Bytes.{to_le_bytes, from_le_bytes}
use sol_yield.Base.Result.{Result, ok, account_not_signer, require, constrain, ok_or, ◌>>=◌, ◌>>◌}
use sol_yield.Solana.Account.{
  Pubkey, AccountInfo, AccountMeta, meta_new, meta_new_readonly, Instruction,
}
use sol_yield.Solana.Pda.{Pda, constrain_mut}
use sol_yield.Dispatcher.Types.{
  deposit_ix_discriminator, withdraw_ix_discriminator, current_value_ix_discriminator, Route,
  DispatcherError, invalid_amount, cpi_failed, RoutedEvent, DispatcherEvent, dispatcher_initialized,
  deposit_routed, withdraw_routed, current_value_queried, Runtime,
}
use sol_yield.Dispatcher.Validate.{validate_adapter_entry}

unfoldable pub initialize : AccountInfo → Result DispatcherError DispatcherEvent
initialize authority = do
  constrain authority.is_signer account_not_signer
  ok (dispatcher_initialized authority.key 1)

unfoldable pub amount_ix_data : List ℕ → ℕ → List ℕ
amount_ix_data discriminator amount = discriminator ++ to_le_bytes 8 amount

unfoldable pub adapter_account_infos :
    AccountInfo → AccountInfo → AccountInfo → AccountInfo → List AccountInfo
adapter_account_infos adapter_config adapter_position user requested_mint =
    adapter_config ∷ adapter_position ∷ user ∷ requested_mint ∷ []

-- the meta of a remaining account, with the access that the account has
abbrev pub account_meta : AccountInfo → AccountMeta
account_meta account =
    if account.is_writable
    then meta_new account.key account.is_signer
    else meta_new_readonly account.key account.is_signer

-- The loop pushes a meta and an account in each round.
unfoldable pub append_remaining_accounts :
    Instruction → List AccountInfo → List AccountInfo → Instruction × List AccountInfo
append_remaining_accounts instruction account_infos [] = (instruction, account_infos)
append_remaining_accounts instruction account_infos (account ∷ remaining_accounts) =
    append_remaining_accounts
      (record instruction { accounts = instruction.accounts ++ (account_meta account ∷ []) })
      (account_infos ++ (account ∷ [])) remaining_accounts

-- The metas of the four accounts that every adapter takes; a value query does not write the
-- position.
abbrev pub adapter_metas : Bool → Route → List AccountMeta
adapter_metas writes ctx =
    meta_new_readonly ctx.adapter_config.key false
    ∷ (if writes
        then meta_new ctx.adapter_position.key false
        else meta_new_readonly ctx.adapter_position.key false)
    ∷ meta_new_readonly ctx.user.key true
    ∷ meta_new_readonly ctx.requested_mint.key false
    ∷ []

abbrev pub routed_event : Route → ℕ → RoutedEvent
routed_event ctx quantity = record {
  user = ctx.user.key;
  adapter_entry = ctx.adapter_entry.key;
  adapter_program_id = ctx.adapter_program.key;
  mint = ctx.requested_mint.key;
  quantity = quantity;
}

-- The call of the adapter: the instruction and its accounts, the remaining ones and the program
-- behind the four.
unfoldable pub adapter_call : Bool → Route → List ℕ → Instruction × List AccountInfo
unfolding append_remaining_accounts adapter_account_infos
adapter_call writes ctx payload =
    let call =
      append_remaining_accounts
        (record {
          program_id = ctx.adapter_program.key;
          accounts = adapter_metas writes ctx;
          bytes = payload;
        })
        (adapter_account_infos ctx.adapter_config ctx.adapter_position ctx.user ctx.requested_mint)
        ctx.remaining_accounts in
    (call.0, call.1 ++ (ctx.adapter_program ∷ []))

-- the checks of `RouteDeposit`, `RouteWithdraw` and `RouteCurrentValue`
abbrev pub check_deposit : Route → Result DispatcherError (Unit {0})
check_deposit ctx = do
  constrain ctx.user.is_signer account_not_signer
  constrain_mut ctx.adapter_position.is_writable
  constrain_mut ctx.user.is_writable

abbrev pub check_withdraw : Route → Result DispatcherError (Unit {0})
check_withdraw ctx = do
  constrain ctx.user.is_signer account_not_signer
  constrain_mut ctx.adapter_position.is_writable

abbrev pub check_current_value : Route → Result DispatcherError (Unit {0})
check_current_value ctx = constrain ctx.user.is_signer account_not_signer

module _ {ℓ} {S : Type ℓ} (runtime : Runtime S) where
  unfoldable pub read_current_value_return : Pubkey → S → Result DispatcherError ℕ
  read_current_value_return adapter_program_id s = do
    (return_program_id, returned) ← ok_or (runtime.get_return_data s) cpi_failed
    require (return_program_id == adapter_program_id) cpi_failed
    require (length returned == 8) cpi_failed
    ok (from_le_bytes returned)

module _ {ℓ} {S : Type ℓ} (pda : Pda) (runtime : Runtime S) where
  -- the check of the entry, with the keys of the accounts that were passed
  abbrev pub check_route : Route → Result DispatcherError (Unit {0})
  check_route ctx =
      validate_adapter_entry pda ctx.adapter_entry.key ctx.adapter_entry.state
        ctx.adapter_program.key ctx.requested_mint.key

  -- `invoke(...).map_err(|_| error!(CpiFailed))?`
  abbrev pub invoke_adapter : Instruction × List AccountInfo → S → Result DispatcherError S
  invoke_adapter call s = ok_or (runtime.invoke call.0 call.1 s) cpi_failed

  unfoldable pub deposit : Route → ℕ → S → Result DispatcherError (S × DispatcherEvent)
  deposit ctx amount s = do
    check_deposit ctx
    require (ltb 0 amount) invalid_amount
    check_route ctx
    s' ← invoke_adapter (adapter_call true ctx (amount_ix_data deposit_ix_discriminator amount)) s
    ok (s', deposit_routed (routed_event ctx amount))

  unfoldable pub withdraw : Route → ℕ → S → Result DispatcherError (S × DispatcherEvent)
  withdraw ctx amount s = do
    check_withdraw ctx
    require (ltb 0 amount) invalid_amount
    check_route ctx
    s' ← invoke_adapter (adapter_call true ctx (amount_ix_data withdraw_ix_discriminator amount)) s
    ok (s', withdraw_routed (routed_event ctx amount))

  unfoldable pub current_value : Route → S → Result DispatcherError (S × DispatcherEvent)
  unfolding read_current_value_return
  current_value ctx s = do
    check_current_value ctx
    check_route ctx
    s' ← invoke_adapter (adapter_call false ctx current_value_ix_discriminator) s
    value ← read_current_value_return runtime ctx.adapter_program.key s'
    ok (s', current_value_queried (routed_event ctx value))
