-- ===== src/Dispatcher/Routing.antt =====
-- What a routed call does: when it succeeds, what the adapter is called with, and that the call
-- gives the adapter no access that the accounts do not have.
use sol_yield.Base.{
  ℕ, ◌<◌, ◌≡◌, ◌↔◌, ◌∙◌, refl, ap, Bool, true, false, some, List, [], ◌∷◌, ◌++◌, map, length, arith,
}
use mathlib.Core.List.{append-nil, append_assoc}
use sol_yield.Base.Bytes.{from_le_bytes}
use sol_yield.Base.Result.{ok}
use sol_yield.Solana.Account.{Pubkey, AccountInfo, AccountMeta, Instruction}
use sol_yield.Solana.Pda.{Pda}
use sol_yield.Dispatcher.Types.{
  deposit_ix_discriminator, withdraw_ix_discriminator, current_value_ix_discriminator, Route,
  DispatcherEvent, deposit_routed, withdraw_routed, current_value_queried, Runtime,
}
use sol_yield.Dispatcher.Validate.{validate_adapter_entry, IsRoutable, validate_adapter_entry_iff}
use sol_yield.Dispatcher.Handlers.{
  amount_ix_data, adapter_metas, account_meta, append_remaining_accounts, adapter_call,
  routed_event, deposit, withdraw, current_value,
}

-- The call of an adapter, written out: the four fixed accounts, those that the caller added, and
-- the adapter's program.
abbrev pub routed_call : Bool → Route → List ℕ → Instruction × List AccountInfo
routed_call writes ctx payload = (
  record {
    program_id = ctx.adapter_program.key;
    accounts = adapter_metas writes ctx ++ map account_meta ctx.remaining_accounts;
    bytes = payload;
  },
  (ctx.adapter_config ∷ ctx.adapter_position ∷ ctx.user ∷ ctx.requested_mint
        ∷ ctx.remaining_accounts)
      ++ (ctx.adapter_program ∷ []),
)

-- The loop over the remaining accounts appends the metas to one list and the accounts to the
-- other, in their order.
append_remaining_accounts_lem :
    (instruction : Instruction) (infos remaining : List AccountInfo)
    → append_remaining_accounts instruction infos remaining ≡ (
      record instruction { accounts = instruction.accounts ++ map account_meta remaining },
      infos ++ remaining,
    )
unfolding append_remaining_accounts
append_remaining_accounts_lem instruction infos [] = simp append-nil
append_remaining_accounts_lem instruction infos (account ∷ remaining) =
    append_remaining_accounts_lem
      (record instruction { accounts = instruction.accounts ++ (account_meta account ∷ []) })
      (infos ++ (account ∷ [])) remaining
    ∙ simp append_assoc

pub adapter_call_lem :
    (writes : Bool) (ctx : Route) (payload : List ℕ)
    → adapter_call writes ctx payload ≡ routed_call writes ctx payload
unfolding adapter_call
adapter_call_lem writes ctx payload =
    ap {B = Instruction × List AccountInfo}
      (λ (call : Instruction × List AccountInfo). (call.0, call.1 ++ (ctx.adapter_program ∷ [])))
      (append_remaining_accounts_lem
        (record {
          program_id = ctx.adapter_program.key;
          accounts = adapter_metas writes ctx;
          bytes = payload;
        })
        (ctx.adapter_config ∷ ctx.adapter_position ∷ ctx.user ∷ ctx.requested_mint ∷ [])
        ctx.remaining_accounts)

-- Each meta names the account at its place, and asks for no signature and no write access that
-- the account does not have; accounts may follow that no meta names.
abbrev pub Covers : List AccountMeta → List AccountInfo → Type 0
Covers [] infos = Unit
Covers (meta ∷ metas) [] = ⊥
Covers (meta ∷ metas) (account ∷ infos) =
    (meta.pubkey ≡ account.key)
    × (meta.is_signer ≡ true → account.is_signer ≡ true)
    × (meta.is_writable ≡ true → account.is_writable ≡ true)
    × Covers metas infos

Covers-remaining :
    (remaining rest : List AccountInfo) → Covers (map account_meta remaining) (remaining ++ rest)
Covers-remaining [] rest = tt
Covers-remaining (account ∷ remaining) rest = ground (arith, Covers-remaining remaining rest)

routed_call-Covers :
    (writes : Bool) (ctx : Route) (payload : List ℕ)
    → ctx.user.is_signer ≡ true
    → (writes ≡ true → ctx.adapter_position.is_writable ≡ true)
    → Covers (routed_call writes ctx payload).0.accounts (routed_call writes ctx payload).1
routed_call-Covers writes ctx payload signed writable =
    ground (arith, Covers-remaining ctx.remaining_accounts (ctx.adapter_program ∷ []))

-- When the user signed and a position to be written is writable, every meta of the call names the
-- account at its place and asks for no signature or write access that this account lacks.
pub adapter_call-Covers :
    (writes : Bool) (ctx : Route) (payload : List ℕ)
    → ctx.user.is_signer ≡ true
    → (writes ≡ true → ctx.adapter_position.is_writable ≡ true)
    → Covers (adapter_call writes ctx payload).0.accounts (adapter_call writes ctx payload).1
adapter_call-Covers writes ctx payload signed writable =
    rw (adapter_call_lem writes ctx payload) (routed_call-Covers writes ctx payload signed writable)

module _ {ℓ} {S : Type ℓ} (runtime : Runtime S) where
  -- A value that the adapter returned to the dispatcher: eight bytes, under the adapter's id.
  abbrev pub Returned : Pubkey → S → ℕ → Type 0
  Returned program s value =
      (returned : List ℕ) × (runtime.get_return_data s ≡ some (program, returned))
      × (length returned ≡ 8)
      × (value ≡ from_le_bytes returned)

module _ {ℓ} {S : Type ℓ} (pda : Pda) (runtime : Runtime S) where
  -- What every routed call needs, from `s` to `s'`: the user's signature, a position that may be
  -- written if it will be, an entry that approves this program for this mint, and an adapter
  -- that accepts the call.
  pub record Routed (writes : Bool) (ctx : Route) (payload : List ℕ) (s s' : S) : Type ℓ where
    pub signed : ctx.user.is_signer ≡ true
    pub position_writable : writes ≡ true → ctx.adapter_position.is_writable ≡ true
    pub routable :
        IsRoutable pda ctx.adapter_entry.key ctx.adapter_entry.state ctx.adapter_program.key
          ctx.requested_mint.key
    pub invoked :
        runtime.invoke (routed_call writes ctx payload).0 (routed_call writes ctx payload).1 s
        ≡ some s'

  validate_adapter_entry-IsRoutable :
      (ctx : Route)
      → validate_adapter_entry pda ctx.adapter_entry.key ctx.adapter_entry.state
          ctx.adapter_program.key ctx.requested_mint.key
        ≡ ok tt
      → IsRoutable pda ctx.adapter_entry.key ctx.adapter_entry.state ctx.adapter_program.key
          ctx.requested_mint.key
  validate_adapter_entry-IsRoutable ctx = (validate_adapter_entry_iff _ _ _ _ _).0

  validate_adapter_entry_of_IsRoutable :
      (ctx : Route)
      → IsRoutable pda ctx.adapter_entry.key ctx.adapter_entry.state ctx.adapter_program.key
          ctx.requested_mint.key
      → validate_adapter_entry pda ctx.adapter_entry.key ctx.adapter_entry.state
          ctx.adapter_program.key ctx.requested_mint.key
        ≡ ok tt
  validate_adapter_entry_of_IsRoutable ctx = (validate_adapter_entry_iff _ _ _ _ _).1

  -- A routed deposit succeeds exactly when the amount is not zero, the user signed and is writable,
  -- the position is writable, the entry is routable and the adapter accepts the call with the four
  -- fixed accounts, the remaining ones and the deposit data; it emits the event of that user,
  -- adapter, mint and amount.
  pub deposit_iff :
      (ctx : Route) (amount : ℕ) (s s' : S) (ev : DispatcherEvent)
      → (deposit pda runtime ctx amount s ≡ ok (s', ev)) ↔ (
          (0 < amount)
          × (ctx.user.is_writable ≡ true)
          × Routed true ctx (amount_ix_data deposit_ix_discriminator amount) s s'
          × (ev ≡ deposit_routed (routed_event ctx amount)))
  unfolding deposit
  deposit_iff ctx amount s s' ev =
      let call = adapter_call_lem true ctx (amount_ix_data deposit_ix_discriminator amount) in
      (
        λ h. ground (arith, call, validate_adapter_entry-IsRoutable ctx),
        λ (positive, payer, routed, emitted). ground (
          arith,
          routed.signed,
          routed.position_writable refl,
          routed.invoked,
          call,
          validate_adapter_entry_of_IsRoutable ctx routed.routable,
        ),
      )

  -- A routed withdrawal succeeds exactly when the amount is not zero, the user signed, the position
  -- is writable, the entry is routable and the adapter accepts the call with the withdrawal data;
  -- it emits the event of that user, adapter, mint and amount.
  pub withdraw_iff :
      (ctx : Route) (amount : ℕ) (s s' : S) (ev : DispatcherEvent)
      → (withdraw pda runtime ctx amount s ≡ ok (s', ev)) ↔ (
          (0 < amount)
          × Routed true ctx (amount_ix_data withdraw_ix_discriminator amount) s s'
          × (ev ≡ withdraw_routed (routed_event ctx amount)))
  unfolding withdraw
  withdraw_iff ctx amount s s' ev =
      let call = adapter_call_lem true ctx (amount_ix_data withdraw_ix_discriminator amount) in
      (
        λ h. ground (arith, call, validate_adapter_entry-IsRoutable ctx),
        λ (positive, routed, emitted). ground (
          arith,
          routed.signed,
          routed.position_writable refl,
          routed.invoked,
          call,
          validate_adapter_entry_of_IsRoutable ctx routed.routable,
        ),
      )

  -- A value query succeeds exactly when the user signed, the entry is routable, the adapter accepts
  -- the call with a read-only position, and it returned eight bytes under its own id; the event
  -- carries the number that the bytes stand for.
  pub current_value_iff :
      (ctx : Route) (s s' : S) (ev : DispatcherEvent)
      → (current_value pda runtime ctx s ≡ ok (s', ev)) ↔ (
          (value : ℕ) × Routed false ctx current_value_ix_discriminator s s'
          × Returned runtime ctx.adapter_program.key s' value
          × (ev ≡ current_value_queried (routed_event ctx value)))
  unfolding current_value
  current_value_iff ctx s s' ev =
      let call = adapter_call_lem false ctx current_value_ix_discriminator in
      (
        λ h.
            let read : (returned : List ℕ) × (runtime.get_return_data s'
                  ≡ some (ctx.adapter_program.key, returned))
                × (length returned ≡ 8)
                × (ev ≡ current_value_queried (routed_event ctx (from_le_bytes returned))) =
              ground (arith, call) in
            (
              from_le_bytes read.0,
              ground (arith, call, validate_adapter_entry-IsRoutable ctx),
              (read.0, read.1, read.2, refl),
              read.3,
            ),
        λ (value, routed, (returned, found, eight, same), emitted). ground (
          arith,
          routed.signed,
          routed.invoked,
          call,
          found,
          validate_adapter_entry_of_IsRoutable ctx routed.routable,
        ),
      )
