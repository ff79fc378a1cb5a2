-- ===== src/Dispatcher/Validate.antt =====
-- The check of the registry entry behind every routed call (programs/dispatcher/src/lib.rs,
-- `validate_adapter_entry`).
use sol_yield.Base.{◌≡◌, ◌≢◌, ◌↔◌, ◌==◌, arith}
use sol_yield.Base.Result.{Result, ok, err, custom, require, ◌>>◌}
use sol_yield.Solana.Account.{Pubkey}
use sol_yield.Solana.Pda.{Pda}
use sol_yield.Registry.Types.{
  registry_id, adapter_entry_seeds, AdapterEntry, AdapterStatus, pending, approved, paused,
  deprecated,
}
use sol_yield.Dispatcher.Types.{
  DispatcherError, adapter_not_approved, adapter_paused, adapter_deprecated,
  invalid_adapter_program, invalid_mint, invalid_registry_entry,
}

-- the `match` on the status of the entry
abbrev pub check_status : AdapterStatus → Result DispatcherError (Unit {0})
check_status approved = ok tt
check_status pending = err (custom adapter_not_approved)
check_status paused = err (custom adapter_paused)
check_status deprecated = err (custom adapter_deprecated)

unfoldable pub validate_adapter_entry :
    Pda → Pubkey → AdapterEntry → Pubkey → Pubkey → Result DispatcherError (Unit {0})
validate_adapter_entry pda adapter_entry_key adapter_entry adapter_program_id requested_mint = do
  let expected =
      pda.find_program_address
        (adapter_entry_seeds adapter_entry.adapter_program_id adapter_entry.supported_mint
          adapter_entry.adapter_version)
        registry_id
  require (adapter_entry_key == expected.0) invalid_registry_entry
  require (adapter_entry.bump == expected.1) invalid_registry_entry
  check_status adapter_entry.status
  require (adapter_program_id == adapter_entry.adapter_program_id) invalid_adapter_program
  require (requested_mint == adapter_entry.supported_mint) invalid_mint
  ok tt

-- The entry stands at its canonical address, with its canonical bump.
abbrev pub Canonical : Pda → Pubkey → AdapterEntry → Type 0
Canonical pda key e =
    pda.find_program_address
      (adapter_entry_seeds e.adapter_program_id e.supported_mint e.adapter_version) registry_id
    ≡ (key, e.bump)

-- An entry that a call for this program and mint may be routed by.
pub record IsRoutable (pda : Pda) (key : Pubkey) (e : AdapterEntry) (program mint : Pubkey)
    : Type 0 where
  pub canonical : Canonical pda key e
  pub is_approved : e.status ≡ approved
  pub same_program : program ≡ e.adapter_program_id
  pub same_mint : mint ≡ e.supported_mint

-- An entry passes exactly when it stands at its canonical address, is approved, and is for the
-- program and the mint that the call names.
pub validate_adapter_entry_iff :
    (pda : Pda) (key : Pubkey) (e : AdapterEntry) (program mint : Pubkey)
    → (validate_adapter_entry pda key e program mint ≡ ok tt) ↔ IsRoutable pda key e program mint
unfolding validate_adapter_entry
validate_adapter_entry_iff pda key e program mint = (λ h. ground arith, λ h. ground arith)

-- A canonical entry in any other status is refused with the error for that status, whatever
-- program and mint are named.
pub validate_adapter_entry_status :
    (pda : Pda) (key : Pubkey) (e : AdapterEntry) (program mint : Pubkey)
    → Canonical pda key e
    → e.status ≢ approved
    → validate_adapter_entry pda key e program mint ≡ check_status e.status
unfolding validate_adapter_entry
validate_adapter_entry_status pda key e program mint canonical other = ground arith
