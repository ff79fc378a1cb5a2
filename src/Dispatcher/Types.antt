-- ===== src/Dispatcher/Types.antt =====
-- The accounts, events, errors and constants of the dispatcher (programs/dispatcher/src/lib.rs).
use sol_yield.Base.{ℕ, List, [], ◌∷◌, Option}
use sol_yield.Solana.Account.{Pubkey, AccountInfo, Instruction, Account}
use sol_yield.Registry.Types.{AdapterEntry}

abbrev pub deposit_ix_discriminator : List ℕ
deposit_ix_discriminator = 242 ∷ 35 ∷ 198 ∷ 137 ∷ 82 ∷ 225 ∷ 242 ∷ 182 ∷ []

abbrev pub withdraw_ix_discriminator : List ℕ
withdraw_ix_discriminator = 183 ∷ 18 ∷ 70 ∷ 156 ∷ 148 ∷ 109 ∷ 161 ∷ 34 ∷ []

abbrev pub current_value_ix_discriminator : List ℕ
current_value_ix_discriminator = 232 ∷ 199 ∷ 167 ∷ 206 ∷ 247 ∷ 56 ∷ 234 ∷ 20 ∷ []

-- The accounts of `RouteDeposit`, `RouteWithdraw` and `RouteCurrentValue`, which have the same
-- fields and differ in the access that they ask for, with the remaining accounts.
pub record Route : Type 0 where
  pub adapter_entry : Account AdapterEntry
  pub adapter_program : AccountInfo
  pub adapter_config : AccountInfo
  pub requested_mint : AccountInfo
  pub adapter_position : AccountInfo
  pub user : AccountInfo
  pub remaining_accounts : List AccountInfo

pub data DispatcherError : Type 0 where
  adapter_not_approved adapter_paused adapter_deprecated : DispatcherError
  invalid_adapter_program invalid_mint invalid_amount invalid_registry_entry : DispatcherError
  cpi_failed : DispatcherError

-- What the events of a routed call carry; the last field is the amount or the value.
pub record RoutedEvent : Type 0 where
  pub user : Pubkey
  pub adapter_entry : Pubkey
  pub adapter_program_id : Pubkey
  pub mint : Pubkey
  pub quantity : ℕ

pub data DispatcherEvent : Type 0 where
  dispatcher_initialized : Pubkey → ℕ → DispatcherEvent
  deposit_routed withdraw_routed current_value_queried : RoutedEvent → DispatcherEvent

-- What the dispatcher calls in the Solana runtime, over some state of the chain: the invocation
-- of another program, which may fail, and the data that the last program returned.
pub record Runtime {ℓ} (S : Type ℓ) : Type ℓ where
  pub invoke : Instruction → List AccountInfo → S → Option S
  pub get_return_data : S → Option (Pubkey × List ℕ)
