-- ===== src/Registry/Invariant.antt =====
-- The invariant of the accounts that the registry owns, kept by every instruction that the
-- program accepts while the clock does not go back.
use sol_yield.Base.{ℕ, ◌+◌, ◌≤◌, ◌≡◌, ◌≢◌, refl, Option, none, some, arith, [], ◌∷◌, All}
use sol_yield.Base.Result.{ok}
use sol_yield.Base.Word.{IsU64}
use sol_yield.Base.Store.{Store, fetch, put, fetch-put, All-put, All-fetch, All-imp}
use sol_yield.Solana.Account.{Pubkey, default_pubkey}
use sol_yield.Solana.Pda.{Pda}
use sol_yield.Registry.Types.{
  AdapterEntry, AdapterStatus, RegistryConfig, RegistryEvent, max_protocol_name_len,
  max_metadata_uri_len,
}
use sol_yield.Registry.Validate.{FitsText}
use sol_yield.Registry.Program.{AccountState, config, entry, GovernAction, Request, process}
use sol_yield.Registry.Spec.{
  Transition, approval, pausing, unpausing, deprecating, describing, updated, proposed_entry, Step,
  initialized, proposed, governed, transferred, config_address, entry_address, initial_config,
}
use sol_yield.Registry.Refines.{process_sound}

-- How many accounts are entries.
abbrev pub weight : Option AccountState → ℕ
weight (some (entry _)) = 1
weight _ = 0

unfoldable pub entry_count : Store AccountState → ℕ
entry_count [] = 0
entry_count ((_, state) ∷ s) = weight (some state) + entry_count s

pub entry_count-put :
    (k : ℕ) (v : AccountState) (s : Store AccountState)
    → entry_count (put k v s) + weight (fetch k s) ≡ entry_count s + weight (some v)
unfolding entry_count put fetch
entry_count-put k v [] = ground arith
entry_count-put k v ((j, w) ∷ s) = ground (arith, entry_count-put k v s)

-- The config's counter, as far as there is a config, is the number of entries.
abbrev pub Counts : Option AccountState → ℕ → Type 0
Counts (some (config c)) n = c.adapter_count ≡ n
Counts (some (entry _)) n = Unit
Counts none n = n ≡ 0

module _ (pda : Pda) where
  -- An entry stands at the address found for its program, mint and version; its texts fit, its
  -- keys are known, and its slots lie in order before the present one.
  pub record IsValidEntry (now : ℕ) (key : Pubkey) (e : AdapterEntry) : Type 0 where
    pub canonical :
        entry_address pda e.adapter_program_id e.supported_mint e.adapter_version ≡ (key, e.bump)
    pub name_fits : FitsText max_protocol_name_len e.protocol_name
    pub uri_fits : FitsText max_metadata_uri_len e.metadata_uri
    pub program_known : e.adapter_program_id ≢ default_pubkey
    pub mint_known : e.supported_mint ≢ default_pubkey
    pub slots_ordered : e.created_slot ≤ e.updated_slot
    pub slots_past : e.updated_slot ≤ now

  pub record IsValidConfig (key : Pubkey) (c : RegistryConfig) : Type 0 where
    pub canonical : config_address pda ≡ (key, c.bump)
    pub count_fits : IsU64 c.adapter_count

  abbrev pub IsValidAccount : ℕ → ℕ × AccountState → Type 0
  IsValidAccount now (key, config c) = IsValidConfig key c
  IsValidAccount now (key, entry e) = IsValidEntry now key e

  pub record IsValid (now : ℕ) (s : Store AccountState) : Type 0 where
    pub accounts : All (IsValidAccount now) s
    pub counted : Counts (fetch (config_address pda).0 s) (entry_count s)

  later :
      (now slot : ℕ)
      → now ≤ slot
      → (a : ℕ × AccountState) → IsValidAccount now a
      → IsValidAccount slot a
  later now slot h (key, config c) v = v
  later now slot h (key, entry e) v = ground arith

  later_accounts :
      (now slot : ℕ) (s : Store AccountState)
      → now ≤ slot
      → All (IsValidAccount now) s
      → All (IsValidAccount slot) s
  later_accounts now slot s h = All-imp (later now slot h) s

  -- The config of a valid store stands at the config's address.
  pub config_placed :
      (now key : ℕ) (s : Store AccountState) {c : RegistryConfig}
      → IsValid now s
      → fetch key s ≡ some (config c)
      → IsValidConfig key c
  config_placed now key s v e = All-fetch (IsValidAccount now) key s v.accounts e

  pub entry_placed :
      (now key : ℕ) (s : Store AccountState) {e : AdapterEntry}
      → IsValid now s
      → fetch key s ≡ some (entry e)
      → IsValidEntry now key e
  entry_placed now key s v e = All-fetch (IsValidAccount now) key s v.accounts e

  updated-IsValidEntry :
      (now slot key : ℕ) (action : GovernAction) (e : AdapterEntry) (current status : AdapterStatus)
      → Transition action current status
      → now ≤ slot
      → IsValidEntry now key e
      → IsValidEntry slot key (updated action status slot e)
  updated-IsValidEntry now slot key action e current status approval h v = ground arith
  updated-IsValidEntry now slot key action e current status pausing h v = ground arith
  updated-IsValidEntry now slot key action e current status unpausing h v = ground arith
  updated-IsValidEntry now slot key action e current status (deprecating live) h v = ground arith
  updated-IsValidEntry now slot key action e current status (describing fits) h v = ground arith

  -- Writing an account keeps the invariant where the new account is valid and the count is right.
  put-IsValid :
      (now slot key : ℕ) (state : AccountState) (s : Store AccountState)
      → now ≤ slot
      → IsValid now s
      → IsValidAccount slot (key, state)
      → Counts (fetch (config_address pda).0 (put key state s)) (entry_count (put key state s))
      → IsValid slot (put key state s)
  put-IsValid now slot key state s h v ok_account count = record {
    accounts =
        All-put (IsValidAccount slot) key state s (later_accounts now slot s h v.accounts)
          ok_account;
    counted = count;
  }

  -- An accepted instruction, at a slot that is not before the last one, keeps the invariant.
  pub Step-IsValid :
      (now : ℕ) (r : Request) (s : Store AccountState) {s' : Store AccountState}
      → Step pda r s s'
      → now ≤ r.slot
      → IsValid now s
      → IsValid r.slot s'
  Step-IsValid now r s (initialized call signed payer writable absent placed) h v =
      let key = r.registry_config.key in
      let state = config (initial_config pda r.governance_authority.key) in
      put-IsValid now r.slot key state s h v (ground arith) (
        ground (
          arith,
          fetch-put (config_address pda).0 key state s,
          entry_count-put key state s,
          v.counted,
        ))
  Step-IsValid now r s
        (proposed c entry_ref p call authorised payer cw writable absent placed good room) h v =
      let key = r.registry_config.key in
      let counted_up = config (record c { adapter_count = c.adapter_count + 1 }) in
      let address = entry_address pda p.adapter_program_id p.supported_mint p.adapter_version in
      let state = entry (proposed_entry p address.1 r.slot) in
      let config_ok = config_placed now key s v authorised.loaded in
      record {
        accounts =
            All-put (IsValidAccount r.slot) entry_ref.key state (put key counted_up s)
              (All-put (IsValidAccount r.slot) key counted_up s
                (later_accounts now r.slot s h v.accounts) (ground (arith, config_ok)))
              (ground arith);
        counted = ground (
          arith,
          config_ok,
          fetch-put (config_address pda).0 entry_ref.key state (put key counted_up s),
          fetch-put (config_address pda).0 key counted_up s,
          fetch-put entry_ref.key key counted_up s,
          entry_count-put entry_ref.key state (put key counted_up s),
          entry_count-put key counted_up s,
          v.counted,
        );
      }
  Step-IsValid now r s
        (governed c e entry_ref action status call authorised writable loaded placed moved) h v =
      let key = entry_ref.key in
      let state = entry (updated action status r.slot e) in
      put-IsValid now r.slot key state s h v
        (updated-IsValidEntry now r.slot key action e e.status status moved h
          (entry_placed now key s v loaded))
        (ground (
          arith,
          fetch-put (config_address pda).0 key state s,
          entry_count-put key state s,
          v.counted,
        ))
  Step-IsValid now r s (transferred c new_authority call authorised writable known) h v =
      let key = r.registry_config.key in
      let state = config (record c { governance_authority = new_authority }) in
      put-IsValid now r.slot key state s h v
        (ground (arith, config_placed now key s v authorised.loaded))
        (ground (
          arith,
          config_placed now key s v authorised.loaded,
          fetch-put (config_address pda).0 key state s,
          entry_count-put key state s,
          v.counted,
        ))

  -- The stores that the program can leave, starting with no account, by accepted instructions at
  -- slots that do not go back.
  pub data Reachable : ℕ → Store AccountState → Type 0 where
    fresh : Reachable 0 []
    after :
        {now : ℕ} {s s' : Store AccountState} {ev : RegistryEvent} (r : Request)
        → Reachable now s
        → now ≤ r.slot
        → process pda r s ≡ ok (s', ev)
        → Reachable r.slot s'

  fresh-IsValid : IsValid 0 []
  unfolding fetch entry_count
  fresh-IsValid = record { accounts = tt; counted = refl }

  -- Every store of accounts that the registry can leave, by accepted instructions at slots that do
  -- not go back, is valid: each entry stands at the address found for its program, mint and version
  -- with that bump, its texts are not blank and fit, its keys are not the default key and its slots
  -- are in order; the config stands at its address and its counter is the number of entries.
  pub Reachable-IsValid : {now : ℕ} {s : Store AccountState} → Reachable now s → IsValid now s
  Reachable-IsValid fresh = fresh-IsValid
  Reachable-IsValid (after {now = now} {s = s} r before h accepted) =
      Step-IsValid now r s (process_sound pda r s accepted) h (Reachable-IsValid before)
