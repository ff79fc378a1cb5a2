-- ===== src/Registry/Spec.antt =====
-- What the registry promises, apart from its code: the diagram of an entry's status, and the
-- instructions as steps between sets of accounts with the conditions under which each is taken.
use sol_yield.Base.{ℕ, ◌+◌, ◌≡◌, ◌≢◌, true, none, some, [], ◌∷◌, ◌++◌}
use sol_yield.Base.Text.{Text}
use sol_yield.Base.Store.{Store, fetch, put}
use sol_yield.Base.Word.{IsU64}
use sol_yield.Solana.Account.{Pubkey, default_pubkey, AccountRef}
use sol_yield.Solana.Pda.{Pda}
use sol_yield.Registry.Types.{
  registry_id, registry_config_seeds, adapter_entry_seeds, RegistryConfig, AdapterEntry,
  AdapterStatus, pending, approved, paused, deprecated, max_metadata_uri_len,
}
use sol_yield.Registry.Validate.{AcceptableInputs, FitsText}
use sol_yield.Registry.Handlers.{Proposal}
use sol_yield.Registry.Program.{
  AccountState, config, entry, GovernAction, approve, pause, unpause, deprecate, update_metadata,
  initialize, propose, govern, transfer, Request,
}

-- The status diagram. `deprecated` has no way out, and new metadata keeps the status.
pub data Transition : GovernAction → AdapterStatus → AdapterStatus → Type 0 where
  approval : Transition approve pending approved
  pausing : Transition pause approved paused
  unpausing : Transition unpause paused approved
  deprecating :
      {status : AdapterStatus} → status ≢ deprecated → Transition deprecate status deprecated
  describing :
      {status : AdapterStatus} {uri : Text}
      → FitsText max_metadata_uri_len uri
      → Transition (update_metadata uri) status status

abbrev pub new_uri : GovernAction → Text → Text
new_uri (update_metadata uri) _ = uri
new_uri _ old = old

-- The entry that an action leaves: only the status, the URI and the slot of the update change.
abbrev pub updated : GovernAction → AdapterStatus → ℕ → AdapterEntry → AdapterEntry
updated action status slot e = record e {
  status = status;
  metadata_uri = new_uri action e.metadata_uri;
  updated_slot = slot;
}

-- The entry that an accepted proposal creates.
abbrev pub proposed_entry : Proposal → ℕ → ℕ → AdapterEntry
proposed_entry p bump slot = record {
  adapter_program_id = p.adapter_program_id;
  protocol_name = p.protocol_name;
  adapter_version = p.adapter_version;
  supported_mint = p.supported_mint;
  status = pending;
  metadata_uri = p.metadata_uri;
  created_slot = slot;
  updated_slot = slot;
  bump = bump;
}

module _ (pda : Pda) where
  abbrev pub entry_address : Pubkey → Pubkey → ℕ → Pubkey × ℕ
  entry_address program mint version =
      pda.find_program_address (adapter_entry_seeds program mint version) registry_id

  abbrev pub config_address : Pubkey × ℕ
  config_address = pda.find_program_address registry_config_seeds registry_id

  -- The account `key` stands at the address of the entry's seeds and bump.
  abbrev pub AtAddress : AdapterEntry → Pubkey → Type 0
  AtAddress e key =
      pda.create_program_address
        (adapter_entry_seeds e.adapter_program_id e.supported_mint e.adapter_version
          ++ ((e.bump ∷ []) ∷ []))
        registry_id
      ≡ some key

  -- The request is signed by the governance authority that the passed config `c` names.
  pub record Authorised (r : Request) (s : Store AccountState) (c : RegistryConfig) : Type 0 where
    pub signed : r.governance_authority.is_signer ≡ true
    pub loaded : fetch r.registry_config.key s ≡ some (config c)
    pub at_address :
        pda.create_program_address (registry_config_seeds ++ ((c.bump ∷ []) ∷ [])) registry_id
        ≡ some r.registry_config.key
    pub by_governance : c.governance_authority ≡ r.governance_authority.key

  -- The config that `initialize_registry` creates.
  abbrev pub initial_config : Pubkey → RegistryConfig
  initial_config authority = record {
    governance_authority = authority;
    adapter_count = 0;
    bump = config_address.1;
  }

  -- The accounts after a proposal: the counter is up by one, and the entry is created.
  abbrev pub with_proposal :
      Request → Store AccountState → RegistryConfig → AccountRef → Proposal → Store AccountState
  with_proposal r s c entry_ref p =
      put entry_ref.key
        (entry (
          proposed_entry p (entry_address p.adapter_program_id p.supported_mint p.adapter_version).1
            r.slot))
        (put r.registry_config.key (config (record c { adapter_count = c.adapter_count + 1 })) s)

  -- One accepted instruction.
  pub data Step (r : Request) (s : Store AccountState) : Store AccountState → Type 0 where
    initialized :
        r.call ≡ initialize
        → r.governance_authority.is_signer ≡ true
        → r.governance_authority.is_writable ≡ true
        → r.registry_config.is_writable ≡ true
        → fetch r.registry_config.key s ≡ none
        → config_address.0 ≡ r.registry_config.key
        → Step r s
            (put r.registry_config.key (config (initial_config r.governance_authority.key)) s)
    proposed :
        (c : RegistryConfig) (entry_ref : AccountRef) (p : Proposal)
        → r.call ≡ propose entry_ref p
        → Authorised r s c
        → r.governance_authority.is_writable ≡ true
        → r.registry_config.is_writable ≡ true
        → entry_ref.is_writable ≡ true
        → fetch entry_ref.key s ≡ none
        → (entry_address p.adapter_program_id p.supported_mint p.adapter_version).0 ≡ entry_ref.key
        → AcceptableInputs p.adapter_program_id p.protocol_name p.supported_mint p.metadata_uri
        → IsU64 (c.adapter_count + 1)
        → Step r s (with_proposal r s c entry_ref p)
    governed :
        (c : RegistryConfig) (e : AdapterEntry) (entry_ref : AccountRef) (action : GovernAction)
        (status : AdapterStatus)
        → r.call ≡ govern entry_ref action
        → Authorised r s c
        → entry_ref.is_writable ≡ true
        → fetch entry_ref.key s ≡ some (entry e)
        → AtAddress e entry_ref.key
        → Transition action e.status status
        → Step r s (put entry_ref.key (entry (updated action status r.slot e)) s)
    transferred :
        (c : RegistryConfig) (new_authority : Pubkey)
        → r.call ≡ transfer new_authority
        → Authorised r s c
        → r.registry_config.is_writable ≡ true
        → new_authority ≢ default_pubkey
        → Step r s (
            put r.registry_config.key
              (config (record c { governance_authority = new_authority }))
              s)
