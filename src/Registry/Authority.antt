-- ===== src/Registry/Authority.antt =====
-- Who may change the registry, and what one instruction can reach.
use sol_yield.Base.{ℕ, ◌+◌, ◌≤◌, ◌≡◌, ◌≢◌, sym, ◌∙◌, ap, true, some, arith}
use sol_yield.Base.Result.{ok}
use sol_yield.Base.Store.{Store, fetch, put, fetch-put}
use sol_yield.Solana.Account.{Pubkey, AccountRef}
use sol_yield.Solana.Pda.{Pda}
use sol_yield.Registry.Types.{AdapterEntry, RegistryConfig, RegistryEvent}
use sol_yield.Registry.Handlers.{Proposal}
use sol_yield.Registry.Program.{
  AccountState, config, entry, Call, initialize, propose, govern, transfer, Request, process,
}
use sol_yield.Registry.Spec.{
  Step, initialized, proposed, governed, transferred, config_address, entry_address, Authorised,
  proposed_entry, updated,
}
use sol_yield.Registry.Refines.{process_sound}
use sol_yield.Registry.Invariant.{IsValid, config_placed, entry_placed, Step-IsValid}

-- The signer of a request is this authority.
abbrev pub SignedBy : Pubkey → Request → Type 0
SignedBy authority r =
    (r.governance_authority.is_signer ≡ true) × (r.governance_authority.key ≡ authority)

-- How a call may change the config; an `initialize` that finds one is not accepted.
abbrev pub ConfigFollows : Call → RegistryConfig → RegistryConfig → Type 0
ConfigFollows initialize c c' = ⊥
ConfigFollows (propose _ _) c c' = c' ≡ record c { adapter_count = c.adapter_count + 1 }
ConfigFollows (govern _ _) c c' = c' ≡ c
ConfigFollows (transfer new_authority) c c' = c' ≡ record c { governance_authority = new_authority }

module _ (pda : Pda) where
  -- In a valid store there is one config, at its address.
  config_at :
      (now : ℕ) (r : Request) (s : Store AccountState) (c : RegistryConfig)
      → IsValid pda now s
      → Authorised pda r s c
      → (config_address pda).0 ≡ r.registry_config.key
  config_at now r s c v a =
      ap (λ (x : Pubkey × ℕ). x.0)
        (config_placed pda now r.registry_config.key s v a.loaded).canonical

  Authorised-SignedBy :
      (now : ℕ) (r : Request) (s : Store AccountState) (c c' : RegistryConfig)
      → IsValid pda now s
      → fetch (config_address pda).0 s ≡ some (config c)
      → Authorised pda r s c'
      → SignedBy c.governance_authority r
  Authorised-SignedBy now r s c c' v present a =
      let placed = config_at now r s c' v a in
      ground (arith, placed, a.loaded, a.signed, a.by_governance)

  Step-SignedBy :
      (now : ℕ) (r : Request) (s : Store AccountState) {s' : Store AccountState}
      (c : RegistryConfig)
      → Step pda r s s'
      → IsValid pda now s
      → fetch (config_address pda).0 s ≡ some (config c)
      → SignedBy c.governance_authority r
  Step-SignedBy now r s c (initialized call signed payer writable absent placed) v present =
      ground (arith, placed, absent, present)
  Step-SignedBy now r s c
        (proposed c' entry_ref p call authorised payer cw writable absent placed good room) v
        present =
      Authorised-SignedBy now r s c c' v present authorised
  Step-SignedBy now r s c
        (governed c' e entry_ref action status call authorised writable loaded placed moved) v
        present =
      Authorised-SignedBy now r s c c' v present authorised
  Step-SignedBy now r s c (transferred c' new_authority call authorised writable known) v present =
      Authorised-SignedBy now r s c c' v present authorised

  -- In a valid store with a config at its address, an accepted instruction is signed by the
  -- governance authority that the config names.
  pub process-SignedBy :
      (now : ℕ) (r : Request) (s : Store AccountState) (c : RegistryConfig)
      {s' : Store AccountState} {ev : RegistryEvent}
      → IsValid pda now s
      → fetch (config_address pda).0 s ≡ some (config c)
      → process pda r s ≡ ok (s', ev)
      → SignedBy c.governance_authority r
  process-SignedBy now r s c v present accepted =
      Step-SignedBy now r s c (process_sound pda r s accepted) v present

  -- After a transfer the config names the new authority.
  transfer-config :
      (now : ℕ) (r : Request) (s : Store AccountState) {s' : Store AccountState}
      (new_authority : Pubkey)
      → Step pda r s s'
      → r.call ≡ transfer new_authority
      → IsValid pda now s
      → (c : RegistryConfig) × (fetch (config_address pda).0 s' ≡ some (config c))
        × (c.governance_authority ≡ new_authority)
  transfer-config now r s new_authority (initialized call signed payer writable absent placed) e v =
      absurd (ground (arith, call, e))
  transfer-config now r s new_authority
        (proposed c' entry_ref p call authorised payer cw writable absent placed good room) e v =
      absurd (ground (arith, call, e))
  transfer-config now r s new_authority
        (governed c' x entry_ref action status call authorised writable loaded placed moved) e v =
      absurd (ground (arith, call, e))
  transfer-config now r s new_authority (transferred c named call authorised writable known) e v =
      let placed = config_at now r s c v authorised in
      (
        record c { governance_authority = named },
        ground (
          arith,
          placed,
          fetch-put (config_address pda).0 r.registry_config.key
              (config (record c { governance_authority = named })) s,
        ),
        ground (arith, call, e),
      )

  -- After an accepted transfer of governance in a valid store, no instruction whose signer is not
  -- the new authority is accepted.
  pub transfer-locks_out :
      (now : ℕ) (r r' : Request) (s : Store AccountState) {s' s'' : Store AccountState}
      {ev ev' : RegistryEvent} (new_authority : Pubkey)
      → IsValid pda now s
      → now ≤ r.slot
      → r.call ≡ transfer new_authority
      → process pda r s ≡ ok (s', ev)
      → r'.governance_authority.key ≢ new_authority
      → process pda r' s' ≢ ok (s'', ev')
  transfer-locks_out now r r' s {s'} new_authority v h call accepted other accepted' =
      let step = process_sound pda r s accepted in
      let (c, present, named) = transfer-config now r s new_authority step call v in
      let signed =
        process-SignedBy r.slot r' s' c (Step-IsValid pda now r s step h v) present accepted' in
      other (signed.1 ∙ named)

  -- What one step does to the config, which no other account stands in the place of.
  Step-ConfigFollows :
      (now : ℕ) (r : Request) (s : Store AccountState) {s' : Store AccountState}
      (c : RegistryConfig)
      → Step pda r s s'
      → IsValid pda now s
      → fetch (config_address pda).0 s ≡ some (config c)
      → (c' : RegistryConfig) × (fetch (config_address pda).0 s' ≡ some (config c'))
        × ConfigFollows r.call c c'
  Step-ConfigFollows now r s c (initialized call signed payer writable absent placed) v present =
      absurd (ground (arith, placed, absent, present))
  Step-ConfigFollows now r s c
        (proposed c0 entry_ref p call authorised payer cw writable absent placed good room) v
        present =
      let counted_up = config (record c0 { adapter_count = c0.adapter_count + 1 }) in
      let address = entry_address pda p.adapter_program_id p.supported_mint p.adapter_version in
      let at = config_at now r s c0 v authorised in
      (
        record c0 { adapter_count = c0.adapter_count + 1 },
        ground (
          arith,
          at,
          absent,
          present,
          fetch-put (config_address pda).0 entry_ref.key (entry (proposed_entry p address.1 r.slot))
              (put r.registry_config.key counted_up s),
          fetch-put (config_address pda).0 r.registry_config.key counted_up s,
        ),
        ground (arith, call, at, present, authorised.loaded),
      )
  Step-ConfigFollows now r s c
        (governed c0 e entry_ref action status call authorised writable loaded placed moved) v
        present =
      (
        c,
        ground (
          arith,
          present,
          loaded,
          fetch-put (config_address pda).0 entry_ref.key (entry (updated action status r.slot e)) s,
        ),
        ground (arith, call),
      )
  Step-ConfigFollows now r s c (transferred c0 new_authority call authorised writable known) v
        present =
      let handed_over = record c0 { governance_authority = new_authority } in
      let at = config_at now r s c0 v authorised in
      (
        handed_over,
        ground (
          arith,
          at,
          fetch-put (config_address pda).0 r.registry_config.key (config handed_over) s,
        ),
        ground (arith, call, at, present, authorised.loaded),
      )

  -- In a valid store with a config at its address, an accepted instruction leaves a config there:
  -- after a proposal it is the same but for a counter that is up by one, after a transfer the same
  -- but for the authority, which is the named one, and after any other instruction the same.
  pub process-ConfigFollows :
      (now : ℕ) (r : Request) (s : Store AccountState) (c : RegistryConfig)
      {s' : Store AccountState} {ev : RegistryEvent}
      → IsValid pda now s
      → fetch (config_address pda).0 s ≡ some (config c)
      → process pda r s ≡ ok (s', ev)
      → (c' : RegistryConfig) × (fetch (config_address pda).0 s' ≡ some (config c'))
        × ConfigFollows r.call c c'
  process-ConfigFollows now r s c v present accepted =
      Step-ConfigFollows now r s c (process_sound pda r s accepted) v present

  Step-no_duplicate :
      (now : ℕ) (r : Request) (s : Store AccountState) {s' : Store AccountState} (key : Pubkey)
      (e : AdapterEntry) (entry_ref : AccountRef) (p : Proposal)
      → Step pda r s s'
      → IsValid pda now s
      → fetch key s ≡ some (entry e)
      → r.call ≡ propose entry_ref p
      → ¬ (
          (p.adapter_program_id ≡ e.adapter_program_id)
          × (p.supported_mint ≡ e.supported_mint)
          × (p.adapter_version ≡ e.adapter_version))
  Step-no_duplicate now r s key e entry_ref p (initialized called _ _ _ _ _) v found call same =
      ground (arith, called, call)
  Step-no_duplicate now r s key e entry_ref p
        (proposed c entry_ref' p' called authorised payer cw writable absent placed good room) v
        found call same =
      let canonical = (entry_placed pda now key s v found).canonical in
      let same_call : propose entry_ref' p' ≡ propose entry_ref p = sym called ∙ call in
      let same_address : entry_address pda p'.adapter_program_id p'.supported_mint
            p'.adapter_version
          ≡ (key, e.bump) =
        cc (same_call, same.0, same.1, same.2, canonical) in
      ground (arith, placed, absent, found, ap (λ (x : Pubkey × ℕ). x.0) same_address)
  Step-no_duplicate now r s key e entry_ref p (governed _ _ _ _ _ called _ _ _ _ _) v found call
        same =
      ground (arith, called, call)
  Step-no_duplicate now r s key e entry_ref p (transferred _ _ called _ _ _) v found call same =
      ground (arith, called, call)

  -- In a valid store that has an entry, no proposal of its program, mint and version is accepted.
  pub propose-no_duplicate :
      (now : ℕ) (r : Request) (s : Store AccountState) {s' : Store AccountState}
      {ev : RegistryEvent} (key : Pubkey) (e : AdapterEntry) (entry_ref : AccountRef) (p : Proposal)
      → IsValid pda now s
      → fetch key s ≡ some (entry e)
      → r.call ≡ propose entry_ref p
      → (p.adapter_program_id ≡ e.adapter_program_id)
        × (p.supported_mint ≡ e.supported_mint)
        × (p.adapter_version ≡ e.adapter_version)
      → process pda r s ≢ ok (s', ev)
  propose-no_duplicate now r s key e entry_ref p v found call same accepted =
      Step-no_duplicate now r s key e entry_ref p (process_sound pda r s accepted) v found call same
