-- ===== src/Registry/Lifecycle.antt =====
-- The life of an entry under the registry's instructions: what it is stays, its status moves
-- along the diagram, and other accounts are left alone.
use sol_yield.Base.{ℕ, ◌+◌, ◌≤◌, ◌≡◌, ◌⊎◌, inl, inr, refl, some, arith, Bool-cases, ◌==◌, eq_of_==}
use mathlib.Core.Path.{subst}
use sol_yield.Base.Result.{ok}
use sol_yield.Base.Store.{Store, fetch, put, fetch-put}
use sol_yield.Solana.Account.{Pubkey, AccountRef}
use sol_yield.Solana.Pda.{Pda}
use sol_yield.Registry.Types.{
  AdapterEntry, AdapterStatus, pending, approved, paused, deprecated, RegistryEvent,
}
use sol_yield.Registry.Program.{AccountState, config, entry, GovernAction, govern, Request, process}
use sol_yield.Registry.Spec.{
  Transition, approval, pausing, unpausing, deprecating, describing, updated, Step, initialized,
  proposed, governed, transferred, initial_config, proposed_entry, entry_address,
}
use sol_yield.Registry.Refines.{process_sound}

-- What never changes in an entry.
pub record SameIdentity (e e' : AdapterEntry) : Type 0 where
  pub same_program : e'.adapter_program_id ≡ e.adapter_program_id
  pub same_name : e'.protocol_name ≡ e.protocol_name
  pub same_version : e'.adapter_version ≡ e.adapter_version
  pub same_mint : e'.supported_mint ≡ e.supported_mint
  pub same_creation : e'.created_slot ≡ e.created_slot
  pub same_bump : e'.bump ≡ e.bump

-- How far a status is along the diagram; `approved` and `paused` alternate.
abbrev pub rank : AdapterStatus → ℕ
rank pending = 0
rank approved = 1
rank paused = 1
rank deprecated = 2

pub Transition-rank :
    (action : GovernAction) (status status' : AdapterStatus)
    → Transition action status status'
    → rank status ≤ rank status'
Transition-rank action status status' approval = omega arith
Transition-rank action status status' pausing = omega arith
Transition-rank action status status' unpausing = omega arith
Transition-rank action status status' (deprecating live) = ground arith
Transition-rank action status status' (describing fits) = omega arith

-- What a request did to the entry at `key`: nothing, or it is a governing action on this very
-- entry, which moved the status along the diagram and recorded the slot.
abbrev pub Moved : Request → Pubkey → AdapterEntry → AdapterEntry → Type 0
Moved r key e e' =
    (e' ≡ e)
    ⊎ ((entry_ref : AccountRef) × (action : GovernAction) × (r.call ≡ govern entry_ref action)
        × (entry_ref.key ≡ key)
        × (e' ≡ updated action e'.status r.slot e)
        × Transition action e.status e'.status)

-- The entry that stands at an address after a step, with how it came from the one before.
abbrev pub Follows : Request → Pubkey → AdapterEntry → Store AccountState → Type 0
Follows r key e s' =
    (e' : AdapterEntry) × (fetch key s' ≡ some (entry e')) × SameIdentity e e' × Moved r key e e'

same : (e : AdapterEntry) → SameIdentity e e
same e = ground arith

-- The entry at `key` after a run: the same adapter, no earlier in the diagram.
abbrev pub Lasts : Pubkey → AdapterEntry → Store AccountState → Type 0
Lasts key e s' =
    (e' : AdapterEntry) × (fetch key s' ≡ some (entry e'))
    × SameIdentity e e'
    × (rank e.status ≤ rank e'.status)

Moved-rank :
    (r : Request) (key : Pubkey) (e e' : AdapterEntry)
    → Moved r key e e'
    → rank e.status ≤ rank e'.status
Moved-rank r key e e' (inl unchanged) = ground arith
Moved-rank r key e e' (inr (entry_ref, action, call, at_key, written, moved)) =
    Transition-rank action e.status e'.status moved

Follows-Lasts :
    (r : Request) (key : Pubkey) (e middle : AdapterEntry) (s : Store AccountState)
    → SameIdentity e middle
    → rank e.status ≤ rank middle.status
    → Follows r key middle s
    → Lasts key e s
Follows-Lasts r key e middle s kept further (e', found, next, moved) =
    (e', found, ground arith, omega (arith, further, Moved-rank r key middle e' moved))

module _ (pda : Pda) where
  pub Step-Follows :
      (r : Request) (s : Store AccountState) {s' : Store AccountState} (key : Pubkey)
      (e : AdapterEntry)
      → Step pda r s s'
      → fetch key s ≡ some (entry e)
      → Follows r key e s'
  Step-Follows r s key e (initialized call signed payer writable absent placed) found = (
    e,
    ground (
      arith,
      fetch-put key r.registry_config.key (config (initial_config pda r.governance_authority.key))
          s,
    ),
    same e,
    inl refl,
  )
  Step-Follows r s key e
        (proposed c entry_ref p call authorised payer cw writable absent placed good room) found =
      let counted_up = config (record c { adapter_count = c.adapter_count + 1 }) in
      let address = entry_address pda p.adapter_program_id p.supported_mint p.adapter_version in
      (
        e,
        ground (
          arith,
          authorised.loaded,
          fetch-put key entry_ref.key (entry (proposed_entry p address.1 r.slot))
              (put r.registry_config.key counted_up s),
          fetch-put key r.registry_config.key counted_up s,
        ),
        same e,
        inl refl,
      )
  Step-Follows r s key e
        (governed c old entry_ref action status call authorised writable loaded placed moved)
        found =
      let written = fetch-put key entry_ref.key (entry (updated action status r.slot old)) s in
      elim (Bool-cases (entry_ref.key == key)) [
        | inl here ↦
            let same_key : entry_ref.key ≡ key = eq_of_== _ _ here in
            let same_entry : old ≡ e = ground (arith, loaded, found, same_key) in
            let e' = updated action status r.slot e in
            (
              e',
              ground (arith, written, same_entry),
              ground arith,
              inr (
                entry_ref,
                action,
                call,
                same_key,
                refl,
                subst (λ x. Transition action x.status status) same_entry moved,
              ),
            )
        | inr elsewhere ↦ (e, ground (arith, written), same e, inl refl)
      ]
  Step-Follows r s key e (transferred c new_authority call authorised writable known) found = (
    e,
    ground (
      arith,
      authorised.loaded,
      fetch-put key r.registry_config.key
          (config (record c { governance_authority = new_authority })) s,
    ),
    same e,
    inl refl,
  )

  -- After an accepted instruction an entry is unchanged, or the instruction was a governing action
  -- on this entry that moved its status along the diagram and changed only the status, the URI and
  -- the slot of the update.
  pub process-Follows :
      (r : Request) (s : Store AccountState) {s' : Store AccountState} {ev : RegistryEvent}
      (key : Pubkey) (e : AdapterEntry)
      → process pda r s ≡ ok (s', ev)
      → fetch key s ≡ some (entry e)
      → Follows r key e s'
  process-Follows r s key e accepted = Step-Follows r s key e (process_sound pda r s accepted)

  -- Accepted instructions, one after the other.
  pub data Run (s : Store AccountState) : Store AccountState → Type 0 where
    here : Run s s
    then :
        {t u : Store AccountState} {ev : RegistryEvent} (r : Request)
        → Run s t
        → process pda r t ≡ ok (u, ev)
        → Run s u

  -- Over any run of accepted instructions an entry stays at its address with its program, name,
  -- version, mint, creation slot and bump, and its status never goes back in the order pending,
  -- approved or paused, deprecated.
  pub Run-Lasts :
      (key : Pubkey) (e : AdapterEntry) {s s' : Store AccountState}
      → Run s s'
      → fetch key s ≡ some (entry e)
      → Lasts key e s'
  Run-Lasts key e here found = (e, found, same e, omega arith)
  Run-Lasts key e (then {t = t} r before accepted) found =
      let (middle, there, kept, further) = Run-Lasts key e before found in
      Follows-Lasts r key e middle _ kept further (process-Follows r t key middle accepted there)
