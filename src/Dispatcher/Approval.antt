-- ===== src/Dispatcher/Approval.antt =====
-- The registry and the dispatcher together: which of the entries that the registry can leave
-- the dispatcher routes by.
use sol_yield.Base.{ℕ, ◌≤◌, ◌≡◌, ◌↔◌, ◌∙◌, refl, sym, some, arith}
use sol_yield.Base.Result.{ok, err, custom}
use sol_yield.Base.Store.{Store, fetch, fetch-put}
use sol_yield.Solana.Account.{Pubkey, AccountRef}
use sol_yield.Solana.Pda.{Pda}
use sol_yield.Registry.Types.{
  AdapterEntry, AdapterStatus, approved, paused, deprecated, RegistryEvent,
}
use sol_yield.Registry.Program.{AccountState, entry, GovernAction, pause, govern, Request, process}
use sol_yield.Registry.Spec.{
  Step, Transition, updated, approval, pausing, unpausing, deprecating, describing, governed,
  initialized, proposed, transferred,
}
use sol_yield.Registry.Refines.{process_sound}
use sol_yield.Registry.Invariant.{Reachable, after, Reachable-IsValid, entry_placed}
use sol_yield.Registry.Lifecycle.{Run, Run-Lasts, rank}
use sol_yield.Dispatcher.Types.{adapter_paused, adapter_deprecated}
use sol_yield.Dispatcher.Validate.{
  validate_adapter_entry, validate_adapter_entry_iff, validate_adapter_entry_status,
}

-- The one edge of a pause ends in `paused`.
goal_of_pause :
    (action : GovernAction) (source goal : AdapterStatus)
    → Transition action source goal
    → action ≡ pause
    → goal ≡ paused
goal_of_pause action source goal approval e = cc
goal_of_pause action source goal pausing e = refl
goal_of_pause action source goal unpausing e = cc
goal_of_pause action source goal (deprecating live) e = cc
goal_of_pause action source goal (describing fits) e = cc

module _ (pda : Pda) where
  -- For an entry in a store that the registry can leave, the dispatcher's check passes exactly when
  -- the entry is approved and names the program and the mint of the call.
  pub registered_routable_iff :
      {now : ℕ} {s : Store AccountState} (key : Pubkey) (e : AdapterEntry) (program mint : Pubkey)
      → Reachable pda now s
      → fetch key s ≡ some (entry e)
      → (validate_adapter_entry pda key e program mint ≡ ok tt)
        ↔ ((e.status ≡ approved) × (program ≡ e.adapter_program_id) × (mint ≡ e.supported_mint))
  registered_routable_iff {now} {s} key e program mint reached found =
      let placed = (entry_placed pda now key s (Reachable-IsValid pda reached) found).canonical in
      let routable = validate_adapter_entry_iff pda key e program mint in
      (
        λ h. let r = routable.0 h in (r.is_approved, r.same_program, r.same_mint),
        λ (status, same_program, same_mint). routable.1 (record {
          canonical = placed;
          is_approved = status;
          same_program = same_program;
          same_mint = same_mint;
        }),
      )

  only_deprecated : (status : AdapterStatus) → 2 ≤ rank status → status ≡ deprecated
  only_deprecated status h = ground arith

  -- Once an entry is deprecated, after any further accepted instructions it is still at its address
  -- and the dispatcher refuses it for every program and mint with AdapterDeprecated.
  pub deprecated_never_routed :
      {now : ℕ} {s s' : Store AccountState} (key : Pubkey) (e : AdapterEntry)
      (program mint : Pubkey)
      → Run pda s s'
      → Reachable pda now s'
      → fetch key s ≡ some (entry e)
      → e.status ≡ deprecated
      → (e' : AdapterEntry) × (fetch key s' ≡ some (entry e'))
        × (validate_adapter_entry pda key e' program mint ≡ err (custom adapter_deprecated))
  deprecated_never_routed {now} {s} {s'} key e program mint run reached found gone =
      let (e', there, kept, further) = Run-Lasts pda key e run found in
      let still : e'.status ≡ deprecated =
        only_deprecated e'.status (ground (arith, further, gone)) in
      let placed = (entry_placed pda now key s' (Reachable-IsValid pda reached) there).canonical in
      (
        e',
        there,
        validate_adapter_entry_status pda key e' program mint placed (ground (arith, still))
            ∙ ground (arith, still),
      )

  -- What an accepted pause leaves at the entry's address.
  pause-status :
      (r : Request) (s : Store AccountState) {s' : Store AccountState} (entry_ref : AccountRef)
      → Step pda r s s'
      → r.call ≡ govern entry_ref pause
      → (e : AdapterEntry) × (fetch entry_ref.key s' ≡ some (entry e)) × (e.status ≡ paused)
  pause-status r s entry_ref (initialized called _ _ _ _ _) call =
      absurd (ground (arith, called, call))
  pause-status r s entry_ref (proposed _ _ _ called _ _ _ _ _ _ _ _) call =
      absurd (ground (arith, called, call))
  pause-status r s entry_ref (governed c old passed action status called a w loaded placed moved)
        call =
      let same_call : govern passed action ≡ govern entry_ref pause = sym called ∙ call in
      (
        updated action status r.slot old,
        ground (
          arith,
          same_call,
          fetch-put entry_ref.key passed.key (entry (updated action status r.slot old)) s,
        ),
        goal_of_pause action old.status status moved (cc same_call),
      )
  pause-status r s entry_ref (transferred _ _ called _ _ _) call =
      absurd (ground (arith, called, call))

  -- After an accepted pause the entry is at its address and the dispatcher refuses it for every
  -- program and mint with AdapterPaused.
  pub pause-blocks_routing :
      {now : ℕ} {s s' : Store AccountState} {ev : RegistryEvent} (r : Request)
      (entry_ref : AccountRef) (program mint : Pubkey)
      → Reachable pda now s
      → now ≤ r.slot
      → r.call ≡ govern entry_ref pause
      → process pda r s ≡ ok (s', ev)
      → (e : AdapterEntry) × (fetch entry_ref.key s' ≡ some (entry e))
        × (validate_adapter_entry pda entry_ref.key e program mint ≡ err (custom adapter_paused))
  pause-blocks_routing {s = s} {s' = s'} r entry_ref program mint reached h call accepted =
      let (e, there, status) = pause-status r s entry_ref (process_sound pda r s accepted) call in
      let reached' = after r reached h accepted in
      let placed =
        (entry_placed pda r.slot entry_ref.key s' (Reachable-IsValid pda reached')
          there).canonical in
      (
        e,
        there,
        validate_adapter_entry_status pda entry_ref.key e program mint placed
              (ground (arith, status))
            ∙ ground (arith, status),
      )
