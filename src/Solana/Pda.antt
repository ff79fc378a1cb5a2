-- ===== src/Solana/Pda.antt =====
-- Program-derived addresses. How an address is found is code of the Solana SDK, so it is a
-- parameter; what the programs rely on is its documented law, that the address found is the one
-- created again from the same seeds and the bump.
use sol_yield.Base.{ℕ, ◌≡◌, Bool, false, Option, none, some, List, [], ◌∷◌, ◌++◌, ◌==◌}
use sol_yield.Base.Result.{
  constraint_seeds, account_not_signer, account_not_writable, Result, constrain,
}
use sol_yield.Solana.Account.{Pubkey, Signer}

pub record Pda : Type 0 where
  pub find_program_address : List (List ℕ) → Pubkey → Pubkey × ℕ
  pub create_program_address : List (List ℕ) → Pubkey → Option Pubkey
  pub create-find :
      (seeds : List (List ℕ)) (program : Pubkey)
      → create_program_address
          (seeds ++ (((find_program_address seeds program).1 ∷ []) ∷ []))
          program
        ≡ some (find_program_address seeds program).0

abbrev is_address : Option Pubkey → Pubkey → Bool
is_address (some address) key = address == key
is_address none key = false

module _ {ℓ} {E : Type ℓ} where
  -- `seeds = [...], bump = bump`: the account stands at the address of the seeds and this bump.
  unfoldable pub constrain_seeds : Pda → List (List ℕ) → ℕ → Pubkey → Pubkey → Result E (Unit {0})
  constrain_seeds pda seeds bump program key =
      constrain (is_address (pda.create_program_address (seeds ++ ((bump ∷ []) ∷ [])) program) key)
        constraint_seeds

  -- `init, seeds = [...], bump`: the account stands at the address found for the seeds.
  unfoldable pub constrain_init : Pda → List (List ℕ) → Pubkey → Pubkey → Result E (Unit {0})
  constrain_init pda seeds program key =
      constrain ((pda.find_program_address seeds program).0 == key) constraint_seeds

  -- `mut`
  abbrev pub constrain_mut : Bool → Result E (Unit {0})
  constrain_mut writable = constrain writable account_not_writable

  -- `Signer<'info>`
  abbrev pub constrain_signer : Signer → Result E (Unit {0})
  constrain_signer s = constrain s.is_signer account_not_signer
