-- ===== src/Solana/Example.antt =====
-- A concrete derivation of addresses that meets the law of `Pda`: the number of the seeds'
-- bytes modulo a prime below 2 ^ 256, with 255 as every bump.
use sol_yield.Base.{ℕ, ◌+◌, ◌-◌, ◌%◌, ◌^◌, List, [], ◌∷◌, ◌++◌, flatten, some, refl}
use sol_yield.Base.Bytes.{from_le_bytes}
use sol_yield.Solana.Account.{Pubkey}
use sol_yield.Solana.Pda.{Pda}

unfoldable pub digest : List (List ℕ) → Pubkey → Pubkey
unfolding from_le_bytes flatten
digest seeds program = (from_le_bytes (flatten seeds) + program) % (2 ^ 256 - 189)

abbrev pub example_pda : Pda
example_pda = record {
  find_program_address = λ seeds program. (digest (seeds ++ ((255 ∷ []) ∷ [])) program, 255);
  create_program_address = λ seeds program. some (digest seeds program);
  create-find = λ seeds program. refl;
}
