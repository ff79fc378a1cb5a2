-- ===== src/Solana/Chain.antt =====
-- The chain as an adapter meets it while it runs: the accounts' owners and data, which a call of
-- another program may change. What the other programs do is a parameter.
use sol_yield.Base.{ℕ, List, Option}
use sol_yield.Solana.Account.{Pubkey, Instruction}

-- Accounts are handed over by their addresses; the seeds are those of `invoke_signed`.
pub record Chain {ℓ} (S : Type ℓ) : Type ℓ where
  pub account_owner : S → Pubkey → Pubkey
  pub account_bytes : S → Pubkey → List ℕ
  pub invoke : Instruction → List Pubkey → S → Option S
  pub invoke_signed : Instruction → List Pubkey → List (List ℕ) → S → Option S
