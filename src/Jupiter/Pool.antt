-- ===== src/Jupiter/Pool.antt =====
-- The reading of Jupiter's accounts and of token accounts and mints
-- (programs/adapters/jupiter-lp/src/lib.rs, `read_*`), on the accounts' data. An offset is a usize
-- of 64 bits.
use sol_yield.Base.{ℕ, zero, suc, Bool, false, ◌+◌, leb, ◌==◌, ◌||◌, List, length}
use sol_yield.Base.Bytes.{from_le_bytes, bytes_eq}
use sol_yield.Base.Data.{read_bytes, checked_slice, or_panic}
use sol_yield.Base.Result.{Result, ok, require, ok_or, ◌>>=◌, ◌>>◌}
use sol_yield.Base.Word.{checked_add, and_then}
use sol_yield.Solana.Account.{Pubkey}
use sol_yield.Jupiter.Types.{
  JupiterLpError, invalid_token_account, invalid_pool, math_overflow, pool_discriminator,
  pool_name_offset, jupiter_perps_program_id, token_account_amount_offset, mint_supply_offset,
}

unfoldable pub read_pubkey : List ℕ → ℕ → Result JupiterLpError ℕ
unfolding read_bytes
read_pubkey bytes offset = do
  word ← read_bytes 32 invalid_token_account bytes offset
  ok (from_le_bytes word)

unfoldable pub read_u32 : List ℕ → ℕ → Result JupiterLpError ℕ
unfolding read_bytes
read_u32 bytes offset = do word ← read_bytes 4 invalid_pool bytes offset; ok (from_le_bytes word)

unfoldable pub read_u64 : List ℕ → ℕ → Result JupiterLpError ℕ
unfolding read_bytes
read_u64 bytes offset = do
  word ← read_bytes 8 invalid_token_account bytes offset
  ok (from_le_bytes word)

unfoldable pub read_u128 : List ℕ → ℕ → Result JupiterLpError ℕ
unfolding read_bytes
read_u128 bytes offset = do word ← read_bytes 16 invalid_pool bytes offset; ok (from_le_bytes word)

unfoldable pub read_token_amount : List ℕ → Result JupiterLpError ℕ
read_token_amount bytes = read_u64 bytes token_account_amount_offset

unfoldable pub read_mint_supply : List ℕ → Result JupiterLpError ℕ
read_mint_supply bytes = read_u64 bytes mint_supply_offset

-- The loop over a list of keys, for the rounds that are left, from an offset on: whether the
-- expected key was found, and the offset behind the list.
unfoldable pub scan_keys : List ℕ → Pubkey → ℕ → ℕ → Bool → Result JupiterLpError (Bool × ℕ)
scan_keys bytes expected zero offset found = ok (found, offset)
scan_keys bytes expected (suc rounds) offset found = do
  key ← read_pubkey bytes offset
  next ← ok_or (checked_add 64 offset 32) math_overflow
  scan_keys bytes expected rounds next (key == expected || found)

-- The assets of the pool, from its owner and its data: they stand behind its name and the list of
-- its custodies.
unfoldable pub read_pool_aum_with_custody : Pubkey → List ℕ → Pubkey → Result JupiterLpError ℕ
unfolding scan_keys
read_pool_aum_with_custody pool_owner bytes expected_custody = do
  require (pool_owner == jupiter_perps_program_id) invalid_pool
  require (leb (pool_name_offset + 4) (length bytes)) invalid_pool
  mark ← or_panic (checked_slice bytes 0 8)
  require (bytes_eq mark pool_discriminator) invalid_pool
  name_len ← read_u32 bytes pool_name_offset
  after_name ←
      ok_or (and_then (checked_add 64 pool_name_offset 4) λ offset. checked_add 64 offset name_len)
        math_overflow
  custody_count ← read_u32 bytes after_name
  offset ← ok_or (checked_add 64 after_name 4) math_overflow
  (found, end) ← scan_keys bytes expected_custody custody_count offset false
  require found invalid_pool
  read_u128 bytes end
