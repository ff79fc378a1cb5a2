-- ===== src/Marginfi/Fixed.antt =====
-- The words that the MarginFi adapter reads and its I80F48 arithmetic
-- (programs/adapters/marginfi-usdc/src/lib.rs, `read_*` and `fixed_*`). A fixed-point number is
-- its raw value, the number of 2^-48ths.
use sol_yield.Base.{
  ℕ, zero, suc, ◌+◌, ◌*◌, ◌/◌, ◌%◌, leb, ◌==◌, not, ◌&&◌, if◌then◌else◌, List, length,
}
use sol_yield.Base.Bytes.{from_le_bytes}
use sol_yield.Base.Int.{i128_from_le_bytes, is_nonnegative, as_u128}
use sol_yield.Base.Data.{read_bytes, index}
use sol_yield.Base.Result.{Result, ok, require, ok_or, ◌>>=◌, ◌>>◌}
use sol_yield.Base.Word.{checked_add, checked_mul, and_then, fit}
use sol_yield.Solana.Account.{Pubkey}
use sol_yield.Marginfi.Types.{
  MarginfiUsdcError, invalid_fixed_point_value, invalid_protocol_account, math_overflow, i80f48_one,
  marginfi_account_balances_offset, marginfi_balance_size, marginfi_balance_active_offset,
  marginfi_balance_bank_offset, marginfi_balance_asset_shares_offset, marginfi_balance_count,
  bank_asset_share_value_offset,
}

unfoldable pub read_pubkey : List ℕ → ℕ → Result MarginfiUsdcError ℕ
unfolding read_bytes
read_pubkey bytes offset = do
  word ← read_bytes 32 invalid_protocol_account bytes offset
  ok (from_le_bytes word)

unfoldable pub read_i80f48_raw : List ℕ → ℕ → Result MarginfiUsdcError ℕ
unfolding read_bytes
read_i80f48_raw bytes offset = do
  word ← read_bytes 16 invalid_protocol_account bytes offset
  let value = i128_from_le_bytes word
  require (is_nonnegative value) invalid_fixed_point_value
  ok (as_u128 value)

unfoldable pub fixed_floor_to_u64 : ℕ → Result MarginfiUsdcError ℕ
fixed_floor_to_u64 raw = ok_or (fit 64 (raw / i80f48_one)) invalid_fixed_point_value

-- The sums of the cross products and of the parts, with their checks.
abbrev pub cross_sum : ℕ → ℕ → ℕ → ℕ → Result MarginfiUsdcError ℕ
cross_sum left_whole left_frac right_whole right_frac =
    ok_or
      (and_then (checked_mul 128 left_whole right_frac) λ value.
        and_then (checked_mul 128 right_whole left_frac) λ other. checked_add 128 value other)
      math_overflow

unfoldable pub fixed_mul_floor_to_u64 : ℕ → ℕ → Result MarginfiUsdcError ℕ
fixed_mul_floor_to_u64 left_raw right_raw = do
  let left_whole = left_raw / i80f48_one
  let left_frac = left_raw % i80f48_one
  let right_whole = right_raw / i80f48_one
  let right_frac = right_raw % i80f48_one
  whole ← ok_or (checked_mul 128 left_whole right_whole) math_overflow
  cross ← cross_sum left_whole left_frac right_whole right_frac
  frac ← ok_or (checked_mul 128 left_frac right_frac) math_overflow
  value ←
      ok_or
        (and_then (checked_add 128 whole (cross / i80f48_one))
          λ sum. checked_add 128 sum (frac / i80f48_one / i80f48_one))
        math_overflow
  ok_or (fit 64 value) invalid_fixed_point_value

-- The loop over the balances, from an index on, for the rounds that are left: the shares of the
-- first active balance in the bank.
unfoldable pub scan_balances : List ℕ → Pubkey → ℕ → ℕ → Result MarginfiUsdcError ℕ
scan_balances bytes bank zero i = ok 0
scan_balances bytes bank (suc rounds) i =
    let rest = scan_balances bytes bank rounds (i + 1) in
    let offset = marginfi_account_balances_offset + i * marginfi_balance_size in
    do
      require (leb (offset + marginfi_balance_size) (length bytes)) invalid_protocol_account
      flag ← index bytes (offset + marginfi_balance_active_offset)
      balance_bank ← read_pubkey bytes (offset + marginfi_balance_bank_offset)
      if not (flag == 0) && balance_bank == bank
          then read_i80f48_raw bytes (offset + marginfi_balance_asset_shares_offset)
          else rest

unfoldable pub read_asset_shares_for_bank : List ℕ → Pubkey → Result MarginfiUsdcError ℕ
unfolding scan_balances
read_asset_shares_for_bank account_bytes bank =
    scan_balances account_bytes bank marginfi_balance_count 0

-- The shares and their value, from the data of the account and of the bank.
unfoldable pub read_marginfi_position : List ℕ → List ℕ → Pubkey → Result MarginfiUsdcError (ℕ × ℕ)
unfolding read_asset_shares_for_bank read_i80f48_raw fixed_floor_to_u64 fixed_mul_floor_to_u64
read_marginfi_position account_bytes bank_bytes bank = do
  asset_shares_raw ← read_asset_shares_for_bank account_bytes bank
  asset_share_value_raw ← read_i80f48_raw bank_bytes bank_asset_share_value_offset
  shares ← fixed_floor_to_u64 asset_shares_raw
  value ← fixed_mul_floor_to_u64 asset_shares_raw asset_share_value_raw
  ok (shares, value)
