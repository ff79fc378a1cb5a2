-- ===== src/Drift/Stake.antt =====
-- The reading of stakes, markets and token accounts by the Drift adapter, and the value of a stake
-- (programs/adapters/drift-insurance-fund/src/lib.rs, `read_*` and `shares_to_amount`), on the
-- accounts' data.
use sol_yield.Base.{ℕ, leb, ◌==◌, if◌then◌else◌, List}
use sol_yield.Base.Bytes.{from_le_bytes}
use sol_yield.Base.Data.{read_bytes}
use sol_yield.Base.Result.{Result, ok, ok_or, ◌>>=◌}
use sol_yield.Base.Word.{checked_add, checked_sub, checked_mul, checked_div, fit}
use sol_yield.Drift.Types.{
  DriftInsuranceFundError, invalid_protocol_account, math_overflow, if_stake_if_shares_offset,
  if_stake_last_withdraw_request_shares_offset, if_stake_last_withdraw_request_value_offset,
  spot_market_if_total_shares_offset, token_account_amount_offset,
}

unfoldable pub read_pubkey : List ℕ → ℕ → Result DriftInsuranceFundError ℕ
unfolding read_bytes
read_pubkey bytes offset = do
  word ← read_bytes 32 invalid_protocol_account bytes offset
  ok (from_le_bytes word)

unfoldable pub read_u16 : List ℕ → ℕ → Result DriftInsuranceFundError ℕ
unfolding read_bytes
read_u16 bytes offset = do
  word ← read_bytes 2 invalid_protocol_account bytes offset
  ok (from_le_bytes word)

unfoldable pub read_u64 : List ℕ → ℕ → Result DriftInsuranceFundError ℕ
unfolding read_bytes
read_u64 bytes offset = do
  word ← read_bytes 8 invalid_protocol_account bytes offset
  ok (from_le_bytes word)

unfoldable pub read_u128 : List ℕ → ℕ → Result DriftInsuranceFundError ℕ
unfolding read_bytes
read_u128 bytes offset = do
  word ← read_bytes 16 invalid_protocol_account bytes offset
  ok (from_le_bytes word)

unfoldable pub u128_to_u64 : ℕ → Result DriftInsuranceFundError ℕ
u128_to_u64 value = ok_or (fit 64 value) math_overflow

unfoldable pub shares_to_amount : ℕ → ℕ → ℕ → Result DriftInsuranceFundError ℕ
unfolding u128_to_u64
shares_to_amount shares total_shares vault_amount = if total_shares == 0 then ok 0 else (do
  product ← ok_or (checked_mul 128 shares vault_amount) math_overflow
  value ← ok_or (checked_div product total_shares) math_overflow
  u128_to_u64 value)

-- `u64::min`
abbrev pub min : ℕ → ℕ → ℕ
min a b = if leb a b then a else b

-- The value of a stake, from what is read of stake, market and vault: the active shares at the
-- fund's rate, and the requested ones at the rate, but at most at the value of the request.
unfoldable pub stake_value : ℕ → ℕ → ℕ → ℕ → ℕ → Result DriftInsuranceFundError ℕ
stake_value shares withdraw_request_shares withdraw_request_value total_shares vault_amount = do
  active_shares ← ok_or (checked_sub shares withdraw_request_shares) math_overflow
  active_value ← shares_to_amount active_shares total_shares vault_amount
  requested_value ← shares_to_amount withdraw_request_shares total_shares vault_amount
  let pending_value = min requested_value withdraw_request_value
  ok_or (checked_add 64 active_value pending_value) math_overflow

unfoldable pub read_drift_if_value :
    List ℕ → List ℕ → List ℕ → Result DriftInsuranceFundError (ℕ × ℕ)
read_drift_if_value stake_bytes spot_bytes vault_bytes = do
  shares ← read_u128 stake_bytes if_stake_if_shares_offset
  withdraw_request_shares ← read_u128 stake_bytes if_stake_last_withdraw_request_shares_offset
  withdraw_request_value ← read_u64 stake_bytes if_stake_last_withdraw_request_value_offset
  total_shares ← read_u128 spot_bytes spot_market_if_total_shares_offset
  vault_amount ← read_u64 vault_bytes token_account_amount_offset
  value ←
      stake_value shares withdraw_request_shares withdraw_request_value total_shares vault_amount
  ok (shares, value)
