-- ===== src/Kamino/Reserve.antt =====
-- The reading of a Kamino reserve and of token accounts (programs/adapters/kamino-usdc/src/lib.rs,
-- `read_*`), on the accounts' data.
use sol_yield.Base.{ℕ, ◌+◌, leb, List, length}
use sol_yield.Base.Bytes.{from_le_bytes, bytes_eq}
use sol_yield.Base.Data.{read_bytes, checked_slice, or_panic}
use sol_yield.Base.Result.{Result, ok, require, ◌>>=◌, ◌>>◌}
use sol_yield.Kamino.Types.{
  KaminoUsdcError, invalid_protocol_account, invalid_reserve, KaminoReserveFields,
  reserve_discriminator, reserve_lending_market_offset, reserve_liquidity_mint_offset,
  reserve_liquidity_supply_offset, reserve_liquidity_total_available_offset,
  reserve_liquidity_borrowed_amount_sf_offset,
  reserve_liquidity_accumulated_protocol_fees_sf_offset,
  reserve_liquidity_accumulated_referrer_fees_sf_offset,
  reserve_liquidity_pending_referrer_fees_sf_offset, reserve_liquidity_token_program_offset,
  reserve_collateral_mint_offset, reserve_collateral_mint_total_supply_offset,
}

unfoldable pub read_pubkey : List ℕ → ℕ → Result KaminoUsdcError ℕ
unfolding read_bytes
read_pubkey bytes offset = do
  word ← read_bytes 32 invalid_protocol_account bytes offset
  ok (from_le_bytes word)

unfoldable pub read_u64 : List ℕ → ℕ → Result KaminoUsdcError ℕ
unfolding read_bytes
read_u64 bytes offset = do
  word ← read_bytes 8 invalid_protocol_account bytes offset
  ok (from_le_bytes word)

unfoldable pub read_u128 : List ℕ → ℕ → Result KaminoUsdcError ℕ
unfolding read_bytes
read_u128 bytes offset = do
  word ← read_bytes 16 invalid_protocol_account bytes offset
  ok (from_le_bytes word)

unfoldable pub read_reserve_fields : List ℕ → Result KaminoUsdcError KaminoReserveFields
read_reserve_fields bytes = do
  require (leb (reserve_collateral_mint_total_supply_offset + 8) (length bytes))
      invalid_protocol_account
  mark ← or_panic (checked_slice bytes 0 8)
  require (bytes_eq mark reserve_discriminator) invalid_reserve
  lending_market ← read_pubkey bytes reserve_lending_market_offset
  liquidity_mint ← read_pubkey bytes reserve_liquidity_mint_offset
  liquidity_supply ← read_pubkey bytes reserve_liquidity_supply_offset
  liquidity_token_program ← read_pubkey bytes reserve_liquidity_token_program_offset
  total_available_amount ← read_u64 bytes reserve_liquidity_total_available_offset
  borrowed_amount_sf ← read_u128 bytes reserve_liquidity_borrowed_amount_sf_offset
  accumulated_protocol_fees_sf ←
      read_u128 bytes reserve_liquidity_accumulated_protocol_fees_sf_offset
  accumulated_referrer_fees_sf ←
      read_u128 bytes reserve_liquidity_accumulated_referrer_fees_sf_offset
  pending_referrer_fees_sf ← read_u128 bytes reserve_liquidity_pending_referrer_fees_sf_offset
  collateral_mint ← read_pubkey bytes reserve_collateral_mint_offset
  collateral_mint_total_supply ← read_u64 bytes reserve_collateral_mint_total_supply_offset
  ok (record {
    lending_market = lending_market;
    liquidity_mint = liquidity_mint;
    liquidity_supply = liquidity_supply;
    liquidity_token_program = liquidity_token_program;
    total_available_amount = total_available_amount;
    borrowed_amount_sf = borrowed_amount_sf;
    accumulated_protocol_fees_sf = accumulated_protocol_fees_sf;
    accumulated_referrer_fees_sf = accumulated_referrer_fees_sf;
    pending_referrer_fees_sf = pending_referrer_fees_sf;
    collateral_mint = collateral_mint;
    collateral_mint_total_supply = collateral_mint_total_supply;
  })
