-- ===== src/Maple/Feed.antt =====
-- The reading of the Chainlink feed and the value of shares
-- (programs/adapters/maple-syrup/src/lib.rs, `read_feed_answer` and `shares_to_usdc_value`), on
-- the data of the feed's account.
use sol_yield.Base.{ℕ, ◌+◌, ◌*◌, ltb, leb, ◌==◌, List, length}
use sol_yield.Base.Bytes.{from_le_bytes}
use sol_yield.Base.Int.{ℤ, i128_from_le_bytes, is_positive, as_u128}
use sol_yield.Base.Data.{read_bytes, index, or_panic}
use sol_yield.Base.Result.{Result, ok, require, ok_or, ◌>>=◌, ◌>>◌}
use sol_yield.Base.Word.{
  checked_add, checked_sub, checked_mul, checked_div, checked_rem, checked_pow, fit,
}
use sol_yield.Maple.Types.{
  MapleSyrupError, math_overflow, invalid_token_account, invalid_price_feed, invalid_price_answer,
  feed_version_offset, feed_supported_version, feed_decimals_offset, feed_live_length_offset,
  feed_live_cursor_offset, feed_transmissions_offset, feed_transmission_size,
  feed_transmission_answer_offset,
}

unfoldable pub read_pubkey : List ℕ → ℕ → Result MapleSyrupError ℕ
unfolding read_bytes
read_pubkey bytes offset = do
  word ← read_bytes 32 invalid_token_account bytes offset
  ok (from_le_bytes word)

unfoldable pub read_u64 : List ℕ → ℕ → Result MapleSyrupError ℕ
unfolding read_bytes
read_u64 bytes offset = do
  word ← read_bytes 8 invalid_token_account bytes offset
  ok (from_le_bytes word)

unfoldable pub read_u32 : List ℕ → ℕ → Result MapleSyrupError ℕ
unfolding read_bytes
read_u32 bytes offset = do
  word ← read_bytes 4 invalid_price_feed bytes offset
  ok (from_le_bytes word)

unfoldable pub read_i128 : List ℕ → ℕ → Result MapleSyrupError ℤ
unfolding read_bytes
read_i128 bytes offset = do
  word ← read_bytes 16 invalid_price_feed bytes offset
  ok (i128_from_le_bytes word)

-- `u32::checked_add` of cursor and length, then `- 1` and `%`, which panic below zero and by zero.
unfoldable pub latest_index : ℕ → ℕ → Result MapleSyrupError ℕ
latest_index live_cursor live_length = do
  next ← ok_or (checked_add 32 live_cursor live_length) math_overflow
  before ← or_panic (checked_sub next 1)
  or_panic (checked_rem before live_length)

unfoldable pub read_feed_answer : List ℕ → Result MapleSyrupError (ℕ × ℕ)
unfolding index latest_index read_u32 read_i128
read_feed_answer bytes = do
  require (leb (feed_transmissions_offset + feed_transmission_size) (length bytes))
      invalid_price_feed
  version ← index bytes feed_version_offset
  require (version == feed_supported_version) invalid_price_feed
  decimals ← index bytes feed_decimals_offset
  live_length ← read_u32 bytes feed_live_length_offset
  live_cursor ← read_u32 bytes feed_live_cursor_offset
  require (ltb 0 live_length) invalid_price_feed
  latest ← latest_index live_cursor live_length
  answer ← read_i128 bytes (
      feed_transmissions_offset + latest * feed_transmission_size + feed_transmission_answer_offset)
  require (is_positive answer) invalid_price_answer
  ok (as_u128 answer, decimals)

-- The value at an answer: the second half of `shares_to_usdc_value`.
unfoldable pub value_at_answer : ℕ → ℕ → ℕ → Result MapleSyrupError ℕ
value_at_answer shares answer decimals = do
  scale ← ok_or (checked_pow 128 10 decimals) math_overflow
  scaled ← ok_or (checked_mul 128 shares answer) math_overflow
  value ← ok_or (checked_div scaled scale) math_overflow
  ok_or (fit 64 value) math_overflow

unfoldable pub shares_to_usdc_value : ℕ → List ℕ → Result MapleSyrupError ℕ
unfolding read_feed_answer value_at_answer
shares_to_usdc_value shares feed_bytes = do
  (answer, decimals) ← read_feed_answer feed_bytes
  value_at_answer shares answer decimals
