-- ===== src/Maple/Price.antt =====
-- What the feed's ring and the value of shares promise (programs/adapters/maple-syrup/src/lib.rs,
-- `read_feed_answer`, `shares_to_usdc_value`).
use sol_yield.Base.{
  ℕ, ◌+◌, ◌-◌, ◌*◌, ◌/◌, ◌%◌, ◌^◌, ◌≤◌, ◌<◌, ltb, leb, ◌==◌, ◌≡◌, ◌↔◌, ◌≢◌, List, length, ◌∙◌, ap,
  arith,
}
use native.Mathlib.Nat.{one-le-pow, mod-add-mod, add-mod_right}
use sol_yield.Base.Data.{read_bytes, index-safe}
use sol_yield.Base.Result.{ok, err, panicked, bind-safe, require-safe, ok-safe}
use sol_yield.Base.Int.{is_positive, as_u128}
use sol_yield.Base.Word.{IsU64}
use sol_yield.Maple.Types.{invalid_price_feed, invalid_price_answer}
use sol_yield.Maple.Feed.{latest_index, read_feed_answer, value_at_answer, read_u32, read_i128}

-- The slot of the feed that is read lies in the ring and the cursor's slot comes right after it: it
-- is the one written last.
pub latest_index-behind_cursor :
    (live_cursor live_length slot : ℕ)
    → 0 < live_length
    → latest_index live_cursor live_length ≡ ok slot
    → (slot < live_length) × ((slot + 1) % live_length ≡ live_cursor % live_length)
unfolding latest_index
latest_index-behind_cursor live_cursor live_length slot h found =
    let next = live_cursor + live_length in
    let is : slot ≡ (next - 1) % live_length = ground arith in
    let back : next - 1 + 1 ≡ next = omega arith in
    (
      ground arith,
      let behind : (slot + 1) % live_length ≡ (next - 1 + 1) % live_length =
            rw is (mod-add-mod (next - 1) live_length 1) in
          behind ∙ ap (λ n. n % live_length) back ∙ add-mod_right live_cursor live_length,
    )

-- A value is given exactly when 10 to the decimals and the product fit a u128 and the quotient a u64; the value is then the quotient, rounded down.
value_at_answer_iff :
    (shares answer decimals value : ℕ)
    → (value_at_answer shares answer decimals ≡ ok value) ↔ (
        (10 ^ decimals < 2 ^ 128)
        × (shares * answer < 2 ^ 128)
        × IsU64 value
        × (value ≡ shares * answer / 10 ^ decimals))
unfolding value_at_answer
value_at_answer_iff shares answer decimals value =
    let scale_pos : 0 < 10 ^ decimals = one-le-pow decimals 10 (omega arith) in
    (λ found. ground arith, λ spec. ground arith)

read_u32-safe : (bytes : List ℕ) (offset : ℕ) → read_u32 bytes offset ≢ err panicked
unfolding read_u32 read_bytes
read_u32-safe bytes offset crash = ground arith

read_i128-safe : (bytes : List ℕ) (offset : ℕ) → read_i128 bytes offset ≢ err panicked
unfolding read_i128 read_bytes
read_i128-safe bytes offset crash = ground arith

-- In a ring that has slots neither the subtraction nor the remainder panics.
latest_index-safe :
    (live_cursor live_length : ℕ)
    → 0 < live_length
    → latest_index live_cursor live_length ≢ err panicked
unfolding latest_index
latest_index-safe live_cursor live_length some_slot crash = ground arith

-- Whatever bytes the feed holds, the reading does not panic.
pub read_feed_answer-safe : (bytes : List ℕ) → read_feed_answer bytes ≢ err panicked
unfolding read_feed_answer
read_feed_answer-safe bytes = require-safe (leb 248 (length bytes)) invalid_price_feed _ λ long.
    let enough : 248 ≤ length bytes = ground arith in
    index-safe bytes 8 _ (omega arith) λ version.
      require-safe (version == 2) invalid_price_feed _ λ _.
        index-safe bytes 138 _ (omega arith) λ decimals.
          bind-safe (read_u32 bytes 148) _ (read_u32-safe bytes 148) λ live_length.
            bind-safe (read_u32 bytes 152) _ (read_u32-safe bytes 152) λ live_cursor.
              require-safe (ltb 0 live_length) invalid_price_feed _ λ some_slot.
                bind-safe (latest_index live_cursor live_length) _
                  (latest_index-safe live_cursor live_length (ground arith))
                  λ latest.
                    bind-safe (read_i128 bytes (200 + latest * 48 + 16)) _
                      (read_i128-safe bytes (200 + latest * 48 + 16))
                      λ answer.
                        require-safe (is_positive answer) invalid_price_answer _
                          λ _. ok-safe (as_u128 answer, decimals)
