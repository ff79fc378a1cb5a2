-- ===== src/Dispatcher/Data.antt =====
-- The bytes that cross between the dispatcher and an adapter: the amount behind a
-- discriminator, and the value that comes back.
use sol_yield.Base.{
  ℕ, ◌≡◌, ◌∙◌, ap, some, List, ◌++◌, length, take, drop, arith, length-append, take-append,
  drop-append,
}
use mathlib.Core.Path.{subst}
use sol_yield.Base.Bytes.{to_le_bytes, from_le_bytes, length-to_le_bytes, from_le_bytes-to_le_bytes}
use sol_yield.Base.Result.{ok}
use sol_yield.Base.Word.{IsU64}
use sol_yield.Solana.Account.{Pubkey}
use sol_yield.Dispatcher.Types.{Runtime}
use sol_yield.Dispatcher.Handlers.{amount_ix_data, read_current_value_return}

-- The data of a routed deposit or withdrawal is sixteen bytes: the discriminator first, then the
-- eight bytes from which the adapter reads back the amount.
pub amount_ix_data_read_back :
    (discriminator : List ℕ) (amount : ℕ)
    → length discriminator ≡ 8
    → IsU64 amount
    → (length (amount_ix_data discriminator amount) ≡ 16)
      × (take 8 (amount_ix_data discriminator amount) ≡ discriminator)
      × (from_le_bytes (drop 8 (amount_ix_data discriminator amount)) ≡ amount)
unfolding amount_ix_data
amount_ix_data_read_back discriminator amount eight fits = (
  omega (arith, length-append discriminator (to_le_bytes 8 amount), length-to_le_bytes 8 amount),
  subst (λ n. take n (discriminator ++ to_le_bytes 8 amount) ≡ discriminator) eight
      (take-append discriminator (to_le_bytes 8 amount)),
  ap from_le_bytes (
        subst (λ n. drop n (discriminator ++ to_le_bytes 8 amount) ≡ to_le_bytes 8 amount) eight
          (drop-append discriminator (to_le_bytes 8 amount)))
      ∙ from_le_bytes-to_le_bytes 8 amount fits,
)

-- A value that an adapter returns as the eight bytes of a u64 is the value that the dispatcher
-- reads.
pub read_current_value_return-to_le_bytes {ℓ} :
    {S : Type ℓ} (runtime : Runtime S) (program : Pubkey) (s : S) (value : ℕ)
    → IsU64 value
    → runtime.get_return_data s ≡ some (program, to_le_bytes 8 value)
    → read_current_value_return runtime program s ≡ ok value
unfolding read_current_value_return
read_current_value_return-to_le_bytes runtime program s value fits returned =
    ground (arith, returned, length-to_le_bytes 8 value, from_le_bytes-to_le_bytes 8 value fits)
