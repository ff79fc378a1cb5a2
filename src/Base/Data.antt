-- ===== src/Base/Data.antt =====
-- The data of an account: words read at an offset behind a check of the length. A slice, a byte
-- read by an index, and an operation with no check panic where they have no result.
use sol_yield.Base.Tests.{leb, if◌then◌else◌}
use sol_yield.Base.Lists.{length, get_elem?}
use sol_yield.Base.Bytes.{slice}
use sol_yield.Base.Result.{Result, ok, err, panicked, bind-safe, require, ◌>>=◌, ◌>>◌}
use Prim.Native.Nat.{ℕ, suc, zero, ◌+◌, ◌<◌}
use mathlib.Core.Path.{◌≡◌, refl}
use mathlib.Core.Logic.{◌≢◌}
use mathlib.Core.Option.{Option, none, some}
use mathlib.Core.List.{List, [], ◌∷◌}
use native.Mathlib.Omega.{arith}

-- `data[offset..offset + width]`
abbrev pub checked_slice : List ℕ → ℕ → ℕ → Option (List ℕ)
checked_slice bytes offset width =
    if leb (offset + width) (length bytes) then some (slice bytes offset width) else none

module _ {ℓ} {E : Type ℓ} where
  abbrev pub or_panic {κ} : {A : Type κ} → Option A → Result E A
  or_panic (some a) = ok a
  or_panic none = err panicked

  -- The body of the `read_*` functions: the bytes of a word of `width` bytes, or the error.
  unfoldable pub read_bytes : ℕ → E → List ℕ → ℕ → Result E (List ℕ)
  read_bytes width error bytes offset = do
    require (leb (offset + width) (length bytes)) error
    or_panic (checked_slice bytes offset width)

  -- `bytes[index]`
  unfoldable pub index : List ℕ → ℕ → Result E ℕ
  index bytes i = or_panic (get_elem? bytes i)

pub get_elem?_lt :
    (bytes : List ℕ) (i : ℕ) → i < length bytes → (b : ℕ) × (get_elem? bytes i ≡ some b)
get_elem?_lt [] i h = absurd (omega arith)
get_elem?_lt (b ∷ bytes) zero h = (b, refl)
get_elem?_lt (b ∷ bytes) (suc i) h = get_elem?_lt bytes i (omega arith)

module _ {ℓ κ} {E : Type ℓ} {B : Type κ} where
  -- An index below the length does not panic.
  pub index-safe :
      (bytes : List ℕ) (i : ℕ) (f : ℕ → Result E B)
      → i < length bytes
      → ((b : ℕ) → f b ≢ err panicked)
      → (index bytes i >>= f) ≢ err panicked
  unfolding index
  index-safe bytes i f h rest =
      let (b, here) = get_elem?_lt bytes i h in
      bind-safe (or_panic (get_elem? bytes i)) f (λ crash. ground arith) rest

  pub read_bytes-safe :
      (width : ℕ) (e : E) (bytes : List ℕ) (offset : ℕ) (f : List ℕ → Result E B)
      → ((word : List ℕ) → f word ≢ err panicked)
      → (read_bytes width e bytes offset >>= f) ≢ err panicked
  unfolding read_bytes
  read_bytes-safe width e bytes offset f rest =
      bind-safe (read_bytes width e bytes offset) f (λ crash. ground arith) rest
