-- ===== src/Base/Bytes.antt =====
-- Little-endian machine words: `to_le_bytes` and `from_le_bytes` of the unsigned integers, and
-- the reading of a slice at an offset. A byte is a number below 256.
use sol_yield.Base.Tests.{◌==◌}
use sol_yield.Base.Lists.{length, take, drop, All}
use mathlib.Core.Bool.{Bool, true, false, ◌&&◌}
use Prim.Native.Nat.{ℕ, zero, suc, ◌+◌, ◌*◌, ◌/◌, ◌%◌, ◌^◌, ◌<◌}
use mathlib.Core.Path.{◌≡◌, refl, ap}
use mathlib.Core.List.{List, [], ◌∷◌, ◌++◌}
use native.Mathlib.Nat.{pow-suc}
use native.Mathlib.Omega.{arith}

abbrev pub IsByte : ℕ → Type 0
IsByte b = b < 256

-- `n.to_le_bytes()` of a word of `width` bytes
unfoldable pub to_le_bytes : ℕ → ℕ → List ℕ
to_le_bytes zero n = []
to_le_bytes (suc width) n = (n % 256) ∷ to_le_bytes width (n / 256)

-- `from_le_bytes(bytes)`
unfoldable pub from_le_bytes : List ℕ → ℕ
from_le_bytes [] = 0
from_le_bytes (b ∷ bs) = b + 256 * from_le_bytes bs

-- `data[offset..offset + width]`, of data that is long enough
abbrev pub slice : List ℕ → ℕ → ℕ → List ℕ
slice bytes offset width = take width (drop offset bytes)

pub length-to_le_bytes : (width n : ℕ) → length (to_le_bytes width n) ≡ width
unfolding to_le_bytes
length-to_le_bytes zero n = refl
length-to_le_bytes (suc width) n = ap suc (length-to_le_bytes width (n / 256))

pub to_le_bytes-IsByte : (width n : ℕ) → All IsByte (to_le_bytes width n)
unfolding to_le_bytes
to_le_bytes-IsByte zero n = tt
to_le_bytes-IsByte (suc width) n = (omega arith, to_le_bytes-IsByte width (n / 256))

pub from_le_bytes-to_le_bytes :
    (width n : ℕ) → n < 256 ^ width → from_le_bytes (to_le_bytes width n) ≡ n
unfolding from_le_bytes to_le_bytes
from_le_bytes-to_le_bytes zero n h = omega arith
from_le_bytes-to_le_bytes (suc width) n h =
    let smaller : n < 256 ^ width * 256 = rw (pow-suc 256 width) at h in
    omega (arith, from_le_bytes-to_le_bytes width (n / 256) (omega arith))

pub from_le_bytes-lt :
    (bytes : List ℕ) → All IsByte bytes → from_le_bytes bytes < 256 ^ length bytes
unfolding from_le_bytes
from_le_bytes-lt [] h = omega arith
from_le_bytes-lt (b ∷ bs) h = rw (pow-suc 256 (length bs)) (omega (arith, from_le_bytes-lt bs h.1))

pub to_le_bytes-from_le_bytes :
    (bytes : List ℕ) → All IsByte bytes → to_le_bytes (length bytes) (from_le_bytes bytes) ≡ bytes
unfolding from_le_bytes to_le_bytes
to_le_bytes-from_le_bytes [] h = refl
to_le_bytes-from_le_bytes (b ∷ bs) h =
    let digit : (b + 256 * from_le_bytes bs) % 256 ≡ b = omega (arith, h.0) in
    let others : (b + 256 * from_le_bytes bs) / 256 ≡ from_le_bytes bs = omega (arith, h.0) in
    rw (digit, others) (ap (◌∷◌ b) (to_le_bytes-from_le_bytes bs h.1))

-- A word written at some offset is the slice that is read there.
pub slice-append :
    (before word after : List ℕ)
    → slice (before ++ (word ++ after)) (length before) (length word) ≡ word
slice-append [] word after = take_of_append word
  where
    take_of_append : (w : List ℕ) → take (length w) (w ++ after) ≡ w
    take_of_append [] = refl
    take_of_append (x ∷ xs) = ap (◌∷◌ x) (take_of_append xs)
slice-append (_ ∷ before) word after = slice-append before word after

-- `==` of two slices
abbrev pub bytes_eq : List ℕ → List ℕ → Bool
bytes_eq [] [] = true
bytes_eq [] (_ ∷ _) = false
bytes_eq (_ ∷ _) [] = false
bytes_eq (a ∷ xs) (b ∷ ys) = a == b && bytes_eq xs ys
