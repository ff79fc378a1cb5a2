-- ===== src/Base/Layout.antt =====
-- Reading a word of an account's data where its place is known: what stands before it and after.
use sol_yield.Base.Lists.{length, get_elem?, length-append}
use sol_yield.Base.Bytes.{slice, slice-append}
use sol_yield.Base.Data.{read_bytes, index, or_panic}
use sol_yield.Base.Result.{ok}
use Prim.Native.Nat.{ℕ, ◌+◌}
use mathlib.Core.Path.{◌≡◌, refl, ap}
use mathlib.Core.Option.{some}
use mathlib.Core.List.{List, [], ◌∷◌, ◌++◌}
use native.Mathlib.Omega.{arith}

get_elem?-append :
    (before : List ℕ) (b : ℕ) (after : List ℕ)
    → get_elem? (before ++ (b ∷ after)) (length before) ≡ some b
get_elem?-append [] b after = refl
get_elem?-append (_ ∷ before) b after = get_elem?-append before b after

module _ {ℓ} {E : Type ℓ} where
  pub index-at :
      (bytes before : List ℕ) (b : ℕ) (after : List ℕ) (offset : ℕ)
      → bytes ≡ before ++ (b ∷ after)
      → offset ≡ length before
      → index {E = E} bytes offset ≡ ok b
  unfolding index
  index-at bytes before b after offset e at_offset =
      rw (e, at_offset) (ap or_panic (get_elem?-append before b after))

  pub read_bytes-at :
      (width : ℕ) (error : E) (bytes before word after : List ℕ) (offset : ℕ)
      → bytes ≡ before ++ (word ++ after)
      → offset ≡ length before
      → width ≡ length word
      → read_bytes width error bytes offset ≡ ok word
  unfolding read_bytes
  read_bytes-at width error bytes before word after offset e at_offset of_width =
      let there : slice (before ++ (word ++ after)) (length before) (length word) ≡ word =
        slice-append before word after in
      let total : length (before ++ (word ++ after))
          ≡ length before + (length word + length after) =
        omega (arith, length-append before (word ++ after), length-append word after) in
      rw (e, at_offset, of_width) (ground (arith, there, total))
