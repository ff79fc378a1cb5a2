-- ===== src/Base/Text.antt =====
-- Rust's `str` as the list of its code points: `trim`, and the bytes of its UTF-8 encoding.
use sol_yield.Base.Tests.{ltb, leb, ◌==◌, if◌then◌else◌}
use Prim.Native.Nat.{ℕ, ◌+◌, ◌/◌, ◌%◌}
use Prim.Native.Char.{code}
use Prim.Native.String.{String}
use mathlib.Core.Path.{◌≡◌, refl, ◌∙◌}
use mathlib.Core.Bool.{Bool, true, false, ◌&&◌, ◌||◌}
use mathlib.Core.List.{List, [], ◌∷◌, ◌++◌, reverse, reverse-append}
use native.Mathlib.Omega.{arith}

abbrev pub Text : Type 0
Text = List ℕ

-- `char::is_whitespace`: the code points with the property White_Space
unfoldable pub is_whitespace : ℕ → Bool
is_whitespace c =
    (leb 9 c && leb c 13)
    || c == 32
    || c == 0x85
    || c == 0xa0
    || c == 0x1680
    || (leb 0x2000 c && leb c 0x200a)
    || c == 0x2028
    || c == 0x2029
    || c == 0x202f
    || c == 0x205f
    || c == 0x3000

unfoldable pub trim_start : Text → Text
trim_start [] = []
trim_start (c ∷ s) = if is_whitespace c then trim_start s else c ∷ s

unfoldable pub trim : Text → Text
unfolding trim_start
trim s = reverse (trim_start (reverse (trim_start s)))

abbrev pub is_empty : Text → Bool
is_empty [] = true
is_empty (_ ∷ _) = false

-- Every character is white space.
abbrev pub is_blank : Text → Bool
is_blank [] = true
is_blank (c ∷ s) = is_whitespace c && is_blank s

-- the UTF-8 encoding of one code point
abbrev encode_char : ℕ → List ℕ
encode_char c =
    if ltb c 0x80
    then c ∷ []
    else if ltb c 0x800
    then (0xc0 + c / 64) ∷ (0x80 + c % 64) ∷ []
    else if ltb c 0x10000
    then (0xe0 + c / 4096) ∷ (0x80 + c / 64 % 64) ∷ (0x80 + c % 64) ∷ []
    else (0xf0 + c / 262144) ∷ (0x80 + c / 4096 % 64) ∷ (0x80 + c / 64 % 64) ∷ (0x80 + c % 64) ∷ []

-- `s.as_bytes()`
unfoldable pub as_bytes : Text → List ℕ
as_bytes [] = []
as_bytes (c ∷ s) = encode_char c ++ as_bytes s

trim_start-blank : (s : Text) → is_empty (trim_start s) ≡ is_blank s
unfolding trim_start
trim_start-blank [] = refl
trim_start-blank (c ∷ s) = ground (arith, trim_start-blank s)

is_blank-append : (s t : Text) → is_blank (s ++ t) ≡ (is_blank s && is_blank t)
is_blank-append [] t = refl
is_blank-append (c ∷ s) t = ground (arith, is_blank-append s t)

is_blank-reverse : (s : Text) → is_blank (reverse s) ≡ is_blank s
is_blank-reverse [] = refl
is_blank-reverse (c ∷ s) =
    rw (reverse-append (c ∷ []) s)
      (is_blank-append (reverse s) (c ∷ []) ∙ ground (arith, is_blank-reverse s))

is_empty-reverse : (s : Text) → is_empty (reverse s) ≡ is_empty s
is_empty-reverse [] = refl
is_empty-reverse (c ∷ s) = rw (reverse-append (c ∷ []) s) (snoc_nonempty (reverse s))
  where
    snoc_nonempty : (t : Text) → is_empty (t ++ (c ∷ [])) ≡ false
    snoc_nonempty [] = refl
    snoc_nonempty (_ ∷ _) = refl

is_blank-trim_start : (s : Text) → is_blank (trim_start s) ≡ is_blank s
unfolding trim_start
is_blank-trim_start [] = refl
is_blank-trim_start (c ∷ s) = ground (arith, is_blank-trim_start s)

-- What is left after trimming is empty exactly for a text of white space alone.
pub is_empty-trim : (s : Text) → is_empty (trim s) ≡ is_blank s
unfolding trim
is_empty-trim s =
    is_empty-reverse (trim_start (reverse (trim_start s)))
    ∙ trim_start-blank (reverse (trim_start s))
    ∙ is_blank-reverse (trim_start s)
    ∙ is_blank-trim_start s

-- The bytes of an ASCII literal, `b"..."`.
abbrev pub byte_string : String → List ℕ
byte_string String.[] = []
byte_string (String.◌∷◌ c s) = code c ∷ byte_string s
