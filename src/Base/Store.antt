-- ===== src/Base/Store.antt =====
-- The accounts of a program by their address: a list of addresses with what each account holds.
use sol_yield.Base.Tests.{◌==◌, if◌then◌else◌}
use sol_yield.Base.Lists.{All}
use Prim.Native.Nat.{ℕ}
use mathlib.Core.Path.{◌≡◌, refl}
use mathlib.Core.Option.{Option, none, some}
use mathlib.Core.List.{List, [], ◌∷◌}
use native.Mathlib.Omega.{arith}

abbrev pub Store {ℓ} : Type ℓ → Type ℓ
Store V = List (ℕ × V)

module _ {ℓ} {V : Type ℓ} where
  unfoldable pub fetch : ℕ → Store V → Option V
  fetch k [] = none
  fetch k ((j, v) ∷ s) = if j == k then some v else fetch k s

  -- Writes the account at an address, or creates it.
  unfoldable pub put : ℕ → V → Store V → Store V
  put k v [] = (k, v) ∷ []
  put k v ((j, w) ∷ s) = if j == k then (k, v) ∷ s else (j, w) ∷ put k v s

  pub fetch-put :
      (j k : ℕ) (v : V) (s : Store V) → fetch j (put k v s) ≡ (if k == j then some v else fetch j s)
  unfolding fetch put
  fetch-put j k v [] = refl
  fetch-put j k v ((i, w) ∷ s) = ground (arith, fetch-put j k v s)

  module _ {κ} (P : ℕ × V → Type κ) where
    pub All-put : (k : ℕ) (v : V) (s : Store V) → All P s → P (k, v) → All P (put k v s)
    unfolding put
    All-put k v [] h p = (p, tt)
    All-put k v ((j, w) ∷ s) h p = ground (arith, All-put k v s h.1 p)

    -- An account that is found has the property that all accounts have.
    pub All-fetch : (k : ℕ) (s : Store V) {v : V} → All P s → fetch k s ≡ some v → P (k, v)
    unfolding fetch
    All-fetch k [] h e = cc
    All-fetch k ((j, w) ∷ s) {v} h e = ground (arith, All-fetch k s {v = v} h.1)

pub All-imp {ℓ κ μ} :
    {A : Type ℓ} {P : A → Type κ} {Q : A → Type μ} (f : (a : A) → P a → Q a) (xs : List A)
    → All P xs
    → All Q xs
All-imp f [] h = tt
All-imp f (x ∷ xs) h = (f x h.0, All-imp f xs h.1)
