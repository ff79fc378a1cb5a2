-- ===== src/Base/Result.antt =====
-- The result of an instruction handler. `anchor_lang::Result` carries either an error of the
-- program's own `#[error_code]` enum or one that the Anchor framework raises while it checks
-- the accounts of `#[derive(Accounts)]`.
use mathlib.Core.Path.{◌≡◌, refl}
use mathlib.Core.Logic.{◌≢◌}
use mathlib.Core.Bool.{Bool, true, false}
use mathlib.Core.Option.{Option, none, some}
use native.Mathlib.Omega.{arith}

-- The framework's refusals, by what was wrong with the account.
pub data AnchorError : Type 0 where
  constraint_seeds : AnchorError
  account_not_signer : AnchorError
  account_not_writable : AnchorError
  account_not_initialized : AnchorError
  account_already_in_use : AnchorError

-- `panicked` is an index or a slice out of bounds, an overflow of an operation with no check or a
-- division by zero; the program is then aborted.
pub data Error {ℓ} (E : Type ℓ) : Type ℓ where
  custom : E → Error E
  anchor : AnchorError → Error E
  panicked : Error E

pub data Result {ℓ κ} (E : Type ℓ) (A : Type κ) : Type (ℓ ⊔ κ) where
  ok : A → Result E A
  err : Error E → Result E A

infixl 5 ◌>>=◌ ◌>>◌
abbrev pub ◌>>=◌ {ℓ κ μ} :
    {E : Type ℓ} {A : Type κ} {B : Type μ} → Result E A → (A → Result E B) → Result E B
ok a >>= f = f a
err e >>= f = err e

abbrev pub ◌>>◌ {ℓ κ} : {E : Type ℓ} {B : Type κ} → Result E (Unit {0}) → Result E B → Result E B
m >> k = m >>= λ _. k

module _ {ℓ} {E : Type ℓ} where
  -- `require!(test, error)`
  abbrev pub require : Bool → E → Result E (Unit {0})
  require true _ = ok tt
  require false e = err (custom e)

  -- a check of the framework
  abbrev pub constrain : Bool → AnchorError → Result E (Unit {0})
  constrain true _ = ok tt
  constrain false e = err (anchor e)

  -- `option.ok_or(error)?`
  abbrev pub ok_or {κ} : {A : Type κ} → Option A → E → Result E A
  ok_or (some a) _ = ok a
  ok_or none e = err (custom e)

-- Steps that do not panic, one after the other.
module _ {ℓ κ} {E : Type ℓ} {B : Type κ} where
  pub bind-safe {μ} :
      {A : Type μ} (m : Result E A) (f : A → Result E B)
      → m ≢ err panicked
      → ((a : A) → f a ≢ err panicked)
      → (m >>= f) ≢ err panicked
  bind-safe (ok a) f _ h = h a
  bind-safe (err e) f h _ = λ crash. h (ground arith)

  pub ok-safe : (b : B) → ◌≢◌ {A = Result E B} (ok b) (err panicked)
  ok-safe b crash = ground arith

  pub require-safe :
      (b : Bool) (e : E) (k : Result E B)
      → (b ≡ true → k ≢ err panicked)
      → (require b e >> k) ≢ err panicked
  require-safe true e k h = h refl
  require-safe false e k h = λ crash. ground arith

  pub ok_or-safe {μ} :
      {A : Type μ} (o : Option A) (e : E) (f : A → Result E B)
      → ((a : A) → f a ≢ err panicked)
      → (ok_or o e >>= f) ≢ err panicked
  ok_or-safe (some a) e f h = h a
  ok_or-safe none e f h = λ crash. ground arith

-- A check before other steps: both were passed.
pub >>-ok {ℓ κ} :
    {E : Type ℓ} {B : Type κ} (m : Result E (Unit {0})) (k : Result E B) {b : B}
    → m >> k ≡ ok b
    → (m ≡ ok tt) × (k ≡ ok b)
>>-ok (ok _) k h = (refl, h)
>>-ok (err e) k h = absurd (ground arith)

-- A step before others: it gave a value, on which they went on.
pub >>=-ok {ℓ κ μ} :
    {E : Type ℓ} {A : Type κ} {B : Type μ} (m : Result E A) (f : A → Result E B) {b : B}
    → (m >>= f) ≡ ok b
    → (a : A) × (m ≡ ok a) × (f a ≡ ok b)
>>=-ok (ok a) f h = (a, refl, h)
>>=-ok (err e) f h = absurd (ground arith)

-- A call that is not refused.
abbrev pub IsOk {ℓ κ} : {E : Type ℓ} {A : Type κ} → Result E A → Type 0
IsOk (ok _) = Unit
IsOk (err _) = ⊥
