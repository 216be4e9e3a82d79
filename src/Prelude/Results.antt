-- ===== src/Prelude/Results.antt =====
-- The outcome of code that may raise: a value, or the exception.
use mathlib.Core.Path.{◌≡◌, refl}
use mathlib.Core.Logic.{◌⊎◌, inl, inr}
use mathlib.Core.Bool.{Bool, true, false}
use mathlib.Core.Option.{Option, none, some}

pub data Result (E A : Type 0) : Type 0 where
  ok : A → Result E A
  err : E → Result E A

-- `if not test: raise x`
abbrev pub guard : {E : Type 0} → Bool → E → Result E (Unit {0})
guard false x = err x
guard true x = ok tt

-- `if o is None: raise x`
abbrev pub require_some : {E A : Type 0} → Option A → E → Result E A
require_some (some a) x = ok a
require_some none x = err x

infixl 5 ◌>>=◌ ◌>>◌
-- An exception skips what follows.
abbrev pub ◌>>=◌ : {E A B : Type 0} → Result E A → (A → Result E B) → Result E B
err x >>= next = err x
ok a >>= next = next a

abbrev pub ◌>>◌ : {E B : Type 0} → Result E (Unit {0}) → Result E B → Result E B
first >> second = first >>= λ done. second

-- To split on a computed outcome and keep the equation.
pub Result-cases :
    {E A : Type 0} (r : Result E A) → ((a : A) × (r ≡ ok a)) ⊎ ((e : E) × (r ≡ err e))
Result-cases (ok a) = inl (a, refl)
Result-cases (err e) = inr (e, refl)
