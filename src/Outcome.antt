-- ===== src/Outcome.antt =====
-- A computation that only reads: it returns a value or raises.
use traitkeeper_eco.Base.{Bool, true, false, Option, none, some, Result, ok, err}
use traitkeeper_eco.Schema.{Error}

abbrev pub Outcome : Type 0 → Type 0
Outcome A = Result Error A

module _ {A B : Type 0} where
  infixl 5 ◌>>=◌ ◌>>◌
  abbrev pub ◌>>=◌ : Outcome A → (A → Outcome B) → Outcome B
  ok a >>= f = f a
  err e >>= f = err e

  abbrev pub ◌>>◌ : Outcome A → Outcome B → Outcome B
  m >> k = m >>= λ _. k

abbrev pub get_or_raise : {A : Type 0} → Option A → Error → Outcome A
get_or_raise none e = err e
get_or_raise (some a) e = ok a

abbrev pub fail_if : Bool → Error → Outcome Unit
fail_if true e = err e
fail_if false e = ok tt
