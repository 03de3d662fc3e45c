-- ===== src/Prelude/Result.antt =====
-- A Go function that returns a value and an error: the value, or the error.
use mathlib.Core.Path.{◌≡◌, refl}
use mathlib.Core.Option.{Option, none, some}

pub data Result {ℓ} (E : Type ℓ) (A : Type ℓ) : Type ℓ where
  ok : A → Result E A
  err : E → Result E A

module _ {ℓ} {E A B : Type ℓ} where
  infixl 5 ◌>>=◌
  abbrev pub ◌>>=◌ : Result E A → (A → Result E B) → Result E B
  ok a >>= f = f a
  err e >>= f = err e

-- `if err := check; err != nil { return err }`
module _ {ℓ} {E A : Type ℓ} where
  infixl 5 ◌>>◌
  abbrev pub ◌>>◌ : Option E → Result E A → Result E A
  none >> k = k
  some e >> k = err e

  -- A block that succeeds passed its check.
  pub >>-eq-ok : (c : Option E) (k : Result E A) {a : A} → (c >> k) ≡ ok a → (c ≡ none) × (k ≡ ok a)
  >>-eq-ok none k h = (refl, h)
  >>-eq-ok (some e) k h = cc
