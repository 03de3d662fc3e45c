-- ===== src/Prelude/Str.antt =====
-- Go strings: sequences of bytes, with their equality test.
use Prim.Native.Char.{code}
use Prim.Native.String.{String}
use Prim.Native.Nat.{ℕ}
use mathlib.Core.Path.{◌≡◌, refl}
use mathlib.Core.Logic.{◌↔◌, ◌≢◌}
use mathlib.Core.Bool.{Bool, true, false, ◌&&◌}
use mathlib.Core.List.{List, [], ◌∷◌}
use native.Mathlib.Omega.{arith}
use crosscodex.Prelude.Tests.{◌==◌}

abbrev pub Str : Type 0
Str = List ℕ

-- The bytes of an ASCII literal.
abbrev pub codes : String → Str
codes String.[] = []
codes (String.◌∷◌ c s) = code c ∷ codes s

-- s == t
unfoldable pub eqs : Str → Str → Bool
eqs [] [] = true
eqs [] (b ∷ t) = false
eqs (a ∷ s) [] = false
eqs (a ∷ s) (b ∷ t) = a == b && eqs s t

pub eqs→eq : (s t : Str) → eqs s t ≡ true → s ≡ t
unfolding eqs
eqs→eq [] [] h = refl
eqs→eq [] (b ∷ t) h = cc
eqs→eq (a ∷ s) [] h = cc
eqs→eq (a ∷ s) (b ∷ t) h = ground (arith, eqs→eq s t)

pub eqs_refl : (s : Str) → eqs s s ≡ true
unfolding eqs
eqs_refl [] = refl
eqs_refl (a ∷ s) = ground (arith, eqs_refl s)

pub eqs_iff : (s t : Str) → (eqs s t ≡ true) ↔ (s ≡ t)
eqs_iff s t = (eqs→eq s t, λ e. rw e (eqs_refl t))

pub eqs_ne : (s t : Str) → s ≢ t → eqs s t ≡ false
eqs_ne s t h = ground (arith, eqs→eq s t)

pub eqs_ne_rev : (s t : Str) → eqs s t ≡ false → s ≢ t
eqs_ne_rev s t h e = ground (arith, eqs_iff s t)

-- s == ""
abbrev pub is_empty : Str → Bool
is_empty [] = true
is_empty (a ∷ s) = false
