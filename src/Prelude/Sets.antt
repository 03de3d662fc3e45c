-- ===== src/Prelude/Sets.antt =====
-- Go maps from strings to true, as lists of their keys.
use mathlib.Core.Path.{◌≡◌, refl}
use mathlib.Core.Bool.{Bool, false, not, ◌&&◌, ◌||◌}
use mathlib.Core.List.{List, [], ◌∷◌, ◌++◌}
use native.Mathlib.Omega.{arith}
use crosscodex.Prelude.Tests.{if◌then◌else◌}
use crosscodex.Prelude.Str.{Str, eqs, eqs_iff}

-- set[s]
unfoldable pub has : List Str → Str → Bool
has [] s = false
has (x ∷ xs) s = eqs x s || has xs s

-- delete(set, s)
unfoldable pub remove : Str → List Str → List Str
remove s [] = []
remove s (x ∷ xs) = let rest = remove s xs in if eqs x s then rest else x ∷ rest

-- set[s] = true for each element
unfoldable pub add_all : List Str → List Str → List Str
unfolding has
add_all set [] = set
add_all set (x ∷ xs) = add_all (if has set x then set else set ++ x ∷ []) xs

pub has-append : (xs ys : List Str) (s : Str) → has (xs ++ ys) s ≡ (has xs s || has ys s)
unfolding has
has-append [] ys s = refl
has-append (x ∷ xs) ys s = ground (arith, has-append xs ys s)

pub has-remove : (s t : Str) (xs : List Str) → has (remove s xs) t ≡ (not (eqs s t) && has xs t)
unfolding has remove
has-remove s t [] = ground arith
has-remove s t (x ∷ xs) = ground (arith, has-remove s t xs, eqs_iff x s, eqs_iff x t, eqs_iff s t)

pub has-add_all : (set xs : List Str) (s : Str) → has (add_all set xs) s ≡ (has set s || has xs s)
unfolding has add_all
has-add_all set [] s = ground arith
has-add_all set (x ∷ xs) s = ground (
  arith,
  has-add_all set xs s,
  has-add_all (set ++ x ∷ []) xs s,
  has-append set (x ∷ []) s,
  eqs_iff x s,
)
