-- ===== src/Prelude/Regexp.antt =====
-- The regular expressions that the program anchors at both ends (^...$): a sequence of character
-- classes, each with its bounds of repetition. A class is a Boolean test of a byte.
use Prim.Native.Nat.{ℕ, zero, suc, ◌-◌}
use mathlib.Core.Path.{◌≡◌}
use mathlib.Core.Bool.{Bool, true, false, ◌&&◌, ◌||◌}
use mathlib.Core.List.{List, [], ◌∷◌}
use mathlib.Core.Option.{Option, none, some}
use native.Mathlib.Omega.{arith}
use crosscodex.Prelude.Tests.{◌==◌, leb}
use crosscodex.Prelude.Str.{Str}

-- [a-z], [0-9], [A-Z]
unfoldable pub is_lower : ℕ → Bool
is_lower c = leb b'a' c && leb c b'z'

unfoldable pub is_digit : ℕ → Bool
is_digit c = leb b'0' c && leb c b'9'

unfoldable pub is_upper : ℕ → Bool
is_upper c = leb b'A' c && leb c b'Z'

-- `class{least,most}`; no upper bound is `*` or `+`.
pub record Item : Type 0 where
  pub class : ℕ → Bool
  pub least : ℕ
  pub most : Option ℕ

abbrev pub once : (ℕ → Bool) → Item
once p = record { class = p; least = 1; most = some 1 }

abbrev pub has_room : Option ℕ → Bool
has_room none = true
has_room (some zero) = false
has_room (some (suc n)) = true

abbrev pub less_room : Option ℕ → Option ℕ
less_room none = none
less_room (some zero) = some zero
less_room (some (suc n)) = some n

-- Between `least` and `most` bytes of the class, then a text that `k` accepts.
unfoldable pub reps : (ℕ → Bool) → ℕ → Option ℕ → (Str → Bool) → Str → Bool
reps p least most k [] = least == 0 && k []
reps p least most k (c ∷ s) =
    (least == 0 && k (c ∷ s)) || (has_room most && p c && reps p (least - 1) (less_room most) k s)

-- No further repetition: what follows decides.
pub reps_none : (p : ℕ → Bool) (k : Str → Bool) (s : Str) → reps p 0 (some 0) k s ≡ k s
unfolding reps
reps_none p k [] = ground arith
reps_none p k (c ∷ s) = ground arith

-- A class that stands once takes the first byte.
pub reps_once :
    (p : ℕ → Bool) (k : Str → Bool) (c : ℕ) (s : Str) → reps p 1 (some 1) k (c ∷ s) ≡ (p c && k s)
unfolding reps
reps_once p k c s = rw (reps_none p k s, reps) (ground arith)

abbrev is_end : Str → Bool
is_end [] = true
is_end (c ∷ s) = false

-- Whether the whole text matches.
unfoldable pub match_string : List Item → Str → Bool
unfolding reps
match_string [] = is_end
match_string (i ∷ is) = reps i.class i.least i.most (match_string is)

-- Every byte passes the test.
unfoldable pub all_bytes : (ℕ → Bool) → Str → Bool
all_bytes p [] = true
all_bytes p (c ∷ s) = p c && all_bytes p s

-- The last byte passes the test; false of the empty text.
unfoldable pub last_is : (ℕ → Bool) → Str → Bool
last_is q [] = false
last_is q (c ∷ []) = q c
last_is q (c ∷ d ∷ s) = last_is q (d ∷ s)
