-- ===== src/Prelude/Join.antt =====
-- Go's strings.Join and strings.Split on a one-byte separator, and their round trips.
use Prim.Native.Nat.{ℕ}
use mathlib.Core.Path.{◌≡◌, refl, ap, sym, ◌∙◌}
use mathlib.Core.Logic.{◌≢◌, inl, inr}
use mathlib.Core.Bool.{Bool, false, ◌||◌}
use mathlib.Core.List.{List, [], ◌∷◌, ◌++◌}
use native.Mathlib.Omega.{arith}
use crosscodex.Prelude.Tests.{◌==◌, if◌then◌else◌, Bool-cases, ==_iff}
use crosscodex.Prelude.Lists.{All}
use crosscodex.Prelude.Str.{Str}

-- strings.IndexByte(s, sep) >= 0
unfoldable pub has_byte : ℕ → Str → Bool
has_byte sep [] = false
has_byte sep (c ∷ s) = c == sep || has_byte sep s

unfoldable pub join : ℕ → List Str → Str
join sep [] = []
join sep (p ∷ []) = p
join sep (p ∷ q ∷ ps) = p ++ sep ∷ join sep (q ∷ ps)

-- Puts a byte in front of the first part.
abbrev pub cons_head : ℕ → List Str → List Str
cons_head c [] = (c ∷ []) ∷ []
cons_head c (p ∷ ps) = (c ∷ p) ∷ ps

unfoldable pub split : ℕ → Str → List Str
split sep [] = [] ∷ []
split sep (c ∷ s) = if c == sep then [] ∷ split sep s else cons_head c (split sep s)

split-of_part : (sep : ℕ) (p : Str) → has_byte sep p ≡ false → split sep p ≡ p ∷ []
unfolding split has_byte
split-of_part sep [] h = refl
split-of_part sep (c ∷ p) h = ground (arith, split-of_part sep p)

pub split-append :
    (sep : ℕ) (p s : Str) → has_byte sep p ≡ false → split sep (p ++ sep ∷ s) ≡ p ∷ split sep s
unfolding split has_byte
split-append sep [] s h = ground arith
split-append sep (c ∷ p) s h = ground (arith, split-append sep p s)

-- Splitting a joined list gives its parts back, where no part holds the separator.
pub split-join :
    (sep : ℕ) (p : Str) (ps : List Str)
    → All (λ q. has_byte sep q ≡ false) (p ∷ ps)
    → split sep (join sep (p ∷ ps)) ≡ p ∷ ps
unfolding join
split-join sep p [] h = split-of_part sep p h.0
split-join sep p (q ∷ ps) h =
    split-append sep p (join sep (q ∷ ps)) h.0 ∙ ap (◌∷◌ p) (split-join sep q ps h.1)

join-cons_head : (sep c : ℕ) (ps : List Str) → ps ≢ [] → join sep (cons_head c ps) ≡ c ∷ join sep ps
unfolding join
join-cons_head sep c [] h = absurd (h refl)
join-cons_head sep c (p ∷ []) h = refl
join-cons_head sep c (p ∷ q ∷ ps) h = refl

split-ne-nil : (sep : ℕ) (s : Str) → split sep s ≢ []
unfolding split join
split-ne-nil sep [] h = cc
split-ne-nil sep (c ∷ s) h = ground (arith, split-ne-nil sep s)

join-nil-cons : (sep : ℕ) (ps : List Str) → ps ≢ [] → join sep ([] ∷ ps) ≡ sep ∷ join sep ps
unfolding join
join-nil-cons sep [] h = absurd (h refl)
join-nil-cons sep (p ∷ ps) h = refl

-- Joining what was split gives the text back.
pub join-split : (sep : ℕ) (s : Str) → join sep (split sep s) ≡ s
unfolding split join
join-split sep [] = refl
join-split sep (c ∷ s) = elim (Bool-cases (c == sep)) [
  | inl e ↦ rw e (
      join-nil-cons sep (split sep s) (split-ne-nil sep s)
      ∙ ap (◌∷◌ sep) (join-split sep s)
      ∙ ap (λ x. x ∷ s) (sym ((==_iff c sep).0 e)))
  | inr e ↦
      rw e (join-cons_head sep c (split sep s) (split-ne-nil sep s) ∙ ap (◌∷◌ c) (join-split sep s))
]

pub has_byte-append :
    (sep : ℕ) (s t : Str) → has_byte sep (s ++ t) ≡ (has_byte sep s || has_byte sep t)
unfolding has_byte
has_byte-append sep [] t = refl
has_byte-append sep (c ∷ s) t = ground (arith, has_byte-append sep s t)
