-- ===== src/Analyzer/Dag/Cycle.antt =====
-- findCycle finds a cycle: pkg/analyzer/dag.go.
use crosscodex.Prelude.{
  ℕ, zero, suc, ◌≤◌, ◌≡◌, refl, ap, true, false, List, [], ◌∷◌, ◌++◌, some, length, get_elem?, drop,
  Bool-cases, inl, inr, All, arith,
}
use crosscodex.Prelude.Str.{Str, eqs_iff, eqs_refl}
use crosscodex.Prelude.Eq.{str_eq}
use crosscodex.Prelude.Maps.{lookup}
use crosscodex.Prelude.Sets.{has}
use crosscodex.Prelude.Counting.{count, hits-swap, hits_at_most, hits_at_least}
use crosscodex.Analyzer.Dag.{Edges, deps_of, found_of, next_dep}

-- Each name depends on the next one.
abbrev pub Linked : Edges → List Str → Type 0
Linked es [] = Unit {0}
Linked es (x ∷ []) = Unit {0}
Linked es (x ∷ y ∷ ys) = (has (deps_of x es) y ≡ true) × Linked es (y ∷ ys)

pub Linked-snoc :
    (es : Edges) (xs : List Str) (x y : Str)
    → Linked es (xs ++ x ∷ [])
    → has (deps_of x es) y ≡ true
    → Linked es ((xs ++ x ∷ []) ++ y ∷ [])
Linked-snoc es [] x y l h = (h, tt)
Linked-snoc es (z ∷ []) x y l h = (l.0, (h, tt))
Linked-snoc es (z ∷ w ∷ xs) x y l h = (l.0, Linked-snoc es (w ∷ xs) x y l.1 h)

pub Linked-drop : (es : Edges) (i : ℕ) (xs : List Str) → Linked es xs → Linked es (drop i xs)
Linked-drop es zero xs l = l
Linked-drop es (suc i) [] l = tt
Linked-drop es (suc i) (x ∷ []) l = Linked-drop es i [] tt
Linked-drop es (suc i) (x ∷ y ∷ ys) l = Linked-drop es i (y ∷ ys) l.1

pub drop-snoc :
    (i : ℕ) (xs : List Str) (d y : Str)
    → get_elem? xs i ≡ some d
    → (mid : List Str) × (drop i xs ≡ d ∷ mid) × (drop i (xs ++ y ∷ []) ≡ drop i xs ++ y ∷ [])
drop-snoc i [] d y h = cc
drop-snoc zero (x ∷ xs) d y h = let same : x ≡ d = cc in (xs, ap (λ z. z ∷ xs) same, refl)
drop-snoc (suc i) (x ∷ xs) d y h = drop-snoc i xs d y h

pub get_elem?-snoc_left :
    (xs : List Str) (i : ℕ) (d y : Str)
    → get_elem? xs i ≡ some d
    → get_elem? (xs ++ y ∷ []) i ≡ some d
get_elem?-snoc_left [] i d y h = cc
get_elem?-snoc_left (x ∷ xs) zero d y h = h
get_elem?-snoc_left (x ∷ xs) (suc i) d y h = get_elem?-snoc_left xs i d y h

pub get_elem?-snoc_last : (xs : List Str) (y : Str) → get_elem? (xs ++ y ∷ []) (length xs) ≡ some y
get_elem?-snoc_last [] y = refl
get_elem?-snoc_last (x ∷ xs) y = get_elem?-snoc_last xs y

-- A walk that comes back to its start.
abbrev pub IsCycle : Edges → List Str → Type 0
IsCycle es c = (d : Str) × (mid : List Str) × (c ≡ d ∷ mid ++ d ∷ []) × Linked es c

-- A list of names, none twice, is not longer than a list that holds them all.
pub length_at_most :
    (xs ys : List Str)
    → ((s : Str) → count s xs ≤ 1)
    → All (λ x. has ys x ≡ true) xs
    → length xs ≤ length ys
length_at_most xs ys once a =
    omega (arith, hits_at_least xs ys a, hits-swap xs ys, hits_at_most ys xs once)

-- The scan, where some dependency is not visited.
abbrev pub Scanned : List Str → List (Str × ℕ) → List Str → Type 0
Scanned visited seen ds =
    (d : Str) × (has ds d ≡ true)
    × (has visited d ≡ false)
    × (next_dep visited seen ds ≡ found_of (lookup d seen) d)

pub next_dep-Scanned :
    (visited : List Str) (seen : List (Str × ℕ)) (ds : List Str) (e : Str)
    → has ds e ≡ true
    → has visited e ≡ false
    → Scanned visited seen ds
unfolding next_dep has
next_dep-Scanned visited seen [] e h v = cc
next_dep-Scanned visited seen (d ∷ ds) e h v = elim (Bool-cases (has visited d)) [
  | inl b ↦
      let (d', i, n, out) = next_dep-Scanned visited seen ds e (ground (arith, eqs_iff d e)) v in
      (d', ground arith, n, rw b out)
  | inr b ↦ (d, ground (arith, eqs_refl d), b, rw b refl)
]
