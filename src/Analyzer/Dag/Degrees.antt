-- ===== src/Analyzer/Dag/Degrees.antt =====
-- The in-degrees and the reversed edges at the start of kahnSort: pkg/analyzer/dag.go.
use crosscodex.Prelude.{
  ℕ, zero, suc, ◌+◌, ◌≤◌, ◌≡◌, refl, ◌&&◌, List, [], ◌∷◌, ◌++◌, none, length, ◌==◌, ltb,
  if◌then◌else◌, arith,
}
use crosscodex.Prelude.Str.{Str, eqs, eqs_iff}
use crosscodex.Prelude.Eq.{str_eq}
use crosscodex.Prelude.Maps.{lookup, insert, lookup-insert}
use crosscodex.Prelude.Counting.{count, count-append}
use crosscodex.Analyzer.Dag.{
  Edges, pos, is_zero, deps_of, degree_of, names_of, keys, Degrees, zero_degrees, edge_degrees,
  roots, add_dependents, dependents,
}

-- A key that is inserted stands there once.
abbrev at_least_one : ℕ → ℕ
at_least_one zero = 1
at_least_one (suc n) = suc n

count-keys_insert :
    {A : Type 0} (j k : Str) (v : A) (m : List (Str × A))
    → count j (keys (insert k v m))
      ≡ (if eqs k j then at_least_one (count j (keys m)) else count j (keys m))
unfolding insert
count-keys_insert j k v [] = ground arith
count-keys_insert j k v ((i, w) ∷ m) =
    ground (arith, count-keys_insert j k v m, eqs_iff i k, eqs_iff i j, eqs_iff k j)

pub lookup-absent :
    {A : Type 0} (j : Str) (m : List (Str × A)) → count j (keys m) ≡ 0 → lookup j m ≡ none
unfolding lookup
lookup-absent j [] h = refl
lookup-absent j ((i, w) ∷ m) h = ground (arith, lookup-absent j m)

degree-zero_degrees :
    (j : Str) (ns : List Str) (m : Degrees)
    → degree_of (lookup j m) ≡ pos 0
    → degree_of (lookup j (zero_degrees ns m)) ≡ pos 0
unfolding zero_degrees
degree-zero_degrees j [] m h = h
degree-zero_degrees j (n ∷ ns) m h =
    degree-zero_degrees j ns (insert n (pos 0) m) (ground (arith, lookup-insert n j (pos 0) m))

keys-zero_degrees :
    (j : Str) (ns : List Str) (m : Degrees)
    → count j (keys (zero_degrees ns m))
      ≡ (if ltb 0 (count j ns) then at_least_one (count j (keys m)) else count j (keys m))
unfolding zero_degrees
keys-zero_degrees j [] m = refl
keys-zero_degrees j (n ∷ ns) m =
    ground (arith, keys-zero_degrees j ns (insert n (pos 0) m), count-keys_insert j n (pos 0) m)

degree-edge_degrees :
    (j : Str) (es : Edges) (m : Degrees)
    → count j (keys es) ≤ 1
    → degree_of (lookup j (edge_degrees es m))
      ≡ (if ltb 0 (count j (keys es)) then pos (length (deps_of j es)) else degree_of (lookup j m))
unfolding edge_degrees lookup
degree-edge_degrees j [] m h = refl
degree-edge_degrees j ((n, deps) ∷ es) m h = ground (
  arith,
  degree-edge_degrees j es (insert n (pos (length deps)) m),
  lookup-insert n j (pos (length deps)) m,
)

keys-edge_degrees :
    (j : Str) (es : Edges) (m : Degrees)
    → count j (keys (edge_degrees es m))
      ≡ (if ltb 0 (count j (keys es)) then at_least_one (count j (keys m)) else count j (keys m))
unfolding edge_degrees
keys-edge_degrees j [] m = refl
keys-edge_degrees j ((n, deps) ∷ es) m = ground (
  arith,
  keys-edge_degrees j es (insert n (pos (length deps)) m),
  count-keys_insert j n (pos (length deps)) m,
)

count-roots :
    (j : Str) (m : Degrees)
    → count j (keys m) ≤ 1
    → count j (roots m)
      ≡ (if is_zero (degree_of (lookup j m)) && ltb 0 (count j (keys m)) then 1 else 0)
unfolding roots lookup
count-roots j [] h = ground arith
count-roots j ((n, d) ∷ m) h = ground (arith, count-roots j m)

count-add_dependents :
    (j q name : Str) (deps : List Str) (m : Edges)
    → count j (deps_of q (add_dependents name deps m))
      ≡ count j (deps_of q m) + (if eqs name j then count q deps else 0)
unfolding add_dependents
count-add_dependents j q name [] m = ground arith
count-add_dependents j q name (dep ∷ deps) m = ground (
  arith,
  count-add_dependents j q name deps (insert dep (names_of (lookup dep m) ++ name ∷ []) m),
  lookup-insert dep q (names_of (lookup dep m) ++ name ∷ []) m,
  count-append j (deps_of q m) (name ∷ []),
  eqs_iff dep q,
)

-- A name stands among the dependents of another as often as that one among its dependencies.
pub count-dependents :
    (j q : Str) (es m : Edges)
    → count j (keys es) ≤ 1
    → count j (deps_of q (dependents es m)) ≡ count j (deps_of q m) + count q (deps_of j es)
unfolding dependents lookup
count-dependents j q [] m h = omega arith
count-dependents j q ((n, deps) ∷ es) m h = ground (
  arith,
  count-dependents j q es (add_dependents n deps m),
  count-add_dependents j q n deps m,
  lookup-absent j es,
)

module _ (j : Str) (names : List Str) (es : Edges) (once : count j (keys es) ≤ 1) where
  pub initial_degree :
      degree_of (lookup j (edge_degrees es (zero_degrees names []))) ≡ pos (length (deps_of j es))
  unfolding lookup
  initial_degree = ground (
    arith,
    degree-edge_degrees j es (zero_degrees names []) once,
    degree-zero_degrees j names [] refl,
    lookup-absent j es,
  )

  -- The names without dependencies are in the first queue, once each.
  pub initial_queue :
      count j (keys es) ≡ count j names
      → count j (roots (edge_degrees es (zero_degrees names [])))
        ≡ (if length (deps_of j es) == 0 && ltb 0 (count j names) then 1 else 0)
  initial_queue same = ground (
    arith,
    count-roots j (edge_degrees es (zero_degrees names [])),
    initial_degree,
    keys-edge_degrees j es (zero_degrees names []),
    keys-zero_degrees j names [],
  )
