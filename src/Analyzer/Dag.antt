-- ===== src/Analyzer/Dag.antt =====
-- Execution plans from the dependencies of analyzers: pkg/analyzer/dag.go. A Go map is a list of its
-- entries in the order in which it is ranged over, which the theorems do not fix. Telemetry and the
-- copies of slices are left out. The loops over levels and over a cycle run on fuel.
pub mod Degrees
pub mod Level
pub mod Kahn
pub mod Sorted
pub mod Cycle
pub mod Walk
pub mod Build
pub mod Plans
pub mod Stuck
pub mod Verdict
pub mod Acyclic
pub mod Subset
use crosscodex.Prelude.{
  ℕ, zero, suc, ◌≡◌, refl, Bool, true, false, not, List, [], ◌∷◌, ◌++◌, map, Option, none, some,
  length, ◌==◌, if◌then◌else◌, drop,
}
use mathlib.Core.Option
use crosscodex.Prelude.Str.{Str, codes, eqs}
use crosscodex.Prelude.Eq.{str_eq}
use crosscodex.Prelude.Maps.{lookup, insert}
use crosscodex.Prelude.Result.{Result, ok, err}
use crosscodex.Prelude.Sets.{has, add_all}
use crosscodex.Prelude.Sort.{sort}

-- What the plan asks of a RegisteredAnalyzer.
pub record Analyzer : Type 0 where
  pub name : Str
  pub depends_on : List Str

abbrev pub Edges : Type 0
Edges = List (Str × List Str)

pub data DagError : Type 0 where
  missing_dependency : Str → Str → DagError
  cycle_detected : Str → DagError
  not_found : Str → DagError

pub record Dag : Type 0 where
  pub levels : List (List Str)
  pub order : List Str
  pub edges : Edges
  pub nodes : List (Str × Analyzer)

-- Go's int, as far as it is counted down here.
pub data ℤ : Type 0 where
  pos negsuc : ℕ → ℤ

abbrev pub predecessor : ℤ → ℤ
predecessor (pos zero) = negsuc 0
predecessor (pos (suc n)) = pos n
predecessor (negsuc n) = negsuc (suc n)

abbrev pub is_zero : ℤ → Bool
is_zero (pos n) = n == 0
is_zero (negsuc n) = false

-- A read of a map without the key gives the zero value.
abbrev pub degree_of : Option ℤ → ℤ
degree_of none = pos 0
degree_of (some d) = d

abbrev pub names_of : Option (List Str) → List Str
names_of none = []
names_of (some ns) = ns

abbrev pub keys {ℓ} : {A : Type ℓ} → List (Str × A) → List Str
keys [] = []
keys ((k, v) ∷ m) = k ∷ keys m

-- edges[n]
abbrev pub deps_of : Str → Edges → List Str
deps_of n edges = names_of (lookup n edges)

abbrev pub Degrees : Type 0
Degrees = List (Str × ℤ)

unfoldable pub zero_degrees : List Str → Degrees → Degrees
zero_degrees [] m = m
zero_degrees (n ∷ ns) m = zero_degrees ns (insert n (pos 0) m)

unfoldable pub edge_degrees : Edges → Degrees → Degrees
edge_degrees [] m = m
edge_degrees ((n, deps) ∷ es) m = edge_degrees es (insert n (pos (length deps)) m)

-- The names with in-degree 0.
unfoldable pub roots : Degrees → List Str
roots [] = []
roots ((n, d) ∷ m) = let rest = roots m in if is_zero d then n ∷ rest else rest

-- dependents[dep] = append(dependents[dep], name)
unfoldable pub add_dependents : Str → List Str → Edges → Edges
add_dependents name [] m = m
add_dependents name (dep ∷ deps) m =
    add_dependents name deps (insert dep (names_of (lookup dep m) ++ name ∷ []) m)

unfoldable pub dependents : Edges → Edges → Edges
unfolding add_dependents
dependents [] m = m
dependents ((name, deps) ∷ es) m = dependents es (add_dependents name deps m)

-- inDegree[dependent]--, and the dependent is next when nothing is left.
unfoldable pub count_down : Str → Degrees × List Str → Degrees × List Str
count_down name (m, next) =
    let d = predecessor (degree_of (lookup name m)) in
    (insert name d m, if is_zero d then next ++ name ∷ [] else next)

unfoldable pub count_all_down : List Str → Degrees × List Str → Degrees × List Str
unfolding count_down
count_all_down [] st = st
count_all_down (name ∷ names) st = count_all_down names (count_down name st)

unfoldable pub visit_level : Edges → List Str → Degrees × List Str → Degrees × List Str
unfolding count_all_down
visit_level successors [] st = st
visit_level successors (name ∷ queue) st =
    visit_level successors queue (count_all_down (names_of (lookup name successors)) st)

unfoldable pub sort_levels :
    ℕ
    → Edges
    → Degrees
    → List Str
    → List (List Str)
    → List Str
    → Option (List (List Str) × List Str)
unfolding visit_level
sort_levels zero successors m queue levels order = none
sort_levels (suc fuel) successors m [] levels order = some (levels, order)
sort_levels (suc fuel) successors m (name ∷ queue) levels order =
    let after = visit_level successors (name ∷ queue) (m, []) in
    sort_levels fuel successors after.0 (sort after.1) (levels ++ (name ∷ queue) ∷ [])
      (order ++ name ∷ queue)

unfoldable pub kahn_sort : List Str → Edges → Option (List (List Str) × List Str)
unfolding sort_levels zero_degrees edge_degrees roots dependents
kahn_sort [] edges = some ([], [])
kahn_sort (n ∷ ns) edges =
    let degrees = edge_degrees edges (zero_degrees (n ∷ ns) []) in
    sort_levels (suc (suc (length ns))) (dependents edges []) degrees (sort (roots degrees)) [] []

-- What the scan of the sorted dependencies of a name finds first among those not visited.
pub data Found : Type 0 where
  closed : ℕ → Str → Found
  onward : Str → Found
  dead_end : Found

abbrev pub found_of : Option ℕ → Str → Found
found_of none d = onward d
found_of (some i) d = closed i d

unfoldable pub next_dep : List Str → List (Str × ℕ) → List Str → Found
next_dep visited seen [] = dead_end
next_dep visited seen (d ∷ ds) =
    let rest = next_dep visited seen ds in
    if has visited d then rest else found_of (lookup d seen) d

-- The loop of findCycle; the names are those that formatCycle prints.
unfoldable pub walk_cycle :
    ℕ → Edges → List Str → List Str → Str → List Str → List (Str × ℕ) → Option (List Str)
unfolding next_dep
walk_cycle zero edges visited remaining current path seen = none
walk_cycle (suc fuel) edges visited remaining current path seen =
    elim (next_dep visited seen (sort (deps_of current edges))) [
      | closed i d ↦ some (drop i path ++ d ∷ [])
      | onward d ↦
          walk_cycle fuel edges visited remaining d (path ++ d ∷ []) (insert d (length path) seen)
      | dead_end ↦ some remaining
    ]

unfoldable pub unvisited : List Str → List Str → List Str
unvisited visited [] = []
unvisited visited (n ∷ ns) =
    let rest = unvisited visited ns in if has visited n then rest else n ∷ rest

abbrev arrows : List Str → Str
arrows [] = []
arrows (n ∷ ns) = codes " -> " ++ n ++ arrows ns

unfoldable pub format_cycle : List Str → Str
format_cycle [] = codes "dependency cycle detected"
format_cycle (n ∷ ns) = n ++ arrows ns

abbrev pub cycle_from : ℕ → Edges → List Str → List Str → Option Str
cycle_from fuel edges visited [] = some (codes "dependency cycle detected (unknown nodes)")
cycle_from fuel edges visited (start ∷ rest) =
    Option.map format_cycle
      (walk_cycle fuel edges visited (start ∷ rest) start (start ∷ []) ((start, 0) ∷ []))

unfoldable pub find_cycle : List Str → Edges → List Str → Option Str
unfolding walk_cycle unvisited format_cycle
find_cycle names edges visited =
    cycle_from (suc (length names)) edges visited (sort (unvisited visited names))
