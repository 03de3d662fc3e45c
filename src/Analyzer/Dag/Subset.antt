-- ===== src/Analyzer/Dag/Subset.antt =====
-- DAG.Subset: pkg/analyzer/dag.go. The walk over the dependencies runs on fuel, one more than there
-- are nodes.
pub mod Needed
pub mod Induced
pub mod Subplan
use crosscodex.Prelude.{
  ℕ, zero, suc, true, false, List, [], ◌∷◌, ◌++◌, Option, none, some, length, if◌then◌else◌,
}
use crosscodex.Prelude.Str.{Str}
use crosscodex.Prelude.Eq.{str_eq}
use crosscodex.Prelude.Maps.{lookup}
use crosscodex.Prelude.Result.{Result, ok, err}
use crosscodex.Prelude.Sets.{has}
use crosscodex.Analyzer.Dag.{Analyzer, Edges, DagError, not_found, Dag, deps_of, keys, kahn_sort}

-- The calls of walk for each name of a slice.
unfoldable pub each_name :
    (Str → List Str → Option (List Str)) → List Str → List Str → Option (List Str)
each_name walk [] needed = some needed
each_name walk (n ∷ ns) needed = elim (walk n needed) [
  | none ↦ none
  | some more ↦ each_name walk ns more
]

-- walk; `needed` is the set that it adds to.
unfoldable pub collect : ℕ → Edges → Str → List Str → Option (List Str)
unfolding each_name
collect zero edges name needed = none
collect (suc fuel) edges name needed = elim (has needed name) [
  | true ↦ some needed
  | false ↦ each_name (collect fuel edges) (deps_of name edges) (needed ++ name ∷ [])
]

unfoldable pub find_unknown : List (Str × Analyzer) → List Str → Option Str
find_unknown nodes [] = none
find_unknown nodes (n ∷ ns) =
    let rest = find_unknown nodes ns in elim (lookup n nodes) [ none ↦ some n | some a ↦ rest ]

unfoldable pub keep_needed : List Str → List Str → List Str
keep_needed needed [] = []
keep_needed needed (d ∷ ds) =
    let rest = keep_needed needed ds in if has needed d then d ∷ rest else rest

-- It stands for nil, which a read of the map gives without the key.
abbrev nil_analyzer : Analyzer
nil_analyzer = record { name = []; depends_on = [] }

abbrev analyzer_or_nil : Option Analyzer → Analyzer
analyzer_or_nil none = nil_analyzer
analyzer_or_nil (some a) = a

unfoldable pub sub_nodes : List (Str × Analyzer) → List Str → List (Str × Analyzer)
sub_nodes nodes [] = []
sub_nodes nodes (n ∷ ns) = (n, analyzer_or_nil (lookup n nodes)) ∷ sub_nodes nodes ns

unfoldable pub sub_edges : Edges → List Str → List Str → Edges
unfolding keep_needed
sub_edges edges needed [] = []
sub_edges edges needed (n ∷ ns) =
    (n, keep_needed needed (deps_of n edges)) ∷ sub_edges edges needed ns

abbrev pub sub_dag :
    List (Str × Analyzer)
    → Edges
    → Option (List (List Str) × List Str)
    → Option (Result DagError Dag)
sub_dag nodes edges none = none
sub_dag nodes edges (some (levels, order)) =
    some (ok (record { levels = levels; order = order; edges = edges; nodes = nodes }))

abbrev pub subset_of : Dag → Option (List Str) → Option (Result DagError Dag)
subset_of dag none = none
subset_of dag (some needed) =
    let nodes = sub_nodes dag.nodes needed in
    let edges = sub_edges dag.edges needed needed in
    sub_dag nodes edges (kahn_sort (keys nodes) edges)

abbrev pub subset_checked : Dag → List Str → Option Str → Option (Result DagError Dag)
subset_checked dag names (some n) = some (err (not_found n))
subset_checked dag names none =
    subset_of dag (each_name (collect (suc (length dag.nodes)) dag.edges) names [])

unfoldable pub subset : Dag → List Str → Option (Result DagError Dag)
unfolding find_unknown each_name collect sub_nodes sub_edges kahn_sort
subset dag names = subset_checked dag names (find_unknown dag.nodes names)
