-- ===== src/Analyzer/Dag/Build.antt =====
-- BuildDAG: pkg/analyzer/dag.go. The registered analyzers are the entries of the registry's map.
use crosscodex.Prelude.{not, List, [], ◌∷◌, Option, none, some, length, ◌==◌, if◌then◌else◌}
use mathlib.Core.Option
use crosscodex.Prelude.Str.{Str}
use crosscodex.Prelude.Eq.{str_eq}
use crosscodex.Prelude.Maps.{lookup}
use crosscodex.Prelude.Result.{Result, ok, err}
use crosscodex.Analyzer.Dag.{
  Analyzer, Edges, DagError, missing_dependency, cycle_detected, Dag, keys, kahn_sort, find_cycle,
}

-- The first dependency that is not registered.
unfoldable pub find_missing : List (Str × Analyzer) → List Str → Option Str
find_missing analyzers [] = none
find_missing analyzers (dep ∷ deps) =
    let rest = find_missing analyzers deps in
    elim (lookup dep analyzers) [ none ↦ some dep | some a ↦ rest ]

abbrev pub with_edge : Str → List Str → Option Str → Result DagError Edges → Result DagError Edges
with_edge name deps (some dep) rest = err (missing_dependency name dep)
with_edge name deps none (ok es) = ok ((name, deps) ∷ es)
with_edge name deps none (err e) = err e

-- The loop that validates the dependencies; it stands for no registered analyzer twice.
unfoldable pub build_edges : List (Str × Analyzer) → List (Str × Analyzer) → Result DagError Edges
unfolding find_missing
build_edges analyzers [] = ok []
build_edges analyzers ((name, a) ∷ rest) =
    with_edge name a.depends_on (find_missing analyzers a.depends_on) (build_edges analyzers rest)

abbrev pub plan :
    List (Str × Analyzer)
    → Edges
    → Option (List (List Str) × List Str)
    → Option (Result DagError Dag)
plan analyzers edges none = none
plan analyzers edges (some (levels, order)) =
    if not (length order == length analyzers)
    then Option.map (λ text. err (cycle_detected text)) (find_cycle (keys analyzers) edges order)
    else some (ok (record { levels = levels; order = order; edges = edges; nodes = analyzers }))

abbrev pub build_from : List (Str × Analyzer) → Result DagError Edges → Option (Result DagError Dag)
build_from analyzers (err e) = some (err e)
build_from analyzers (ok edges) = plan analyzers edges (kahn_sort (keys analyzers) edges)

unfoldable pub build_dag : List (Str × Analyzer) → Option (Result DagError Dag)
unfolding build_edges kahn_sort find_cycle
build_dag analyzers = build_from analyzers (build_edges analyzers analyzers)
