-- ===== src/Examples/AnalyzerCases.antt =====
-- The registry of analyzers and their plans at concrete inputs: pkg/analyzer/registry.go and dag.go.
use crosscodex.Prelude.{◌≤◌, ◌≡◌, refl, true, List, [], ◌∷◌, some, All, arith, Bool, false}
use crosscodex.Prelude.Str.{codes, eqs}
use crosscodex.Prelude.Maps.{lookup, insert}
use crosscodex.Prelude.Regexp.{match_string, reps, is_lower, is_digit}
use crosscodex.Prelude.Result.{Result, ok, err}
use crosscodex.Prelude.Sets.{has}
use crosscodex.Prelude.Sort.{sort, insert_sorted, les}
use crosscodex.Prelude.Join.{has_byte}
use crosscodex.Analyzer.Candidates.{Candidate, aggregate_union}
use crosscodex.Analyzer.Candidates.Union.{Plain, first_pair, pairs, together, aggregate_union-first}
use crosscodex.Analyzer.Dag.{
  Analyzer, DagError, cycle_detected, Dag, keys, zero_degrees, edge_degrees, roots, add_dependents,
  dependents, count_down, count_all_down, visit_level, sort_levels, kahn_sort, next_dep, walk_cycle,
  unvisited, format_cycle, find_cycle,
}
use crosscodex.Analyzer.Dag.Build.{find_missing, build_edges, build_dag}
use crosscodex.Analyzer.Dag.Cycle.{IsCycle}
use crosscodex.Analyzer.Dag.Verdict.{Mirrors, Verdict}
use crosscodex.Analyzer.Dag.Subset.{subset}
use crosscodex.Analyzer.Dag.Subset.Subplan.{IsSubplan}
use crosscodex.Analyzer.Registry.{register, register_all, validate_name, name_class, last_class}
use crosscodex.Analyzer.Registry.Names.{IsRegistry, register_all-IsRegistry}
use crosscodex.Analyzer.Registry.Plans.{
  registered, registered-Verdict, registered-acyclic, registered-subset,
}

abbrev embed : Analyzer
embed = record { name = codes "embed"; depends_on = [] }

abbrev rank : Analyzer
rank = record { name = codes "rank"; depends_on = codes "embed" ∷ [] }

abbrev loop : Analyzer
loop = record { name = codes "loop"; depends_on = codes "loop" ∷ [] }

abbrev two : List Analyzer
two = rank ∷ embed ∷ []

two_registered : registered two ≡ (codes "rank", rank) ∷ (codes "embed", embed) ∷ []
unfolding register_all register validate_name name_class last_class match_string reps is_lower
    is_digit lookup insert eqs
two_registered = refl

abbrev two_plan : Dag
two_plan = record {
  levels = (codes "embed" ∷ []) ∷ (codes "rank" ∷ []) ∷ [];
  order = codes "embed" ∷ codes "rank" ∷ [];
  edges = (codes "rank", codes "embed" ∷ []) ∷ (codes "embed", []) ∷ [];
  nodes = (codes "rank", rank) ∷ (codes "embed", embed) ∷ [];
}

plan_of_two : build_dag ((codes "rank", rank) ∷ (codes "embed", embed) ∷ []) ≡ some (ok two_plan)
unfolding build_dag build_edges find_missing kahn_sort sort_levels visit_level count_all_down
    count_down dependents add_dependents roots edge_degrees zero_degrees lookup insert eqs sort
    insert_sorted les
plan_of_two = refl

-- A cycle is reported.
loop_reported :
    build_dag ((codes "loop", loop) ∷ []) ≡ some (err (cycle_detected (codes "loop -> loop")))
unfolding build_dag build_edges find_missing kahn_sort sort_levels visit_level count_all_down
    count_down dependents add_dependents roots edge_degrees zero_degrees lookup insert eqs sort
    insert_sorted les find_cycle format_cycle unvisited walk_cycle next_dep has
loop_reported = refl

two_built : build_dag (registered two) ≡ some (ok two_plan)
two_built = rw two_registered plan_of_two

register_all-IsRegistry_example : IsRegistry (register_all two [])
register_all-IsRegistry_example = register_all-IsRegistry two

registered-Verdict_example :
    (r : Result DagError Dag) × (build_dag (registered two) ≡ some r) × Verdict (registered two) r
registered-Verdict_example = registered-Verdict two

listed-Mirrors : Mirrors ((codes "rank", rank) ∷ (codes "embed", embed) ∷ []) two_plan.edges
unfolding lookup
listed-Mirrors j = ground arith

two-Mirrors : Mirrors (registered two) two_plan.edges
two-Mirrors = rw two_registered listed-Mirrors

two_known : All (λ n. has (keys (registered two)) n ≡ true) (codes "rank" ∷ [])
unfolding has eqs
two_known = rw two_registered (refl, tt)

registered-acyclic_example : ¬ (IsCycle two_plan.edges (codes "rank" ∷ codes "rank" ∷ []))
registered-acyclic_example =
    registered-acyclic two two_plan two_plan.edges (codes "rank" ∷ codes "rank" ∷ []) two_built
      two-Mirrors

registered-subset_example :
    (sub : Dag) × (subset two_plan (codes "rank" ∷ []) ≡ some (ok sub))
    × IsSubplan two_plan (codes "rank" ∷ []) sub
registered-subset_example = registered-subset two two_plan (codes "rank" ∷ []) two_built two_known

abbrev near : Candidate Bool
near = record { source_id = codes "ac-1"; target_id = codes "ia-2"; detail = true }

abbrev far : Candidate Bool
far = record near { detail = false }

abbrev generators : List (List (Candidate Bool))
generators = (near ∷ []) ∷ (far ∷ []) ∷ []

generators-Plain : All (All Plain) generators
unfolding has_byte
generators-Plain = ((refl, tt), ((refl, tt), tt))

aggregate_union-first_example :
    (first_pair (codes "ac-1") (codes "ia-2") (aggregate_union generators)
      ≡ first_pair (codes "ac-1") (codes "ia-2") (together generators))
    × (pairs (codes "ac-1") (codes "ia-2") (aggregate_union generators) ≤ 1)
aggregate_union-first_example =
    aggregate_union-first generators (codes "ac-1") (codes "ia-2") generators-Plain
