-- ===== src/Analyzer/Registry/Plans.antt =====
-- Plans of the analyzers that Register stored: pkg/analyzer/registry.go and dag.go.
use crosscodex.Prelude.{◌≡◌, true, List, [], some, All}
use crosscodex.Prelude.Str.{Str}
use crosscodex.Prelude.Result.{Result, ok}
use crosscodex.Prelude.Sets.{has}
use crosscodex.Analyzer.Dag.{Analyzer, Edges, DagError, Dag, keys}
use crosscodex.Analyzer.Dag.Build.{build_dag}
use crosscodex.Analyzer.Dag.Cycle.{IsCycle}
use crosscodex.Analyzer.Dag.Verdict.{Mirrors, Verdict, build_dag-Verdict}
use crosscodex.Analyzer.Dag.Acyclic.{build_dag-acyclic}
use crosscodex.Analyzer.Dag.Subset.{subset}
use crosscodex.Analyzer.Dag.Subset.Subplan.{IsSubplan, subset-IsSubplan}
use crosscodex.Analyzer.Registry.{Registry, register_all}
use crosscodex.Analyzer.Registry.Names.{register_all-IsRegistry}

module _ (calls : List Analyzer) where
  abbrev pub registered : Registry
  registered = register_all calls []

  -- After any calls of Register on a new registry, BuildDAG returns, with its fuel: a plan in which
  -- each registered analyzer stands once and after all that it depends on, or the name of a
  -- registered analyzer with a dependency that is not registered, or the text of a cycle of
  -- dependencies, each name of which depends on the next one.
  pub registered-Verdict :
      (r : Result DagError Dag) × (build_dag registered ≡ some r) × Verdict registered r
  registered-Verdict = build_dag-Verdict registered (register_all-IsRegistry calls).once

  -- Where BuildDAG returns a plan after calls of Register on a new registry, the dependencies of
  -- the registered analyzers have no cycle.
  pub registered-acyclic :
      (dag : Dag) (es : Edges) (c : List Str)
      → build_dag registered ≡ some (ok dag)
      → Mirrors registered es
      → ¬ (IsCycle es c)
  registered-acyclic dag es c =
      build_dag-acyclic registered dag es c (register_all-IsRegistry calls).once

  -- For a plan that BuildDAG returned after calls of Register on a new registry, and names that are
  -- all registered, Subset returns, with its fuel, a plan of exactly these names and all that they
  -- depend on, directly or not: each stands once and after its dependencies.
  pub registered-subset :
      (dag : Dag) (names : List Str)
      → build_dag registered ≡ some (ok dag)
      → All (λ n. has (keys registered) n ≡ true) names
      → (sub : Dag) × (subset dag names ≡ some (ok sub)) × IsSubplan dag names sub
  registered-subset dag names =
      subset-IsSubplan registered dag names (register_all-IsRegistry calls).once
