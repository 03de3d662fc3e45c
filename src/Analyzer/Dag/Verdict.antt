-- ===== src/Analyzer/Dag/Verdict.antt =====
-- BuildDAG plans, or names a missing dependency, or names a cycle: pkg/analyzer/dag.go.
use crosscodex.Prelude.{
  ℕ, suc, ◌≤◌, ◌≡◌, ◌≢◌, refl, sym, ap, ◌∙◌, subst, false, List, [], ◌∷◌, some, length, ◌==◌,
  Bool-cases, inl, inr, arith, ==_iff,
}
use crosscodex.Prelude.Str.{Str}
use crosscodex.Prelude.Eq.{str_eq}
use crosscodex.Prelude.Maps.{lookup}
use crosscodex.Prelude.Result.{Result, ok, err}
use crosscodex.Prelude.Counting.{count}
use crosscodex.Analyzer.Dag.{Edges, DagError, cycle_detected, Dag, deps_of, keys, format_cycle}
use crosscodex.Analyzer.Dag.Build.{plan, build_from, build_dag}
use crosscodex.Analyzer.Dag.Kahn.{concat, Layered}
use crosscodex.Analyzer.Dag.Sorted.{IsSorted, kahn_sort-IsSorted}
use crosscodex.Analyzer.Dag.Cycle.{IsCycle}
use crosscodex.Analyzer.Dag.Stuck.{full_order, find_cycle-IsCycle}
use crosscodex.Analyzer.Dag.Plans.{Analyzers, depends, IsEdges, IsMissing, build_edges-cases}

pub length-keys : {A : Type 0} (m : List (Str × A)) → length (keys m) ≡ length m
length-keys [] = refl
length-keys (e ∷ m) = ap suc (length-keys m)

pub differ : {m n : ℕ} → (m == n) ≡ false → m ≢ n
differ {m} {n} b = ground arith

-- The edges are the analyzers' dependencies.
abbrev pub Mirrors : Analyzers → Edges → Type 0
Mirrors analyzers es = (j : Str) → deps_of j es ≡ depends (lookup j analyzers)

-- A plan in which each registered analyzer stands once, after all that it depends on.
pub record IsPlan (analyzers : Analyzers) (dag : Dag) : Type 0 where
  pub nodes_kept : dag.nodes ≡ analyzers
  pub edge_keys : keys dag.edges ≡ keys analyzers
  pub mirrors : Mirrors analyzers dag.edges
  pub layers : Layered dag.edges [] dag.levels
  pub flat : concat dag.levels ≡ dag.order
  pub each_once : (j : Str) → count j dag.order ≡ count j (keys analyzers)

pub data Verdict (analyzers : Analyzers) (r : Result DagError Dag) : Type 0 where
  planned : (dag : Dag) → r ≡ ok dag → IsPlan analyzers dag → Verdict analyzers r
  missing : (e : DagError) → r ≡ err e → IsMissing analyzers analyzers e → Verdict analyzers r
  cyclic :
      (es : Edges) (c : List Str)
      → Mirrors analyzers es
      → IsCycle es c
      → r ≡ err (cycle_detected (format_cycle c))
      → Verdict analyzers r

module _ (analyzers : Analyzers) (distinct : (j : Str) → count j (keys analyzers) ≤ 1) where
  module _ (es : Edges) (e : IsEdges analyzers analyzers es) where
    keys_once : (j : Str) → count j (keys es) ≤ 1
    keys_once j = subst (λ ks. count j ks ≤ 1) (sym e.same_keys) (distinct j)

    keys_same : (j : Str) → count j (keys es) ≡ count j (keys analyzers)
    keys_same j = ap (count j) e.same_keys

    module _ (ls : List (List Str)) (os : List Str)
        (w : IsSorted (keys analyzers) es keys_once keys_same ls os) where
      sorted_dag : Dag
      sorted_dag = record { levels = ls; order = os; edges = es; nodes = analyzers }

      sorted_dag-IsPlan : length os ≡ length analyzers → IsPlan analyzers sorted_dag
      unfolding sorted_dag
      sorted_dag-IsPlan full = record {
        nodes_kept = refl;
        edge_keys = e.same_keys;
        mirrors = e.same_deps;
        layers = w.layers;
        flat = w.flat;
        each_once =
            full_order (keys analyzers) es keys_once keys_same e.registered ls os w
              (full ∙ sym (length-keys analyzers));
      }

      plan-Verdict :
          (r : Result DagError Dag) × (plan analyzers es (some (ls, os)) ≡ some r)
          × Verdict analyzers r
      unfolding sorted_dag
      plan-Verdict = elim (Bool-cases (length os == length analyzers)) [
        | inl b ↦ (
          ok sorted_dag,
          rw b refl,
          planned sorted_dag refl (sorted_dag-IsPlan ((==_iff (length os) (length analyzers)).0 b)),
        )
        | inr b ↦
            let (c, out, cycle) =
              find_cycle-IsCycle (keys analyzers) es keys_once keys_same e.registered ls os w
                (λ same. differ b (same ∙ length-keys analyzers)) in
            (
              err (cycle_detected (format_cycle c)),
              rw (b, out) refl,
              cyclic es c e.same_deps cycle refl,
            )
      ]

  -- BuildDAG, run on registered analyzers under distinct names, with its fuel, returns a result: a
  -- plan in which each analyzer stands once and after its dependencies, or a missing dependency of
  -- an analyzer, or the text of a cycle of dependencies.
  pub build_dag-Verdict :
      (r : Result DagError Dag) × (build_dag analyzers ≡ some r) × Verdict analyzers r
  unfolding build_dag
  build_dag-Verdict = elim (build_edges-cases analyzers analyzers) [
    | inl (es, out, e) ↦
        let (ls, os, sorted, w) =
          kahn_sort-IsSorted es (keys_once es e) (keys analyzers) (keys_same es e) in
        let (r, planned_as, v) = plan-Verdict es e ls os w in
        (r, ap (build_from analyzers) out ∙ ap (plan analyzers es) sorted ∙ planned_as, v)
    | inr (e, out, m) ↦ (err e, ap (build_from analyzers) out, missing e refl m)
  ]
