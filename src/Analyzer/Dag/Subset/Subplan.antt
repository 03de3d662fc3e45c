-- ===== src/Analyzer/Dag/Subset/Subplan.antt =====
-- DAG.Subset plans the named analyzers and what they need: pkg/analyzer/dag.go.
use crosscodex.Prelude.{
  suc, ◌≤◌, ◌<◌, ◌≡◌, ◌↔◌, refl, sym, ap, ◌∙◌, subst, true, false, List, [], ◌∷◌, ◌++◌, none, some,
  length, ◌==◌, ltb, Bool-cases, Option-cases, inl, inr, All, arith, ==_iff,
}
use crosscodex.Prelude.Str.{Str}
use crosscodex.Prelude.Eq.{str_eq}
use crosscodex.Prelude.Maps.{lookup}
use crosscodex.Prelude.Result.{ok}
use crosscodex.Prelude.Sets.{has}
use crosscodex.Prelude.Counting.{count, has-count, All-has}
use crosscodex.Analyzer.Dag.{Analyzer, Edges, Dag, deps_of, keys, kahn_sort}
use crosscodex.Analyzer.Dag.Build.{build_dag}
use crosscodex.Analyzer.Dag.Kahn.{concat, Layered, left, left-nil}
use crosscodex.Analyzer.Dag.Sorted.{IsSorted, kahn_sort-IsSorted}
use crosscodex.Analyzer.Dag.Cycle.{Linked}
use crosscodex.Analyzer.Dag.Stuck.{full_order, find_cycle-IsCycle}
use crosscodex.Analyzer.Dag.Plans.{Analyzers, no_key}
use crosscodex.Analyzer.Dag.Verdict.{IsPlan, length-keys, differ}
use crosscodex.Analyzer.Dag.Acyclic.{plan-acyclic, built-IsPlan}
use crosscodex.Analyzer.Dag.Subset.{
  collect, find_unknown, sub_nodes, sub_edges, sub_dag, subset_of, subset_checked, subset,
}
use crosscodex.Analyzer.Dag.Subset.Needed.{Grows, each_name-Grows, collect-Grows, All_members}
use crosscodex.Analyzer.Dag.Subset.Induced.{
  keys-sub_nodes, keys-sub_edges, sub_edges-registered, Linked-within, Layered-within,
}

-- The names that were asked for, and all that these depend on, directly or not.
pub data Needed (es : Edges) (names : List Str) : Str → Type 0 where
  asked : {x : Str} → has names x ≡ true → Needed es names x
  through :
      {x : Str} (y : Str) → Needed es names y → has (deps_of y es) x ≡ true → Needed es names x

-- A plan of the needed names, each once and after its dependencies in the whole plan.
pub record IsSubplan (dag : Dag) (names : List Str) (sub : Dag) : Type 0 where
  pub layers : Layered dag.edges [] sub.levels
  pub flat : concat sub.levels ≡ sub.order
  pub once : (j : Str) → count j sub.order ≤ 1
  pub members : (j : Str) → (has sub.order j ≡ true) ↔ Needed dag.edges names j

has-nil : (x : Str) → has [] x ≡ false
unfolding has
has-nil x = refl

all_known :
    (nodes : List (Str × Analyzer)) (names : List Str)
    → All (λ n. has (keys nodes) n ≡ true) names
    → find_unknown nodes names ≡ none
unfolding find_unknown
all_known nodes [] a = refl
all_known nodes (n ∷ names) a = elim (Option-cases (lookup n nodes)) [
  | inl e ↦ let no = no_key n nodes e in let yes = a.0 in cc
  | inr (v, e) ↦ rw (e, find_unknown) (all_known nodes names a.1)
]

module _ (analyzers : Analyzers) (dag : Dag) (p : IsPlan analyzers dag) (names : List Str)
    (needed : List Str)
    (g : Grows dag.edges (Needed dag.edges names) (λ x d n h. through x n h) [] needed)
    (held : All (λ n. has needed n ≡ true) names) where
  needed-closed :
      (x : Str) → has needed x ≡ true → All (λ d. has needed d ≡ true) (deps_of x dag.edges)
  needed-closed x h = g.closed x h (has-nil x)

  abbrev edges : Edges
  edges = sub_edges dag.edges needed needed

  needed_once : (j : Str) → count j needed ≤ 1
  needed_once = g.once (λ j. omega arith)

  edges_once : (j : Str) → count j (keys edges) ≤ 1
  edges_once j = rw (keys-sub_edges dag.edges needed needed) (needed_once j)

  edges_same : (j : Str) → count j (keys edges) ≡ count j needed
  edges_same j = ap (count j) (keys-sub_edges dag.edges needed needed)

  has-Needed : (j : Str) → (has needed j ≡ true) ↔ Needed dag.edges names j
  has-Needed j = (λ h. g.sound j h (has-nil j), reached j)
    where
      reached : (x : Str) → Needed dag.edges names x → has needed x ≡ true
      reached x (asked h) = All-has (λ n. has needed n ≡ true) names x held h
      reached x (through y n h) =
          All-has (λ d. has needed d ≡ true) (deps_of y dag.edges) x (needed-closed y (reached y n))
            h

  module _ (ls : List (List Str)) (os : List Str)
      (w : IsSorted needed edges edges_once edges_same ls os) where
    all_sorted : length os ≡ length needed
    all_sorted = elim (Bool-cases (length os == length needed)) [
      | inl b ↦ (==_iff (length os) (length needed)).0 b
      | inr b ↦
          let (c, out, (d, mid, same, links)) =
            find_cycle-IsCycle needed edges edges_once edges_same
              (sub_edges-registered dag.edges needed) ls os w (differ b) in
          elim (plan-acyclic analyzers dag dag.edges d mid p p.mirrors (
            Linked-within dag.edges needed needed-closed ((d ∷ mid) ++ d ∷ [])
              (subst (Linked edges) same links))) [ ]
    ]

    order-needed : (j : Str) → count j os ≡ count j needed
    order-needed =
        full_order needed edges edges_once edges_same (sub_edges-registered dag.edges needed) ls os
          w all_sorted

    order-has : (j : Str) → has os j ≡ has needed j
    order-has j = has-count j os ∙ ap (ltb 0) (order-needed j) ∙ sym (has-count j needed)

    sorted-IsSubplan :
        IsSubplan dag names
          (record { levels = ls; order = os; edges = edges; nodes = sub_nodes dag.nodes needed })
    sorted-IsSubplan = record {
      layers =
          Layered-within dag.edges needed needed-closed [] ls
            (λ n h. sym (order-has n) ∙ ap (λ xs. has xs n) (sym w.flat) ∙ h) w.layers;
      flat = w.flat;
      once = λ j. rw (order-needed j) (needed_once j);
      members = λ j. rw (order-has j) (has-Needed j);
    }

enough_fuel :
    (analyzers : Analyzers) (dag : Dag)
    → IsPlan analyzers dag
    → left (keys dag.edges) [] < suc (length dag.nodes)
enough_fuel analyzers dag p =
    let edges_to_nodes = ap length p.edge_keys ∙ length-keys analyzers in
    omega (arith, left-nil (keys dag.edges), ap length p.nodes_kept)

-- For a plan that BuildDAG returned for analyzers under distinct names, and names that are all
-- registered, Subset returns, with its fuel, a plan of exactly the names that were asked for and
-- those that they depend on, directly or not: each stands once and after its dependencies.
pub subset-IsSubplan :
    (analyzers : Analyzers) (dag : Dag) (names : List Str)
    → ((j : Str) → count j (keys analyzers) ≤ 1)
    → build_dag analyzers ≡ some (ok dag)
    → All (λ n. has (keys analyzers) n ≡ true) names
    → (sub : Dag) × (subset dag names ≡ some (ok sub)) × IsSubplan dag names sub
unfolding subset
subset-IsSubplan analyzers dag names distinct built known =
    let p = built-IsPlan analyzers dag distinct built in
    let es = dag.edges in
    let steps =
      λ (x d : Str) (n : Needed es names x) (h : has (deps_of x es) d ≡ true). through x n h in
    let fuel = suc (length dag.nodes) in
    let (needed, walked, g, held) =
      each_name-Grows es (Needed es names) steps (collect fuel es) fuel
        (collect-Grows es (Needed es names) steps fuel) names []
        (All_members names (λ x h. asked h)) (enough_fuel analyzers dag p) in
    let once = edges_once analyzers dag p names needed g held in
    let same = edges_same analyzers dag p names needed g held in
    let (ls, os, sorted, w) = kahn_sort-IsSorted (sub_edges es needed needed) once needed same in
    let all_there = all_known dag.nodes names (rw p.nodes_kept known) in
    (
      _,
      ap (subset_checked dag names) all_there
          ∙ ap (subset_of dag) walked
          ∙ ap
              (λ ns.
                sub_dag (sub_nodes dag.nodes needed) (sub_edges es needed needed)
                  (kahn_sort ns (sub_edges es needed needed)))
              (keys-sub_nodes dag.nodes needed)
          ∙ ap (sub_dag (sub_nodes dag.nodes needed) (sub_edges es needed needed)) sorted,
      sorted-IsSubplan analyzers dag p names needed g held ls os w,
    )
