-- ===== src/Analyzer/Dag/Acyclic.antt =====
-- Analyzers whose dependencies have a cycle get no plan: pkg/analyzer/dag.go.
use crosscodex.Prelude.{
  ◌≤◌, ◌≡◌, refl, sym, ap, ◌∙◌, subst, true, false, List, [], ◌∷◌, ◌++◌, some, some-injective,
  Bool-cases, inl, inr, All, arith, Option-cases,
}
use crosscodex.Prelude.Str.{Str, eqs, eqs_iff, eqs_refl}
use crosscodex.Prelude.Eq.{str_eq}
use crosscodex.Prelude.Maps.{lookup}
use crosscodex.Prelude.Result.{Result, ok}
use crosscodex.Prelude.Sets.{has, has-append}
use crosscodex.Prelude.Counting.{count, has-count, All-has}
use crosscodex.Analyzer.Dag.{Edges, DagError, Dag, deps_of, keys}
use crosscodex.Analyzer.Dag.Build.{build_dag}
use crosscodex.Analyzer.Dag.Kahn.{concat, Layered}
use crosscodex.Analyzer.Dag.Cycle.{IsCycle, Linked}
use crosscodex.Analyzer.Dag.Plans.{Analyzers, depends, has_key_of}
use crosscodex.Analyzer.Dag.Verdict.{Mirrors, IsPlan, planned, missing, cyclic, build_dag-Verdict}

-- A member depends on a member.
abbrev Turns : Edges → List Str → Type 0
Turns es c =
    (x : Str) → has c x ≡ true → (y : Str) × (has (deps_of x es) y ≡ true) × (has c y ≡ true)

next_dependency :
    (es : Edges) (xs : List Str) (z x : Str)
    → Linked es (xs ++ z ∷ [])
    → has xs x ≡ true
    → (y : Str) × (has (deps_of x es) y ≡ true) × (has (xs ++ z ∷ []) y ≡ true)
unfolding has
next_dependency es [] z x l h = cc
next_dependency es (w ∷ []) z x l h =
    let same : w ≡ x = ground (arith, eqs_iff w x) in
    (z, ap (λ u. has (deps_of u es) z) (sym same) ∙ l.0, ground (arith, eqs_refl z))
next_dependency es (w ∷ v ∷ xs) z x l h = elim (Bool-cases (eqs w x)) [
  | inl b ↦
      let same = (eqs_iff w x).0 b in
      (v, ap (λ u. has (deps_of u es) v) (sym same) ∙ l.0, ground (arith, eqs_refl v))
  | inr b ↦ let (y, i, j) = next_dependency es (v ∷ xs) z x l.1 (rw b at h) in (y, i, ground arith)
]

cycle-Turns :
    (es : Edges) (d : Str) (mid : List Str) → Linked es ((d ∷ mid) ++ d ∷ []) → Turns es (d ∷ mid)
unfolding has
cycle-Turns es d mid l x h =
    let (y, i, j) = next_dependency es (d ∷ mid) d x l h in
    (y, i, ground (arith, has-append (d ∷ mid) (d ∷ []) y))

module _ (es : Edges) (c : List Str) (turns : Turns es c) where
  level_unreached :
      (done l : List Str)
      → ((x : Str) → has c x ≡ true → has done x ≡ false)
      → All (λ n. All (λ d. has done d ≡ true) (deps_of n es)) l
      → (x : Str) → has c x ≡ true
      → has l x ≡ false
  level_unreached done l out a x h = elim (Bool-cases (has l x)) [
    | inr b ↦ b
    | inl b ↦
        let (y, i, j) = turns x h in
        let in_done =
          All-has (λ d. has done d ≡ true) (deps_of x es) y
            (All-has (λ n. All (λ d. has done d ≡ true) (deps_of n es)) l x a b) i in
        let not_done = out y j in cc
  ]

  unreached :
      (done : List Str) (ls : List (List Str))
      → Layered es done ls
      → ((x : Str) → has c x ≡ true → has done x ≡ false)
      → (x : Str) → has c x ≡ true
      → has (concat ls) x ≡ false
  unfolding has
  unreached done [] l out x h = refl
  unreached done (k ∷ ls) l out x h =
      let level = level_unreached done k out l.0 in
      let later =
        unreached (done ++ k) ls l.1
          (λ y i. ground (arith, has-append done k y, out y i, level y i)) x h in
      ground (arith, has-append k (concat ls) x, level x h)

same_plan : (r : Result DagError Dag) {a b : Dag} → r ≡ ok a → r ≡ ok b → a ≡ b
same_plan r e f = cc

depends_key :
    (analyzers : Analyzers) (x y : Str)
    → has (depends (lookup x analyzers)) y ≡ true
    → has (keys analyzers) x ≡ true
unfolding has
depends_key analyzers x y h = elim (Option-cases (lookup x analyzers)) [
  | inl e ↦ let no : false ≡ true = rw e at h in cc
  | inr (a, e) ↦ has_key_of x analyzers e
]

Turns-same :
    (es fs : Edges) (c : List Str)
    → ((j : Str) → deps_of j es ≡ deps_of j fs)
    → Turns es c
    → Turns fs c
Turns-same es fs c e t x h = let (y, i, j) = t x h in (y, ap (λ ds. has ds y) (sym (e x)) ∙ i, j)

pub plan-acyclic :
    (analyzers : Analyzers) (dag : Dag) (es : Edges) (d : Str) (mid : List Str)
    → IsPlan analyzers dag
    → Mirrors analyzers es
    → Linked es ((d ∷ mid) ++ d ∷ [])
    → ⊥
unfolding has
plan-acyclic analyzers dag es d mid p mirrors l =
    let turns = cycle-Turns es d mid l in
    let first : has (d ∷ mid) d ≡ true = ground (arith, eqs_refl d) in
    let (y, i, _) = turns d first in
    let key = depends_key analyzers d y (subst (λ ds. has ds y ≡ true) (mirrors d) i) in
    let turns' = Turns-same es dag.edges (d ∷ mid) (λ j. mirrors j ∙ sym (p.mirrors j)) turns in
    let out = unreached dag.edges (d ∷ mid) turns' [] dag.levels p.layers (λ x h. refl) d first in
    let out' : has dag.order d ≡ false = subst (λ os. has os d ≡ false) p.flat out in
    let no : ⊥ =
      ground (arith, p.each_once d, has-count d dag.order, has-count d (keys analyzers)) in
    no

pub built-IsPlan :
    (analyzers : Analyzers) (dag : Dag)
    → ((j : Str) → count j (keys analyzers) ≤ 1)
    → build_dag analyzers ≡ some (ok dag)
    → IsPlan analyzers dag
built-IsPlan analyzers dag distinct built =
    let (r, out, v) = build_dag-Verdict analyzers distinct in
    let result : r ≡ ok dag = some-injective r (ok dag) (sym out ∙ built) in
    elim v [
      | planned dag' e p ↦
          let same : dag' ≡ dag = same_plan r e result in subst (IsPlan analyzers) same p
      | missing e e' m ↦ let no = sym e' ∙ result in cc
      | cyclic es' c' m i e' ↦ let no = sym e' ∙ result in cc
    ]

-- Analyzers under distinct names, for which BuildDAG returns a plan, have no cycle of dependencies.
pub build_dag-acyclic :
    (analyzers : Analyzers) (dag : Dag) (es : Edges) (c : List Str)
    → ((j : Str) → count j (keys analyzers) ≤ 1)
    → build_dag analyzers ≡ some (ok dag)
    → Mirrors analyzers es
    → ¬ (IsCycle es c)
build_dag-acyclic analyzers dag es c distinct built mirrors (d, mid, same, links) =
    plan-acyclic analyzers dag es d mid (built-IsPlan analyzers dag distinct built) mirrors
      (subst (Linked es) same links)
