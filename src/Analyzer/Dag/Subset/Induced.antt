-- ===== src/Analyzer/Dag/Subset/Induced.antt =====
-- The edges of a subset that holds the dependencies of its names: pkg/analyzer/dag.go.
use crosscodex.Prelude.{
  ◌≡◌, refl, ap, ◌∙◌, subst, true, false, List, [], ◌∷◌, ◌++◌, if◌then◌else◌, Bool-cases, inl, inr,
  All, arith,
}
use crosscodex.Prelude.Str.{Str, eqs, eqs_iff, eqs_refl}
use crosscodex.Prelude.Eq.{str_eq}
use crosscodex.Prelude.Maps.{lookup}
use crosscodex.Prelude.Sets.{has, has-append}
use crosscodex.Analyzer.Dag.{Analyzer, Edges, deps_of, keys}
use crosscodex.Analyzer.Dag.Kahn.{concat, Layered}
use crosscodex.Analyzer.Dag.Cycle.{Linked}
use crosscodex.Analyzer.Dag.Subset.{keep_needed, sub_nodes, sub_edges}

pub keys-sub_nodes :
    (nodes : List (Str × Analyzer)) (ns : List Str) → keys (sub_nodes nodes ns) ≡ ns
unfolding sub_nodes
keys-sub_nodes nodes [] = refl
keys-sub_nodes nodes (n ∷ ns) = ap (λ ks. n ∷ ks) (keys-sub_nodes nodes ns)

pub keys-sub_edges : (es : Edges) (needed ns : List Str) → keys (sub_edges es needed ns) ≡ ns
unfolding sub_edges
keys-sub_edges es needed [] = refl
keys-sub_edges es needed (n ∷ ns) = ap (λ ks. n ∷ ks) (keys-sub_edges es needed ns)

keep_needed_all :
    (needed ds : List Str) → All (λ d. has needed d ≡ true) ds → keep_needed needed ds ≡ ds
unfolding keep_needed
keep_needed_all needed [] a = refl
keep_needed_all needed (d ∷ ds) a = rw a.0 (ap (λ xs. d ∷ xs) (keep_needed_all needed ds a.1))

keep_needed-All : (needed ds : List Str) → All (λ d. has needed d ≡ true) (keep_needed needed ds)
unfolding keep_needed
keep_needed-All needed [] = tt
keep_needed-All needed (d ∷ ds) = elim (Bool-cases (has needed d)) [
  | inl b ↦ rw b (b, keep_needed-All needed ds)
  | inr b ↦ rw b (keep_needed-All needed ds)
]

deps_of-sub_edges :
    (es : Edges) (needed ns : List Str) (j : Str)
    → deps_of j (sub_edges es needed ns)
      ≡ (if has ns j then keep_needed needed (deps_of j es) else [])
unfolding sub_edges lookup has
deps_of-sub_edges es needed [] j = refl
deps_of-sub_edges es needed (n ∷ ns) j = elim (Bool-cases (eqs n j)) [
  | inl b ↦ rw b (ap (λ x. keep_needed needed (deps_of x es)) ((eqs_iff n j).0 b))
  | inr b ↦ rw b (deps_of-sub_edges es needed ns j)
]

pub sub_edges-registered :
    (es : Edges) (needed : List Str) (j : Str)
    → All (λ d. has needed d ≡ true) (deps_of j (sub_edges es needed needed))
sub_edges-registered es needed j = elim (Bool-cases (has needed j)) [
  | inl b ↦ rw (deps_of-sub_edges es needed needed j, b) (keep_needed-All needed (deps_of j es))
  | inr b ↦ rw (deps_of-sub_edges es needed needed j, b) tt
]

module _ (es : Edges) (needed : List Str)
    (closed : (x : Str) → has needed x ≡ true → All (λ d. has needed d ≡ true) (deps_of x es)) where
  pub sub_edges_same :
      (x : Str) → has needed x ≡ true → deps_of x (sub_edges es needed needed) ≡ deps_of x es
  sub_edges_same x h =
      deps_of-sub_edges es needed needed x
      ∙ rw h (keep_needed_all needed (deps_of x es) (closed x h))

  sub_edges_within :
      (x y : Str)
      → has (deps_of x (sub_edges es needed needed)) y ≡ true
      → has (deps_of x es) y ≡ true
  unfolding has
  sub_edges_within x y h = elim (Bool-cases (has needed x)) [
    | inl b ↦ subst (λ ds. has ds y ≡ true) (sub_edges_same x b) h
    | inr b ↦
        let none_of : deps_of x (sub_edges es needed needed) ≡ [] =
          deps_of-sub_edges es needed needed x ∙ rw b refl in
        let no : false ≡ true = subst (λ ds. has ds y ≡ true) none_of h in cc
  ]

  pub Linked-within : (xs : List Str) → Linked (sub_edges es needed needed) xs → Linked es xs
  Linked-within [] l = tt
  Linked-within (x ∷ []) l = tt
  Linked-within (x ∷ y ∷ ys) l = (sub_edges_within x y l.0, Linked-within (y ∷ ys) l.1)

  level-within :
      (done l : List Str)
      → ((n : Str) → has l n ≡ true → has needed n ≡ true)
      → All (λ n. All (λ d. has done d ≡ true) (deps_of n (sub_edges es needed needed))) l
      → All (λ n. All (λ d. has done d ≡ true) (deps_of n es)) l
  unfolding has
  level-within done [] f a = tt
  level-within done (n ∷ l) f a = (
    subst (All (λ d. has done d ≡ true)) (sub_edges_same n (f n (ground (arith, eqs_refl n)))) a.0,
    level-within done l (λ m h. f m (ground arith)) a.1,
  )

  pub Layered-within :
      (done : List Str) (ls : List (List Str))
      → ((n : Str) → has (concat ls) n ≡ true → has needed n ≡ true)
      → Layered (sub_edges es needed needed) done ls
      → Layered es done ls
  Layered-within done [] f l = tt
  Layered-within done (k ∷ ls) f l = (
    level-within done k (λ n h. f n (ground (arith, has-append k (concat ls) n))) l.0,
    Layered-within (done ++ k) ls (λ n h. f n (ground (arith, has-append k (concat ls) n))) l.1,
  )
