-- ===== src/Analyzer/Dag/Level.antt =====
-- What one level of kahnSort does to the in-degrees and the next queue: pkg/analyzer/dag.go.
use crosscodex.Prelude.{
  ℕ, zero, suc, ◌+◌, ◌-◌, ◌≤◌, ◌≡◌, refl, sym, ap, ◌∙◌, true, false, ◌&&◌, List, [], ◌∷◌, ◌++◌,
  ◌==◌, ltb, if◌then◌else◌, Bool-cases, inl, inr, arith,
}
use crosscodex.Prelude.Str.{Str, eqs, eqs_iff, eqs_refl}
use crosscodex.Prelude.Eq.{str_eq}
use crosscodex.Prelude.Maps.{lookup, lookup-insert}
use crosscodex.Prelude.Counting.{count, hits, count-append}
use crosscodex.Analyzer.Dag.{
  deps_of, Edges, pos, predecessor, degree_of, keys, Degrees, dependents, count_down,
  count_all_down, visit_level,
}
use crosscodex.Analyzer.Dag.Degrees.{count-dependents}

-- The names that a level counts down, in their order.
abbrev pub successors_of : Edges → List Str → List Str
successors_of successors [] = []
successors_of successors (q ∷ qs) = deps_of q successors ++ successors_of successors qs

count_all_down-append :
    (xs ys : List Str) (st : Degrees × List Str)
    → count_all_down (xs ++ ys) st ≡ count_all_down ys (count_all_down xs st)
unfolding count_all_down
count_all_down-append [] ys st = refl
count_all_down-append (x ∷ xs) ys st = count_all_down-append xs ys (count_down x st)

pub visit_level-count_all_down :
    (successors : Edges) (qs : List Str) (st : Degrees × List Str)
    → visit_level successors qs st ≡ count_all_down (successors_of successors qs) st
unfolding visit_level count_all_down
visit_level-count_all_down successors [] st = refl
visit_level-count_all_down successors (q ∷ qs) st =
    visit_level-count_all_down successors qs (count_all_down (deps_of q successors) st)
    ∙ sym (count_all_down-append (deps_of q successors) (successors_of successors qs) st)

-- The dependencies of `j` that a level visits count `j` down once each.
pub count-successors_of :
    (j : Str) (es : Edges) (qs : List Str)
    → count j (keys es) ≤ 1
    → count j (successors_of (dependents es []) qs) ≡ hits qs (deps_of j es)
unfolding lookup
count-successors_of j es [] h = refl
count-successors_of j es (q ∷ qs) h = omega (
  arith,
  count-append j (deps_of q (dependents es [])) (successors_of (dependents es []) qs),
  count-dependents j q es [] h,
  count-successors_of j es qs h,
)

count_down-other :
    (d j : Str) (next : List Str) (m : Degrees)
    → eqs d j ≡ false
    → (degree_of (lookup j (count_down d (m, next)).0) ≡ degree_of (lookup j m))
      × (count j (count_down d (m, next)).1 ≡ count j next)
unfolding count_down
count_down-other d j next m ne =
    let d' = predecessor (degree_of (lookup d m)) in
    (ground (arith, lookup-insert d j d' m), ground (arith, count-append j next (d ∷ [])))

count_down-same :
    (j : Str) (k : ℕ) (next : List Str) (m : Degrees)
    → degree_of (lookup j m) ≡ pos (suc k)
    → (degree_of (lookup j (count_down j (m, next)).0) ≡ pos k)
      × (count j (count_down j (m, next)).1 ≡ count j next + (if k == 0 then 1 else 0))
unfolding count_down
count_down-same j k next m h = (
  ground (arith, lookup-insert j j (predecessor (degree_of (lookup j m))) m, eqs_refl j),
  ground (arith, count-append j next (j ∷ []), eqs_refl j),
)

-- Counting `j` down from `k`, at most `k` times: it is next, once, if and when it gets to 0.
abbrev pub Counted : Str → ℕ → List Str → List Str → Degrees × List Str → Type 0
Counted j k ds next after =
    (degree_of (lookup j after.0) ≡ pos (k - count j ds))
    × (count j after.1 ≡ count j next + (if ltb 0 (count j ds) && count j ds == k then 1 else 0))

Counted-other :
    (j d : Str) (k : ℕ) (ds next next' : List Str) (after : Degrees × List Str)
    → eqs d j ≡ false
    → count j next' ≡ count j next
    → Counted j k ds next' after
    → Counted j k (d ∷ ds) next after
Counted-other j d k ds next next' after ne same c = (ground (arith, c.0), ground (arith, c.1))

Counted-same :
    (j d : Str) (k : ℕ) (ds next next' : List Str) (after : Degrees × List Str)
    → eqs d j ≡ true
    → count j ds ≤ k
    → count j next' ≡ count j next + (if k == 0 then 1 else 0)
    → Counted j k ds next' after
    → Counted j (suc k) (d ∷ ds) next after
Counted-same j d k ds next next' after e le same c = (ground (arith, c.0), ground (arith, c.1))

-- The first name is the one that is counted.
count_same :
    (j : Str) (k : ℕ) (d : Str) (ds next : List Str) (m : Degrees)
    → degree_of (lookup j m) ≡ pos k
    → eqs d j ≡ true
    → suc (count j ds) ≤ k
    → ((k' : ℕ) (m' : Degrees) (next' : List Str)
        → degree_of (lookup j m') ≡ pos k'
        → count j ds ≤ k'
        → Counted j k' ds next' (count_all_down ds (m', next')))
    → Counted j k (d ∷ ds) next (count_all_down (d ∷ ds) (m, next))
unfolding count_all_down
count_same j zero d ds next m h e le rest = let none_such : ⊥ = omega arith in elim none_such [ ]
count_same j (suc k) d ds next m h e le rest =
    let same : d ≡ j = (eqs_iff d j).0 e in
    let (one_less, one_more) =
      count_down-same d k next m (ap (λ x. degree_of (lookup x m)) same ∙ h) in
    let (m', next') = count_down d (m, next) in
    let less : count j ds ≤ k = omega arith in
    Counted-same j d k ds next next' _ e less
      (ap (λ x. count x next') (sym same)
        ∙ one_more
        ∙ ap (λ x. count x next + (if k == 0 then 1 else 0)) same)
      (rest k m' next' (ap (λ x. degree_of (lookup x m')) (sym same) ∙ one_less) less)

pub count_all_down-result :
    (j : Str) (k : ℕ) (ds next : List Str) (m : Degrees)
    → degree_of (lookup j m) ≡ pos k
    → count j ds ≤ k
    → Counted j k ds next (count_all_down ds (m, next))
unfolding count_all_down
count_all_down-result j k [] next m h le = (ground arith, ground arith)
count_all_down-result j k (d ∷ ds) next m h le = elim (Bool-cases (eqs d j)) [
  | inl e ↦
      count_same j k d ds next m h e (rw e at le)
        (λ k' m' next' h' le'. count_all_down-result j k' ds next' m' h' le')
  | inr ne ↦
      let (same_degree, same_count) = count_down-other d j next m ne in
      let (m', next') = count_down d (m, next) in
      Counted-other j d k ds next next' _ ne same_count
        (count_all_down-result j k ds next' m' (same_degree ∙ h) (rw ne at le))
]
