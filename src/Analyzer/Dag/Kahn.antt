-- ===== src/Analyzer/Dag/Kahn.antt =====
-- The levels that kahnSort finds, with enough fuel: pkg/analyzer/dag.go.
use crosscodex.Prelude.{
  ℕ, suc, ◌+◌, ◌-◌, ◌≤◌, ◌<◌, ◌≡◌, refl, Bool, true, false, ◌&&◌, List, [], ◌∷◌, ◌++◌, length, ◌==◌,
  ltb, if◌then◌else◌, All, arith,
}
use crosscodex.Prelude.Str.{Str, eqs_iff}
use crosscodex.Prelude.Eq.{str_eq}
use crosscodex.Prelude.Maps.{lookup}
use crosscodex.Prelude.Sets.{has, has-append}
use crosscodex.Prelude.Sort.{sort}
use crosscodex.Prelude.Counting.{
  count, hits, count-append, count-sort, hits-append, hits-swap, hits_at_most, hits-nil,
}
use crosscodex.Analyzer.Dag.{
  deps_of, Edges, pos, degree_of, keys, Degrees, dependents, visit_level, count_all_down,
  edge_degrees, zero_degrees, roots,
}
use crosscodex.Analyzer.Dag.Degrees.{lookup-absent, initial_degree, initial_queue}
use crosscodex.Analyzer.Dag.Level.{
  successors_of, count-successors_of, visit_level-count_all_down, count_all_down-result, Counted,
}

abbrev pub concat : List (List Str) → List Str
concat [] = []
concat (l ∷ ls) = l ++ concat ls

-- Each name of a level has all its dependencies in `done` or in the levels before.
abbrev pub Layered : Edges → List Str → List (List Str) → Type 0
Layered es done [] = Unit
Layered es done (l ∷ ls) =
    All (λ n. All (λ d. has done d ≡ true) (deps_of n es)) l × Layered es (done ++ l) ls

-- The names that are not in the order yet.
abbrev pub left : List Str → List Str → ℕ
left [] order = 0
left (n ∷ ns) order = let rest = left ns order in if has order n then rest else suc rest

pub left-nil : (ns : List Str) → left ns [] ≡ length ns
unfolding has
left-nil [] = refl
left-nil (n ∷ ns) = omega (arith, left-nil ns)

pub left-append_le : (ns xs ys : List Str) → left ns (xs ++ ys) ≤ left ns xs
left-append_le [] xs ys = omega arith
left-append_le (n ∷ ns) xs ys = ground (arith, left-append_le ns xs ys, has-append xs ys n)

pub left-append_lt :
    (ns xs ys : List Str) (q : Str)
    → 1 ≤ count q ns
    → has xs q ≡ false
    → has ys q ≡ true
    → left ns (xs ++ ys) < left ns xs
left-append_lt [] xs ys q m a b = omega arith
left-append_lt (n ∷ ns) xs ys q m a b =
    ground
      (arith, left-append_lt ns xs ys q, left-append_le ns xs ys, has-append xs ys n, eqs_iff n q)

module _ (names : List Str) (es : Edges) (once : (j : Str) → count j (keys es) ≤ 1)
    (same : (j : Str) → count j (keys es) ≡ count j names) where
  -- All dependencies of a name that is to be sorted are done.
  abbrev pub ready : List Str → Str → Bool
  ready done j = hits (deps_of j es) done == length (deps_of j es) && ltb 0 (count j names)

  pub record IsFrontier (m : Degrees) (queue order : List Str) : Type 0 where
    pub counted :
        (j : Str) → degree_of (lookup j m) ≡ pos (length (deps_of j es) - hits (deps_of j es) order)
    pub listed : (j : Str) → count j order + count j queue ≡ (if ready order j then 1 else 0)

  pub start-IsFrontier :
      IsFrontier
        (edge_degrees es (zero_degrees names []))
        (sort (roots (edge_degrees es (zero_degrees names []))))
        []
  start-IsFrontier = record {
    counted = λ j. ground (arith, initial_degree j names es (once j), hits-nil (deps_of j es));
    listed = λ j. ground (
      arith,
      initial_queue j names es (once j) (same j),
      count-sort j (roots (edge_degrees es (zero_degrees names []))),
      hits-nil (deps_of j es),
    );
  }

  pub listed_once :
      {m : Degrees} {queue order : List Str}
      → IsFrontier m queue order
      → (j : Str) → count j (order ++ queue) ≤ 1
  listed_once {m} {queue} {order} w j = ground (arith, w.listed j, count-append j order queue)

  visits :
      (m : Degrees) (queue order : List Str) (j : Str)
      → IsFrontier m queue order
      → hits (deps_of j es) order + hits queue (deps_of j es) ≤ length (deps_of j es)
  visits m queue order j w = omega (
    arith,
    hits-append (deps_of j es) order queue,
    hits-swap (deps_of j es) queue,
    hits_at_most (deps_of j es) (order ++ queue) (listed_once w),
  )

  -- What the counts after a level say of the name `j`.
  level_at :
      (m : Degrees) (queue order : List Str) (j : Str) (after : Degrees × List Str)
      → IsFrontier m queue order
      → Counted j
          (length (deps_of j es) - hits (deps_of j es) order)
          (successors_of (dependents es []) queue)
          []
          after
      → (degree_of (lookup j after.0)
          ≡ pos (length (deps_of j es) - hits (deps_of j es) (order ++ queue)))
        × (count j (order ++ queue) + count j after.1 ≡ (if ready (order ++ queue) j then 1 else 0))
  level_at m queue order j after w c =
      let visited = count-successors_of j es queue (once j) in
      let split = hits-append (deps_of j es) order queue in
      let swapped = hits-swap (deps_of j es) queue in
      let fits = visits m queue order j w in
      let known = same j in
      (
        ground (arith, c.0),
        ground (arith, c.1, w.listed j, count-append j order queue, lookup-absent j es),
      )

  pub level-IsFrontier :
      (m : Degrees) (queue order : List Str)
      → IsFrontier m queue order
      → IsFrontier
          (visit_level (dependents es []) queue (m, [])).0
          (sort (visit_level (dependents es []) queue (m, [])).1)
          (order ++ queue)
  level-IsFrontier m queue order w =
      let ds = successors_of (dependents es []) queue in
      let at = λ (j : Str). level_at m queue order j (count_all_down ds (m, [])) w (
        count_all_down-result j _ ds [] m (w.counted j)
          (omega (arith, count-successors_of j es queue (once j), visits m queue order j w))) in
      rw (visit_level-count_all_down (dependents es []) queue (m, [])) (record {
        counted = λ j. (at j).0;
        listed = λ j. rw (count-sort j (count_all_down ds (m, [])).1) (at j).1;
      })
