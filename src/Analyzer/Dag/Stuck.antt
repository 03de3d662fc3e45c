-- ===== src/Analyzer/Dag/Stuck.antt =====
-- The names that kahnSort leaves out, and the cycle among them: pkg/analyzer/dag.go.
use crosscodex.Prelude.{
  ℕ, suc, ◌≤◌, ◌≡◌, refl, ap, subst, true, false, not, ◌&&◌, List, [], ◌∷◌, some, length, get_elem?,
  if◌then◌else◌, Bool-cases, inl, inr, All, arith, ◌≢◌,
}
use mathlib.Core.Option
use crosscodex.Prelude.Str.{Str, eqs, eqs_iff, eqs_refl}
use crosscodex.Prelude.Eq.{str_eq}
use crosscodex.Prelude.Maps.{lookup}
use crosscodex.Prelude.Sets.{has}
use crosscodex.Prelude.Sort.{sort}
use crosscodex.Prelude.Counting.{
  count, has-count, has-sort, count-sort, hits-swap, hits_at_most, hits_at_least, hits_full,
  hits_missing, All_counted, All-has,
}
use crosscodex.Analyzer.Dag.{Edges, deps_of, keys, find_cycle, cycle_from, unvisited, format_cycle}
use crosscodex.Analyzer.Dag.Sorted.{IsSorted}
use crosscodex.Analyzer.Dag.Cycle.{IsCycle, length_at_most}
use crosscodex.Analyzer.Dag.Walk.{IsWalk, walk_cycle-IsCycle}

count-unvisited :
    (s : Str) (visited ns : List Str)
    → count s (unvisited visited ns) ≡ (if has visited s then 0 else count s ns)
unfolding unvisited
count-unvisited s visited [] = ground arith
count-unvisited s visited (n ∷ ns) = ground (arith, count-unvisited s visited ns, eqs_iff n s)

lookup_start :
    (start d : Str) (i : ℕ)
    → lookup d ((start, 0) ∷ []) ≡ some i
    → get_elem? (start ∷ []) i ≡ some d
unfolding lookup
lookup_start start d i h = elim (Bool-cases (eqs start d)) [
  | inl b ↦
      let zeroth : 0 ≡ i = ground arith in
      subst (λ (j : ℕ). get_elem? (start ∷ []) j ≡ some d) zeroth (ap some ((eqs_iff start d).0 b))
  | inr b ↦ let no : ⊥ = ground arith in elim no [ ]
]

module _ (names : List Str) (es : Edges) (once : (j : Str) → count j (keys es) ≤ 1)
    (same : (j : Str) → count j (keys es) ≡ count j names)
    (registered : (j : Str) → All (λ d. has names d ≡ true) (deps_of j es))
    (levels : List (List Str)) (order : List Str)
    (w : IsSorted names es once same levels order) where
  order_once : (j : Str) → count j order ≤ 1
  order_once j = ground (arith, w.listed j)

  names_once : (j : Str) → count j names ≤ 1
  names_once j = omega (arith, once j, same j)

  order_named : All (λ x. has names x ≡ true) order
  order_named =
      All_counted (λ x. has names x ≡ true) order
        (λ j h. ground (arith, w.listed j, has-count j names))

  -- Where as many are sorted as there are names, each name is sorted, once.
  pub full_order : length order ≡ length names → (j : Str) → count j order ≡ count j names
  full_order e j =
      let all_in = hits_full names order order_once (
        omega (
          arith,
          hits_at_least order names order_named,
          hits-swap order names,
          hits_at_most names order order_once,
        )) in
      elim (Bool-cases (has names j)) [
        | inl b ↦ ground (
          arith,
          All-has (λ x. has order x ≡ true) names j all_in b,
          has-count j order,
          has-count j names,
          order_once j,
          names_once j,
        )
        | inr b ↦ ground (arith, has-count j names, w.listed j)
      ]

  abbrev remaining : List Str
  remaining = sort (unvisited order names)

  has-remaining : (x : Str) → has remaining x ≡ (has names x && not (has order x))
  has-remaining x = ground (
    arith,
    has-sort x (unvisited order names),
    has-count x (unvisited order names),
    count-unvisited x order names,
    has-count x names,
  )

  remaining-stuck :
      (x : Str)
      → has remaining x ≡ true
      → (e : Str) × (has (deps_of x es) e ≡ true) × (has order e ≡ false)
  remaining-stuck x h = hits_missing (deps_of x es) order (
      ground (
        arith,
        has-remaining x,
        has-count x names,
        has-count x order,
        w.listed x,
        hits_at_most (deps_of x es) order order_once,
      ))

  remaining-stays :
      (x d : Str)
      → has remaining x ≡ true
      → has (deps_of x es) d ≡ true
      → has order d ≡ false
      → has remaining d ≡ true
  remaining-stays x d h i n =
      let named = All-has (λ y. has names y ≡ true) (deps_of x es) d (registered x) i in
      ground (arith, has-remaining d)

  remaining_once : (s : Str) → count s remaining ≤ 1
  remaining_once s =
      ground
        (arith, count-sort s (unvisited order names), count-unvisited s order names, names_once s)

  remaining_named : All (λ x. has names x ≡ true) remaining
  remaining_named =
      All_counted (λ x. has names x ≡ true) remaining
        (λ j h. ground (arith, has-remaining j, has-count j remaining))

  -- Some name is left.
  not_all : remaining ≡ [] → length order ≡ length names
  unfolding has
  not_all e =
      let all_in =
        All_counted (λ x. has order x ≡ true) names
          (λ j h. ground (arith, has-count j names, rw e at (has-remaining j))) in
      omega (
        arith,
        hits_at_least names order all_in,
        hits_at_least order names order_named,
        hits-swap order names,
        hits_at_most names order order_once,
        hits_at_most order names names_once,
      )

  start-IsWalk :
      (start : Str) (rest : List Str)
      → remaining ≡ start ∷ rest
      → IsWalk es (start ∷ rest) (start ∷ []) start ((start, 0) ∷ [])
  unfolding lookup has
  start-IsWalk start rest e =
      let first : has (start ∷ rest) start ≡ true = ground (arith, eqs_refl start) in
      record {
        ends = ([], refl);
        links = tt;
        once = λ s. ground arith;
        inside = (first, tt);
        at = first;
        indexed = λ d i h. lookup_start start d i h;
        unseen = λ d h. ground arith;
      }

  names_left :
      (rs : List Str)
      → remaining ≡ rs
      → length order ≢ length names
      → (c : List Str) × (cycle_from (suc (length names)) es order rs ≡ some (format_cycle c))
        × IsCycle es c
  names_left [] e short = elim (short (not_all e)) [ ]
  names_left (start ∷ rest) e short =
      let fits : length (start ∷ rest) ≤ length names =
        subst (λ (rs : List Str). length rs ≤ length names) e
          (length_at_most remaining names remaining_once remaining_named) in
      let (c, out, cycle) =
        walk_cycle-IsCycle es order (start ∷ rest) (λ x h. remaining-stuck x (rw e h))
          (λ x d h i n. subst (λ rs. has rs d ≡ true) e (remaining-stays x d (rw e h) i n))
          (suc (length names)) (start ∷ []) start ((start, 0) ∷ []) (start-IsWalk start rest e)
          (omega arith) in
      (c, ap (Option.map format_cycle) out, cycle)

  -- Where names are left, findCycle finds a cycle.
  pub find_cycle-IsCycle :
      length order ≢ length names
      → (c : List Str) × (find_cycle names es order ≡ some (format_cycle c)) × IsCycle es c
  unfolding find_cycle
  find_cycle-IsCycle short = names_left remaining refl short
