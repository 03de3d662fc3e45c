-- ===== src/Analyzer/Dag/Sorted.antt =====
-- The result of kahnSort: pkg/analyzer/dag.go.
use crosscodex.Prelude.{
  ℕ, zero, suc, ◌≤◌, ◌<◌, ◌≡◌, refl, sym, ap, ◌∙◌, subst, true, List, [], ◌∷◌, ◌++◌, append-nil,
  append_assoc, some, length, if◌then◌else◌, All, arith,
}
use crosscodex.Prelude.Str.{Str, eqs_refl}
use crosscodex.Prelude.Eq.{str_eq}
use crosscodex.Prelude.Sets.{has}
use crosscodex.Prelude.Counting.{count, has-count, hits_full, All_counted}
use crosscodex.Analyzer.Dag.{deps_of, Edges, keys, Degrees, dependents, sort_levels, kahn_sort}
use crosscodex.Analyzer.Dag.Kahn.{
  concat, Layered, left, left-nil, left-append_lt, ready, IsFrontier, start-IsFrontier,
  level-IsFrontier,
}

abbrev DepsIn : Edges → List Str → Str → Type 0
DepsIn es done n = All (λ d. has done d ≡ true) (deps_of n es)

Layered-snoc :
    (es : Edges) (done : List Str) (ls : List (List Str)) (l : List Str)
    → Layered es done ls
    → All (DepsIn es (done ++ concat ls)) l
    → Layered es done (ls ++ l ∷ [])
Layered-snoc es done [] l h a = (subst (λ x. All (DepsIn es x) l) (append-nil done) a, tt)
Layered-snoc es done (k ∷ ls) l h a = (
  h.0,
  Layered-snoc es (done ++ k) ls l h.1
      (subst (λ x. All (DepsIn es x) l) (sym (append_assoc done k (concat ls))) a),
)

concat-snoc : (ls : List (List Str)) (l : List Str) → concat (ls ++ l ∷ []) ≡ concat ls ++ l
concat-snoc [] l = append-nil l
concat-snoc (k ∷ ls) l = ap (◌++◌ k) (concat-snoc ls l) ∙ sym (append_assoc k (concat ls) l)

module _ (names : List Str) (es : Edges) (once : (j : Str) → count j (keys es) ≤ 1)
    (same : (j : Str) → count j (keys es) ≡ count j names) where
  pub record IsSorted (levels : List (List Str)) (order : List Str) : Type 0 where
    pub layers : Layered es [] levels
    pub flat : concat levels ≡ order
    pub listed : (j : Str) → count j order ≡ (if ready names es once same order j then 1 else 0)

  queue-DepsIn :
      (m : Degrees) (queue order : List Str)
      → IsFrontier names es once same m queue order
      → All (DepsIn es order) queue
  queue-DepsIn m queue order w = All_counted (DepsIn es order) queue (λ j h.
      hits_full (deps_of j es) order (λ s. ground (arith, w.listed s)) (ground (arith, w.listed j)))

  fewer :
      (m : Degrees) (q : Str) (qs order : List Str)
      → IsFrontier names es once same m (q ∷ qs) order
      → left names (order ++ q ∷ qs) < left names order
  fewer m q qs order w =
      let at = w.listed q in
      let itself = eqs_refl q in
      left-append_lt names order (q ∷ qs) q (ground arith) (ground (arith, has-count q order))
        (ground (arith, has-count q (q ∷ qs)))

  loop-IsSorted :
      (fuel : ℕ) (m : Degrees) (queue : List Str) (levels : List (List Str)) (order : List Str)
      → IsFrontier names es once same m queue order
      → concat levels ≡ order
      → Layered es [] levels
      → left names order < fuel
      → (ls : List (List Str)) × (os : List Str) × (sort_levels fuel
            (dependents es [])
            m
            queue
            levels
            order
          ≡ some (ls, os))
        × IsSorted ls os
  unfolding sort_levels
  loop-IsSorted zero m queue levels order w c l less = let no : ⊥ = omega arith in elim no [ ]
  loop-IsSorted (suc fuel) m [] levels order w c l less = (
    levels,
    order,
    refl,
    record { layers = l; flat = c; listed = λ j. ground (arith, w.listed j) },
  )
  loop-IsSorted (suc fuel) m (q ∷ qs) levels order w c l less =
      let queue = q ∷ qs in
      let ready_now = subst (λ x. All (DepsIn es x) queue) (sym c) (queue-DepsIn m queue order w) in
      loop-IsSorted fuel _ _ (levels ++ queue ∷ []) (order ++ queue)
        (level-IsFrontier names es once same m queue order w)
        (concat-snoc levels queue ∙ ap (λ x. x ++ queue) c)
        (Layered-snoc es [] levels queue l ready_now) (omega (arith, fewer m q qs order w))

module _ (es : Edges) (once : (j : Str) → count j (keys es) ≤ 1) where
  -- kahnSort, with its fuel, returns levels and their order.
  pub kahn_sort-IsSorted :
      (names : List Str) (same : (j : Str) → count j (keys es) ≡ count j names)
      → (ls : List (List Str)) × (os : List Str) × (kahn_sort names es ≡ some (ls, os))
        × IsSorted names es once same ls os
  unfolding kahn_sort
  kahn_sort-IsSorted [] same =
      ([], [], refl, record { layers = tt; flat = refl; listed = λ j. ground arith })
  kahn_sort-IsSorted (n ∷ ns) same =
      loop-IsSorted (n ∷ ns) es once same (suc (suc (length ns))) _ _ [] []
        (start-IsFrontier (n ∷ ns) es once same) refl tt (omega (arith, left-nil (n ∷ ns)))
