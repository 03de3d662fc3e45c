-- ===== src/Analyzer/Dag/Walk.antt =====
-- The loop of findCycle closes a cycle, with enough fuel: pkg/analyzer/dag.go.
use crosscodex.Prelude.{
  ℕ, zero, suc, ◌+◌, ◌≤◌, ◌<◌, ◌≡◌, refl, sym, ap, ◌∙◌, subst, true, false, List, [], ◌∷◌, ◌++◌,
  none, some, length, length-append, get_elem?, drop, Bool-cases, Option-cases, inl, inr, All,
  All-append, arith,
}
use crosscodex.Prelude.Str.{Str, eqs, eqs_iff}
use crosscodex.Prelude.Eq.{str_eq}
use crosscodex.Prelude.Maps.{lookup, insert, lookup-insert}
use crosscodex.Prelude.Sets.{has}
use crosscodex.Prelude.Sort.{sort}
use crosscodex.Prelude.Counting.{count, count-append, has-sort}
use crosscodex.Analyzer.Dag.{
  Found, Edges, deps_of, closed, onward, dead_end, found_of, next_dep, walk_cycle,
}
use crosscodex.Analyzer.Dag.Cycle.{
  Linked, Linked-snoc, Linked-drop, drop-snoc, get_elem?-snoc_left, get_elem?-snoc_last, IsCycle,
  length_at_most, next_dep-Scanned,
}

-- The walk comes back to a name that stands in its path.
closes :
    (es : Edges) (path start : List Str) (current d : Str) (i : ℕ)
    → path ≡ start ++ current ∷ []
    → Linked es path
    → has (deps_of current es) d ≡ true
    → get_elem? path i ≡ some d
    → IsCycle es (drop i path ++ d ∷ [])
closes es path start current d i ends links dep at =
    let (mid, same, snoc) = drop-snoc i path d d at in
    let longer : Linked es (path ++ d ∷ []) =
      rw ends (Linked-snoc es start current d (subst (Linked es) ends links) dep) in
    (
      d,
      mid,
      ap (λ xs. xs ++ d ∷ []) same,
      subst (Linked es) snoc (Linked-drop es i (path ++ d ∷ []) longer),
    )

module _ (es : Edges) (remaining : List Str) where
  pub record IsWalk (path : List Str) (current : Str) (seen : List (Str × ℕ)) : Type 0 where
    pub ends : (start : List Str) × (path ≡ start ++ current ∷ [])
    pub links : Linked es path
    pub once : (s : Str) → count s path ≤ 1
    pub inside : All (λ x. has remaining x ≡ true) path
    pub at : has remaining current ≡ true
    pub indexed : (d : Str) (i : ℕ) → lookup d seen ≡ some i → get_elem? path i ≡ some d
    pub unseen : (d : Str) → lookup d seen ≡ none → count d path ≡ 0

module _ (es : Edges) (visited remaining : List Str)
    (stuck : (x : Str)
      → has remaining x ≡ true
      → (e : Str) × (has (deps_of x es) e ≡ true) × (has visited e ≡ false))
    (stays : (x d : Str)
      → has remaining x ≡ true
      → has (deps_of x es) d ≡ true
      → has visited d ≡ false
      → has remaining d ≡ true) where
  onward-indexed :
      (path : List Str) (seen : List (Str × ℕ)) (d : Str)
      → ((e : Str) (i : ℕ) → lookup e seen ≡ some i → get_elem? path i ≡ some e)
      → (e : Str) (i : ℕ) → lookup e (insert d (length path) seen) ≡ some i
      → get_elem? (path ++ d ∷ []) i ≡ some e
  onward-indexed path seen d old e i h = elim (Bool-cases (eqs d e)) [
    | inl b ↦
        let same : d ≡ e = (eqs_iff d e).0 b in
        let last : length path ≡ i = ground (arith, lookup-insert d e (length path) seen) in
        subst (λ (j : ℕ). get_elem? (path ++ d ∷ []) j ≡ some e) last
          (get_elem?-snoc_last path d ∙ ap some same)
    | inr b ↦
        get_elem?-snoc_left path i e d
          (old e i (ground (arith, lookup-insert d e (length path) seen)))
  ]

  onward-IsWalk :
      (path : List Str) (current d : Str) (seen : List (Str × ℕ))
      → IsWalk es remaining path current seen
      → has (deps_of current es) d ≡ true
      → has visited d ≡ false
      → lookup d seen ≡ none
      → IsWalk es remaining (path ++ d ∷ []) d (insert d (length path) seen)
  onward-IsWalk path current d seen w dep new fresh =
      let (start, e) = w.ends in
      let here_too = stays current d w.at dep new in
      record {
        ends = (path, refl);
        links = rw e (Linked-snoc es start current d (subst (Linked es) e w.links) dep);
        once = λ s.
            ground (arith, w.once s, w.unseen d fresh, count-append s path (d ∷ []), eqs_iff d s);
        inside = All-append (λ x. has remaining x ≡ true) path (d ∷ []) w.inside (here_too, tt);
        at = here_too;
        indexed = onward-indexed path seen d w.indexed;
        unseen = λ x h.
            ground (
              arith,
              lookup-insert d x (length path) seen,
              w.unseen x,
              count-append x path (d ∷ []),
            );
      }

  walk_cycle-found :
      (fuel : ℕ) (path : List Str) (current : Str) (seen : List (Str × ℕ)) {f : Found}
      → next_dep visited seen (sort (deps_of current es)) ≡ f
      → walk_cycle (suc fuel) es visited remaining current path seen ≡ elim f [
        | closed i d ↦ some (drop i path ++ d ∷ [])
        | onward d ↦
            walk_cycle fuel es visited remaining d (path ++ d ∷ []) (insert d (length path) seen)
        | dead_end ↦ some remaining
      ]
  unfolding walk_cycle
  walk_cycle-found fuel path current seen e =
      ap
        (λ (f : Found). elim f [
          | closed i d ↦ some (drop i path ++ d ∷ [])
          | onward d ↦
              walk_cycle fuel es visited remaining d (path ++ d ∷ []) (insert d (length path) seen)
          | dead_end ↦ some remaining
        ])
        e

  pub walk_cycle-IsCycle :
      (fuel : ℕ) (path : List Str) (current : Str) (seen : List (Str × ℕ))
      → IsWalk es remaining path current seen
      → length remaining < fuel + length path
      → (c : List Str) × (walk_cycle fuel es visited remaining current path seen ≡ some c)
        × IsCycle es c
  walk_cycle-IsCycle zero path current seen w less =
      let no : ⊥ = omega (arith, length_at_most path remaining w.once w.inside) in elim no [ ]
  walk_cycle-IsCycle (suc fuel) path current seen w less =
      let (e, i, v) = stuck current w.at in
      let (d, j, n, out) =
        next_dep-Scanned visited seen (sort (deps_of current es)) e
          (has-sort e (deps_of current es) ∙ i) v in
      let dep = sym (has-sort d (deps_of current es)) ∙ j in
      elim (Option-cases (lookup d seen)) [
        | inl f ↦
            let (c, done, cycle) =
              walk_cycle-IsCycle fuel (path ++ d ∷ []) d (insert d (length path) seen)
                (onward-IsWalk path current d seen w dep n f)
                (omega (arith, length-append path (d ∷ []))) in
            (
              c,
              walk_cycle-found fuel path current seen (out ∙ ap (λ o. found_of o d) f) ∙ done,
              cycle,
            )
        | inr (k, f) ↦ (
          drop k path ++ d ∷ [],
          walk_cycle-found fuel path current seen (out ∙ ap (λ o. found_of o d) f),
          closes es path w.ends.0 current d k w.ends.1 w.links dep (w.indexed d k f),
        )
      ]
