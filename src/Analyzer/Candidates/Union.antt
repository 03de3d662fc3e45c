-- ===== src/Analyzer/Candidates/Union.antt =====
-- The union keeps the first candidate of each pair: pkg/analyzer/candidate/aggregation.go.
use crosscodex.Prelude.{
  ℕ, ◌+◌, ◌≤◌, ◌≡◌, refl, sym, ap, ◌∙◌, subst, true, false, ◌&&◌, List, [], ◌∷◌, ◌++◌, append_assoc,
  append-nil, Option, none, some, if◌then◌else◌, Bool-cases, Option-cases, inl, inr, All,
  All-append, arith,
}
use crosscodex.Prelude.Str.{Str, eqs, eqs_iff}
use crosscodex.Prelude.Eq.{str_eq}
use crosscodex.Prelude.Maps.{lookup, insert, or_else}
use crosscodex.Prelude.Join.{has_byte}
use crosscodex.Analyzer.Candidates.{
  Candidate, pair_key, key_of, add_candidates, add_sets, values, aggregate_union,
}

eqs-pair_key :
    (s t u v : Str)
    → has_byte b':' s ≡ false
    → has_byte b':' u ≡ false
    → eqs (pair_key s t) (pair_key u v) ≡ (eqs s u && eqs t v)
unfolding pair_key eqs has_byte
eqs-pair_key [] t [] v h k = ground arith
eqs-pair_key [] t (d ∷ u) v h k = ground arith
eqs-pair_key (c ∷ s) t [] v h k = ground arith
eqs-pair_key (c ∷ s) t (d ∷ u) v h k = ground (arith, eqs-pair_key s t u v)

module _ {D : Type 0} where
  -- The candidates of a source and a target, the first one.
  abbrev pub first_pair : Str → Str → List (Candidate D) → Option (Candidate D)
  first_pair s t [] = none
  first_pair s t (c ∷ cs) =
      let rest = first_pair s t cs in
      if eqs c.source_id s && eqs c.target_id t then some c else rest

  -- How many candidates there are of a source and a target.
  abbrev pub pairs : Str → Str → List (Candidate D) → ℕ
  pairs s t [] = 0
  pairs s t (c ∷ cs) =
      let rest = pairs s t cs in if eqs c.source_id s && eqs c.target_id t then 1 + rest else rest

  abbrev pub together : List (List (Candidate D)) → List (Candidate D)
  together [] = []
  together (cs ∷ sets) = cs ++ together sets

  first_pair-append :
      (s t : Str) (xs ys : List (Candidate D))
      → first_pair s t (xs ++ ys) ≡ or_else (first_pair s t xs) (first_pair s t ys)
  first_pair-append s t [] ys = refl
  first_pair-append s t (x ∷ xs) ys = ground (arith, first_pair-append s t xs ys)

  -- The source IDs have no separator in them.
  abbrev pub Plain : Candidate D → Type 0
  Plain c = has_byte b':' c.source_id ≡ false

  -- The entries stand under the keys of their pairs.
  abbrev Keyed : Str × Candidate D → Type 0
  Keyed (k, c) = (k ≡ key_of c) × Plain c

  insert_fresh :
      (c : Candidate D) (seen : List (Str × Candidate D))
      → lookup (key_of c) seen ≡ none
      → insert (key_of c) c seen ≡ seen ++ (key_of c, c) ∷ []
  unfolding lookup insert
  insert_fresh c [] h = refl
  insert_fresh c ((k, d) ∷ seen) h = elim (Bool-cases (eqs k (key_of c))) [
    | inl b ↦ let no = rw b at h in cc
    | inr b ↦ rw b (ap (λ xs. (k, d) ∷ xs) (insert_fresh c seen (rw b at h)))
  ]

  lookup-first_pair :
      (s t : Str) (seen : List (Str × Candidate D))
      → has_byte b':' s ≡ false
      → All Keyed seen
      → lookup (pair_key s t) seen ≡ first_pair s t (values seen)
  unfolding lookup
  lookup-first_pair s t [] plain a = refl
  lookup-first_pair s t ((k, c) ∷ seen) plain a =
      let key =
        ap (λ x. eqs x (pair_key s t)) a.0.0
        ∙ eqs-pair_key c.source_id c.target_id s t a.0.1 plain in
      ground (arith, lookup-first_pair s t seen plain a.1)

  values-append : (xs ys : List (Str × Candidate D)) → values (xs ++ ys) ≡ values xs ++ values ys
  values-append [] ys = refl
  values-append ((k, c) ∷ xs) ys = ap (λ cs. c ∷ cs) (values-append xs ys)

  pairs-append :
      (s t : Str) (xs ys : List (Candidate D)) → pairs s t (xs ++ ys) ≡ pairs s t xs + pairs s t ys
  pairs-append s t [] ys = omega arith
  pairs-append s t (x ∷ xs) ys = ground (arith, pairs-append s t xs ys)

  no_pairs : (s t : Str) (cs : List (Candidate D)) → first_pair s t cs ≡ none → pairs s t cs ≡ 0
  no_pairs s t [] h = refl
  no_pairs s t (c ∷ cs) h = elim (Bool-cases (eqs c.source_id s && eqs c.target_id t)) [
    | inl b ↦ let no = rw b at h in cc
    | inr b ↦ rw b (no_pairs s t cs (rw b at h))
  ]

  -- The map after some candidates: the first of each pair, once.
  record Firsts (cs : List (Candidate D)) (seen : List (Str × Candidate D)) : Type 0 where
    keyed : All Keyed seen
    same : (s t : Str) → first_pair s t (values seen) ≡ first_pair s t cs
    single : (s t : Str) → pairs s t (values seen) ≤ 1

  or_else-none : (o : Option (Candidate D)) → or_else o none ≡ o
  or_else-none none = refl
  or_else-none (some c) = refl

  at_pair :
      (c : Candidate D) (s t : Str)
      → (eqs c.source_id s && eqs c.target_id t) ≡ true
      → (c.source_id ≡ s) × (c.target_id ≡ t)
  at_pair c s t b = ground (arith, eqs_iff c.source_id s, eqs_iff c.target_id t)

  stored_pair :
      (cs : List (Candidate D)) (seen : List (Str × Candidate D)) (c : Candidate D) (s t : Str)
      → Firsts cs seen
      → Plain c
      → (eqs c.source_id s && eqs c.target_id t) ≡ true
      → first_pair s t (values seen) ≡ lookup (key_of c) seen
  stored_pair cs seen c s t w p b =
      let (same_s, same_t) = at_pair c s t b in
      ap (λ x. first_pair x t (values seen)) (sym same_s)
      ∙ ap (λ y. first_pair c.source_id y (values seen)) (sym same_t)
      ∙ sym (lookup-first_pair c.source_id c.target_id seen p w.keyed)

  add-fresh :
      (cs : List (Candidate D)) (seen : List (Str × Candidate D)) (c : Candidate D)
      → Firsts cs seen
      → Plain c
      → lookup (key_of c) seen ≡ none
      → Firsts (cs ++ c ∷ []) (insert (key_of c) c seen)
  add-fresh cs seen c w p l = subst (Firsts (cs ++ c ∷ [])) (sym (insert_fresh c seen l)) (record {
    keyed = All-append Keyed seen ((key_of c, c) ∷ []) w.keyed ((refl, p), tt);
    same = λ s t.
        ap (first_pair s t) (values-append seen ((key_of c, c) ∷ []))
        ∙ first_pair-append s t (values seen) (c ∷ [])
        ∙ ap (λ o. or_else o (first_pair s t (c ∷ []))) (w.same s t)
        ∙ sym (first_pair-append s t cs (c ∷ []));
    single = λ s t.
        let split =
          ap (pairs s t) (values-append seen ((key_of c, c) ∷ []))
          ∙ pairs-append s t (values seen) (c ∷ []) in
        let before = w.single s t in
        elim (Bool-cases (eqs c.source_id s && eqs c.target_id t)) [
          | inl b ↦
              let zero_before = no_pairs s t (values seen) (stored_pair cs seen c s t w p b ∙ l) in
              ground (arith, split, zero_before)
          | inr b ↦ ground (arith, split)
        ];
  })

  add-held :
      (cs : List (Candidate D)) (seen : List (Str × Candidate D)) (c d : Candidate D)
      → Firsts cs seen
      → Plain c
      → lookup (key_of c) seen ≡ some d
      → Firsts (cs ++ c ∷ []) seen
  add-held cs seen c d w p l = record {
    keyed = w.keyed;
    same = λ s t. w.same s t ∙ elim (Bool-cases (eqs c.source_id s && eqs c.target_id t)) [
      | inl b ↦
          let held = sym (w.same s t) ∙ stored_pair cs seen c s t w p b ∙ l in
          held
          ∙ sym (
              first_pair-append s t cs (c ∷ [])
              ∙ ap (λ o. or_else o (first_pair s t (c ∷ []))) held)
      | inr b ↦ sym (first_pair-append s t cs (c ∷ []) ∙ rw b (or_else-none (first_pair s t cs)))
    ];
    single = w.single;
  }

  add_candidates-Firsts :
      (cs before : List (Candidate D)) (seen : List (Str × Candidate D))
      → All Plain cs
      → Firsts before seen
      → Firsts (before ++ cs) (add_candidates cs seen)
  unfolding add_candidates
  add_candidates-Firsts [] before seen a w =
      subst (λ xs. Firsts xs seen) (sym (append-nil before)) w
  add_candidates-Firsts (c ∷ cs) before seen a w =
      subst (λ xs. Firsts xs (add_candidates (c ∷ cs) seen)) (append_assoc before (c ∷ []) cs)
        (add_candidates-Firsts cs (before ++ c ∷ []) _ a.1
          (elim (Option-cases (lookup (key_of c) seen)) [
            | inl l ↦ rw l (add-fresh before seen c w a.0 l)
            | inr (d, l) ↦ rw l (add-held before seen c d w a.0 l)
          ]))

  add_sets-Firsts :
      (sets : List (List (Candidate D))) (before : List (Candidate D))
      (seen : List (Str × Candidate D))
      → All (All Plain) sets
      → Firsts before seen
      → Firsts (before ++ together sets) (add_sets sets seen)
  unfolding add_sets
  add_sets-Firsts [] before seen a w = subst (λ xs. Firsts xs seen) (sym (append-nil before)) w
  add_sets-Firsts (cs ∷ sets) before seen a w =
      subst (λ xs. Firsts xs (add_sets (cs ∷ sets) seen)) (append_assoc before cs (together sets))
        (add_sets-Firsts sets (before ++ cs) _ a.1 (add_candidates-Firsts cs before seen a.0 w))

  -- Where no source ID of the candidates has a colon in it, the union has for each source and target
  -- at most one candidate, and it is the first of all that were given, if there is one.
  pub aggregate_union-first :
      (sets : List (List (Candidate D))) (s t : Str)
      → All (All Plain) sets
      → (first_pair s t (aggregate_union sets) ≡ first_pair s t (together sets))
        × (pairs s t (aggregate_union sets) ≤ 1)
  unfolding aggregate_union
  aggregate_union-first sets s t a =
      let w =
        add_sets-Firsts sets [] [] a
          (record { keyed = tt; same = λ u v. refl; single = λ u v. omega arith }) in
      (w.same s t, w.single s t)
