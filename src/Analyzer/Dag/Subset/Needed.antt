-- ===== src/Analyzer/Dag/Subset/Needed.antt =====
-- The walk of DAG.Subset collects the dependencies, direct and indirect: pkg/analyzer/dag.go.
use crosscodex.Prelude.{
  ℕ, zero, suc, ◌≤◌, ◌<◌, ◌≡◌, refl, ap, ◌∙◌, subst, true, false, List, [], ◌∷◌, ◌++◌, Option, some,
  Bool-cases, inl, inr, All, All-mono, arith,
}
use crosscodex.Prelude.Str.{Str, eqs, eqs_iff, eqs_refl}
use crosscodex.Prelude.Eq.{str_eq}
use crosscodex.Prelude.Sets.{has, has-append}
use crosscodex.Prelude.Counting.{count, has-count, count-append}
use crosscodex.Analyzer.Dag.{Edges, deps_of, names_of, keys}
use crosscodex.Analyzer.Dag.Degrees.{lookup-absent}
use crosscodex.Analyzer.Dag.Kahn.{left, left-append_le, left-append_lt}
use crosscodex.Analyzer.Dag.Subset.{each_name, collect}

abbrev pub IsClosedUnder : Edges → (Str → Type 0) → Type 0
IsClosedUnder es P = (x d : Str) → P x → has (deps_of x es) d ≡ true → P d

pub All_members {κ} :
    {P : Str → Type κ} (xs : List Str) → ((x : Str) → has xs x ≡ true → P x) → All P xs
unfolding has
All_members [] f = tt
All_members (x ∷ xs) f =
    (f x (ground (arith, eqs_refl x)), All_members xs (λ y h. f y (ground arith)))

has_counted : (x : Str) (xs : List Str) → has xs x ≡ true → 1 ≤ count x xs
has_counted x xs h = ground (arith, has-count x xs)

has_alone : (x : Str) → has (x ∷ []) x ≡ true
unfolding has
has_alone x = ground (arith, eqs_refl x)

no_deps : (x : Str) (es : Edges) → has (keys es) x ≡ false → deps_of x es ≡ []
no_deps x es h = ap names_of (lookup-absent x es (ground (arith, has-count x (keys es))))

each_name-cons :
    (walk : Str → List Str → Option (List Str)) (n : Str) (ns from : List Str) {mid : List Str}
    → walk n from ≡ some mid
    → each_name walk (n ∷ ns) from ≡ each_name walk ns mid
unfolding each_name
each_name-cons walk n ns from out = rw (out, each_name) refl

each_name-nil :
    (walk : Str → List Str → Option (List Str)) (from : List Str) {ns : List Str}
    → ns ≡ []
    → each_name walk ns from ≡ some from
unfolding each_name
each_name-nil walk from e = ap (λ xs. each_name walk xs from) e

collect-held :
    (fuel : ℕ) (es : Edges) (name : Str) (from : List Str)
    → has from name ≡ true
    → collect (suc fuel) es name from ≡ some from
unfolding collect
collect-held fuel es name from b = rw (b, collect) refl

collect-new :
    (fuel : ℕ) (es : Edges) (name : Str) (from : List Str)
    → has from name ≡ false
    → collect (suc fuel) es name from
      ≡ each_name (collect fuel es) (deps_of name es) (from ++ name ∷ [])
unfolding collect
collect-new fuel es name from b = rw (b, collect) refl

module _ (es : Edges) (P : Str → Type 0) (closed_P : IsClosedUnder es P) where
  -- From one set of names to a larger one: what is new has the property and has its dependencies.
  pub record Grows (from to : List Str) : Type 0 where
    pub keeps : (x : Str) → has from x ≡ true → has to x ≡ true
    pub closed :
        (x : Str) → has to x ≡ true → has from x ≡ false → All (λ d. has to d ≡ true) (deps_of x es)
    pub sound : (x : Str) → has to x ≡ true → has from x ≡ false → P x
    pub once : ((j : Str) → count j from ≤ 1) → (j : Str) → count j to ≤ 1
    pub less : left (keys es) to ≤ left (keys es) from

  Grows-refl : (from : List Str) → Grows from from
  Grows-refl from = record {
    keeps = λ x h. h;
    closed = λ x h n. cc;
    sound = λ x h n. cc;
    once = λ h. h;
    less = omega arith;
  }

  Grows-trans : (a b c : List Str) → Grows a b → Grows b c → Grows a c
  Grows-trans a b c g h = record {
    keeps = λ x i. h.keeps x (g.keeps x i);
    closed = λ x i n. elim (Bool-cases (has b x)) [
      | inl j ↦
          All-mono (λ d. has b d ≡ true) (λ d. has c d ≡ true) (deps_of x es) h.keeps
            (g.closed x j n)
      | inr j ↦ h.closed x i j
    ];
    sound = λ x i n. elim (Bool-cases (has b x)) [ inl j ↦ g.sound x j n | inr j ↦ h.sound x i j ];
    once = λ i. h.once (g.once i);
    less = omega (arith, g.less, h.less);
  }

  -- The new name stands in the set, and then its dependencies are collected.
  Grows-add :
      (name : Str) (from to : List Str)
      → has from name ≡ false
      → P name
      → All (λ d. has to d ≡ true) (deps_of name es)
      → Grows (from ++ name ∷ []) to
      → Grows from to × (has to name ≡ true)
  unfolding has
  Grows-add name from to new p deps g =
      let added = has-append from (name ∷ []) in
      let itself = eqs_refl name in
      let held = g.keeps name (ground (arith, added name)) in
      (
        record {
          keeps = λ x h. g.keeps x (ground (arith, added x));
          closed = λ x h n. elim (Bool-cases (eqs name x)) [
            | inl b ↦
                subst (λ y. All (λ d. has to d ≡ true) (deps_of y es)) ((eqs_iff name x).0 b) deps
            | inr b ↦ g.closed x h (ground (arith, added x))
          ];
          sound = λ x h n. elim (Bool-cases (eqs name x)) [
            | inl b ↦ subst P ((eqs_iff name x).0 b) p
            | inr b ↦ g.sound x h (ground (arith, added x))
          ];
          once = λ h. g.once (λ j.
              ground
                (arith, h j, count-append j from (name ∷ []), has-count j from, eqs_iff name j));
          less = omega (arith, g.less, left-append_le (keys es) from (name ∷ []));
        },
        held,
      )

  abbrev Collects : (Str → List Str → Option (List Str)) → Str → List Str → Type 0
  Collects walk name from =
      (to : List Str) × (walk name from ≡ some to) × Grows from to × (has to name ≡ true)

  pub each_name-Grows :
      (walk : Str → List Str → Option (List Str)) (fuel : ℕ)
      → ((name : Str) (from : List Str)
          → P name
          → left (keys es) from < fuel
          → Collects walk name from)
      → (names from : List Str) → All P names
      → left (keys es) from < fuel
      → (to : List Str) × (each_name walk names from ≡ some to)
        × Grows from to
        × All (λ n. has to n ≡ true) names
  unfolding each_name
  each_name-Grows walk fuel step [] from ps le = (from, refl, Grows-refl from, tt)
  each_name-Grows walk fuel step (n ∷ ns) from ps le =
      let (mid, out, g, held) = step n from ps.0 le in
      let (to, outs, h, all_held) =
        each_name-Grows walk fuel step ns mid ps.1 (omega (arith, g.less)) in
      (
        to,
        each_name-cons walk n ns from out ∙ outs,
        Grows-trans from mid to g h,
        (h.keeps n held, all_held),
      )

  deps-P : (name : Str) → P name → All P (deps_of name es)
  deps-P name p = All_members (deps_of name es) (λ d h. closed_P name d p h)

  pub collect-Grows :
      (fuel : ℕ) (name : Str) (from : List Str)
      → P name
      → left (keys es) from < fuel
      → Collects (collect fuel es) name from
  collect-Grows zero name from p le = let no : ⊥ = omega arith in elim no [ ]
  collect-Grows (suc fuel) name from p le = elim (Bool-cases (has from name)) [
    | inl b ↦ (from, collect-held fuel es name from b, Grows-refl from, b)
    | inr b ↦ elim (Bool-cases (has (keys es) name)) [
      | inl k ↦
          let (to, out, g, held) =
            each_name-Grows (collect fuel es) fuel (collect-Grows fuel) (deps_of name es)
              (from ++ name ∷ []) (deps-P name p)
              (omega (
                arith,
                left-append_lt (keys es) from (name ∷ []) name (has_counted name (keys es) k) b
                    (has_alone name),
              )) in
          let (grown, there_too) = Grows-add name from to b p held g in
          (to, collect-new fuel es name from b ∙ out, grown, there_too)
      | inr k ↦
          let none_of = no_deps name es k in
          let (grown, there_too) =
            Grows-add name from (from ++ name ∷ []) b p (rw none_of tt)
              (Grows-refl (from ++ name ∷ [])) in
          (
            from ++ name ∷ [],
            collect-new fuel es name from b
                ∙ each_name-nil (collect fuel es) (from ++ name ∷ []) none_of,
            grown,
            there_too,
          )
    ]
  ]
