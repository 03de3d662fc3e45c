-- ===== src/Analyzer/Dag/Plans.antt =====
-- What BuildDAG returns: pkg/analyzer/dag.go.
use crosscodex.Prelude.{
  ◌≡◌, refl, ap, subst, true, false, List, [], ◌∷◌, Option, none, some, some-injective, In, here,
  there, Bool-cases, Option-cases, inl, inr, All, arith, ◌⊎◌,
}
use crosscodex.Prelude.Str.{Str, eqs, eqs_iff}
use crosscodex.Prelude.Eq.{str_eq}
use crosscodex.Prelude.Maps.{lookup}
use crosscodex.Prelude.Result.{ok, err}
use crosscodex.Prelude.Sets.{has}
use crosscodex.Analyzer.Dag.{Analyzer, Edges, DagError, missing_dependency, deps_of, keys}
use crosscodex.Analyzer.Dag.Build.{find_missing, build_edges}

abbrev pub Analyzers : Type 0
Analyzers = List (Str × Analyzer)

abbrev pub depends : Option Analyzer → List Str
depends none = []
depends (some a) = a.depends_on

pub has_key :
    {A : Type 0} (j : Str) (m : List (Str × A)) → has (keys m) j ≡ false → lookup j m ≡ none
unfolding has lookup
has_key j [] h = refl
has_key j ((k, v) ∷ m) h = ground (arith, has_key j m)

pub has_key_of :
    {A : Type 0} (j : Str) (m : List (Str × A)) {v : A}
    → lookup j m ≡ some v
    → has (keys m) j ≡ true
has_key_of j m h = elim (Bool-cases (has (keys m) j)) [
  | inl b ↦ b
  | inr b ↦ let no = has_key j m b in cc
]

pub no_key :
    {A : Type 0} (j : Str) (m : List (Str × A)) → lookup j m ≡ none → has (keys m) j ≡ false
unfolding has lookup
no_key j [] h = refl
no_key j ((k, v) ∷ m) h = ground (arith, no_key j m)

found_all :
    (analyzers : Analyzers) (deps : List Str)
    → find_missing analyzers deps ≡ none
    → All (λ d. has (keys analyzers) d ≡ true) deps
unfolding find_missing
found_all analyzers [] h = tt
found_all analyzers (d ∷ deps) h = elim (Option-cases (lookup d analyzers)) [
  | inl e ↦ let no = rw (e, find_missing) at h in cc
  | inr (a, e) ↦ (has_key_of d analyzers e, found_all analyzers deps (rw (e, find_missing) at h))
]

found_missing :
    (analyzers : Analyzers) (deps : List Str) (d : Str)
    → find_missing analyzers deps ≡ some d
    → (has deps d ≡ true) × (lookup d analyzers ≡ none)
unfolding find_missing has
found_missing analyzers [] d h = cc
found_missing analyzers (e ∷ deps) d h = elim (Option-cases (lookup e analyzers)) [
  | inl f ↦
      let same : e ≡ d = some-injective e d (rw (f, find_missing) at h) in
      (ground (arith, eqs_iff e d), subst (λ x. lookup x analyzers ≡ none) same f)
  | inr (a, f) ↦
      let (i, n) = found_missing analyzers deps d (rw (f, find_missing) at h) in (ground arith, n)
]

pub record IsEdges (analyzers rest : Analyzers) (es : Edges) : Type 0 where
  pub same_keys : keys es ≡ keys rest
  pub same_deps : (j : Str) → deps_of j es ≡ depends (lookup j rest)
  pub registered : (j : Str) → All (λ d. has (keys analyzers) d ≡ true) (deps_of j es)

-- Why the edges are refused: a registered analyzer depends on one that is not.
abbrev pub IsMissing : Analyzers → Analyzers → DagError → Type 0
IsMissing analyzers rest e =
    (name : Str) × (a : Analyzer) × (dep : Str) × (e ≡ missing_dependency name dep)
    × In (name, a) rest
    × (has a.depends_on dep ≡ true)
    × (lookup dep analyzers ≡ none)

pub cons-IsEdges :
    (analyzers rest : Analyzers) (name : Str) (a : Analyzer) (es : Edges)
    → find_missing analyzers a.depends_on ≡ none
    → IsEdges analyzers rest es
    → IsEdges analyzers ((name, a) ∷ rest) ((name, a.depends_on) ∷ es)
unfolding lookup
cons-IsEdges analyzers rest name a es f w = record {
  same_keys = ap (λ ks. name ∷ ks) w.same_keys;
  same_deps = λ j. ground (arith, w.same_deps j);
  registered = λ j. elim (Bool-cases (eqs name j)) [
    | inl b ↦ rw b (found_all analyzers a.depends_on f)
    | inr b ↦ rw b (w.registered j)
  ];
}

pub build_edges-cases :
    (analyzers rest : Analyzers)
    → ((es : Edges) × (build_edges analyzers rest ≡ ok es) × IsEdges analyzers rest es)
      ⊎ ((e : DagError) × (build_edges analyzers rest ≡ err e) × IsMissing analyzers rest e)
unfolding build_edges lookup
build_edges-cases analyzers [] =
    inl ([], refl, record { same_keys = refl; same_deps = λ j. refl; registered = λ j. tt })
build_edges-cases analyzers ((name, a) ∷ rest) =
    elim (Option-cases (find_missing analyzers a.depends_on)) [
      | inr (dep, f) ↦
          let (i, n) = found_missing analyzers a.depends_on dep f in
          inr (missing_dependency name dep, rw f refl, (name, a, dep, refl, here refl, i, n))
      | inl f ↦ elim (build_edges-cases analyzers rest) [
        | inl (es, out, w) ↦
            inl (
              (name, a.depends_on) ∷ es,
              rw (f, out) refl,
              cons-IsEdges analyzers rest name a es f w,
            )
        | inr (e, out, (n, b, dep, same, i, h, none_of)) ↦
            inr (e, rw (f, out) refl, (n, b, dep, same, there i, h, none_of))
      ]
    ]
