-- ===== src/Analyzer/Registry/Names.antt =====
-- What calls of Register keep: pkg/analyzer/registry.go.
use crosscodex.Prelude.{
  ◌≤◌, ◌≡◌, refl, sym, ap, subst, List, [], ◌∷◌, ◌++◌, none, All, All-append, Bool-cases,
  Option-cases, inl, inr, arith, ◌⊎◌,
}
use crosscodex.Prelude.Str.{Str, eqs, eqs_iff}
use crosscodex.Prelude.Eq.{str_eq}
use crosscodex.Prelude.Maps.{lookup, insert, lookup-insert}
use crosscodex.Prelude.Result.{ok}
use crosscodex.Prelude.Counting.{count, count-append, has-count}
use crosscodex.Analyzer.Dag.{Analyzer, keys}
use crosscodex.Analyzer.Dag.Plans.{no_key}
use crosscodex.Analyzer.Registry.{
  validate_name, Registry, register, get, after_register, register_all,
}

abbrev pub WellNamed : Str × Analyzer → Type 0
WellNamed (n, a) = (a.name ≡ n) × (validate_name n ≡ none)

-- Each name is valid, is that of its analyzer, and stands once.
pub record IsRegistry (r : Registry) : Type 0 where
  pub once : (j : Str) → count j (keys r) ≤ 1
  pub named : All WellNamed r

insert_new :
    (n : Str) (a : Analyzer) (r : Registry) → lookup n r ≡ none → insert n a r ≡ r ++ (n, a) ∷ []
unfolding lookup insert
insert_new n a [] h = refl
insert_new n a ((m, b) ∷ r) h = elim (Bool-cases (eqs m n)) [
  | inl e ↦ let no : ⊥ = ground arith in elim no [ ]
  | inr e ↦ rw e (ap (λ xs. (m, b) ∷ xs) (insert_new n a r (ground arith)))
]

keys-append : (r s : Registry) → keys (r ++ s) ≡ keys r ++ keys s
keys-append [] s = refl
keys-append ((n, a) ∷ r) s = ap (λ ks. n ∷ ks) (keys-append r s)

added-IsRegistry :
    (a : Analyzer) (r : Registry)
    → validate_name a.name ≡ none
    → lookup a.name r ≡ none
    → IsRegistry r
    → IsRegistry (insert a.name a r)
added-IsRegistry a r v n w =
    let fresh = no_key a.name r n in
    let added = r ++ (a.name, a) ∷ [] in
    subst IsRegistry (sym (insert_new a.name a r n)) (record {
      once = λ j.
          let at = ap (count j) (keys-append r ((a.name, a) ∷ [])) in
          ground (
            arith,
            w.once j,
            count-append j (keys r) (a.name ∷ []),
            has-count a.name (keys r),
            eqs_iff a.name j,
          );
      named = All-append WellNamed r ((a.name, a) ∷ []) w.named ((refl, v), tt);
    })

-- A call of Register either stores the analyzer or leaves the registry as it is.
register-cases :
    (a : Analyzer) (r : Registry)
    → (after_register r (register a r) ≡ r)
      ⊎ ((validate_name a.name ≡ none)
          × (lookup a.name r ≡ none)
          × (after_register r (register a r) ≡ insert a.name a r))
unfolding register
register-cases a r = elim (Option-cases (validate_name a.name)) [
  | inr (e, v) ↦ inl (rw v refl)
  | inl v ↦ elim (Option-cases (lookup a.name r)) [
    | inr (b, l) ↦ inl (rw (v, l) refl)
    | inl l ↦ inr (v, l, rw (v, l) refl)
  ]
]

run-IsRegistry :
    (calls : List Analyzer) (r : Registry) → IsRegistry r → IsRegistry (register_all calls r)
unfolding register_all
run-IsRegistry [] r w = w
run-IsRegistry (a ∷ calls) r w = run-IsRegistry calls _ (elim (register-cases a r) [
  | inl same ↦ rw same w
  | inr (v, l, added) ↦ rw added (added-IsRegistry a r v l w)
])

-- After any calls of Register on a new registry, each name is valid, is that of its analyzer, and
-- stands once.
pub register_all-IsRegistry : (calls : List Analyzer) → IsRegistry (register_all calls [])
register_all-IsRegistry calls =
    run-IsRegistry calls [] (record { once = λ j. omega arith; named = tt })

get-insert :
    (n : Str) (c d : Analyzer) (s : Registry)
    → lookup d.name s ≡ none
    → get n s ≡ ok c
    → get n (insert d.name d s) ≡ ok c
unfolding get
get-insert n c d s l g = elim (Bool-cases (eqs d.name n)) [
  | inl b ↦
      let gone : lookup n s ≡ none = subst (λ m. lookup m s ≡ none) ((eqs_iff d.name n).0 b) l in
      let no = rw gone at g in cc
  | inr b ↦ rw (lookup-insert d.name n d s, b) g
]

-- An analyzer that Get finds stays the same through any later calls of Register.
pub get-register_all :
    (name : Str) (a : Analyzer) (calls : List Analyzer) (r : Registry)
    → get name r ≡ ok a
    → get name (register_all calls r) ≡ ok a
unfolding register_all
get-register_all name a [] r h = h
get-register_all name a (b ∷ calls) r h =
    get-register_all name a calls _ (elim (register-cases b r) [
      | inl same ↦ rw same h
      | inr (v, l, added) ↦ rw added (get-insert name a b r l h)
    ])
