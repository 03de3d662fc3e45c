-- ===== src/Pipeline/Stages/Order.antt =====
-- Where the stages of a job stand: internal/pipeline/stages.go.
use crosscodex.Prelude.{
  ◌≡◌, refl, ap, ◌∙◌, Bool, true, false, not, ◌&&◌, ◌||◌, List, [], ◌∷◌, ◌++◌, Bool-cases, inl, inr,
  All, arith, append-nil,
}
use crosscodex.Prelude.Str.{Str, codes, eqs}
use crosscodex.Pipeline.Stages.{
  candidate_dependent, candidate_generation, insert_generation, build_stage_names,
  is_pipeline_stage, is_analyzer_stage, analyzer_stages,
}

-- Of the stages after those that are done, each that needs candidates comes after their generation.
abbrev pub generated_before : Bool → List Str → Bool
generated_before generated [] = true
generated_before generated (name ∷ names) =
    (not (candidate_dependent name) || generated)
    && generated_before (generated || eqs name candidate_generation) names

ends_free :
    (generated : Bool) → generated_before generated (codes "synthesis" ∷ codes "graph" ∷ []) ≡ true
unfolding candidate_dependent eqs
ends_free generated = refl

more_generated :
    (names : List Str) → generated_before false names ≡ true → generated_before true names ≡ true
more_generated [] h = refl
more_generated (name ∷ names) h = ground (arith, more_generated names)

either :
    (b : Bool) (names : List Str)
    → generated_before false names ≡ true
    → generated_before true names ≡ true
    → generated_before b names ≡ true
either true names h k = k
either false names h k = h

insert_generation-before :
    (inserted : Bool) (names rest : List Str)
    → ((generated : Bool) → generated_before generated rest ≡ true)
    → generated_before inserted (insert_generation inserted names ++ rest) ≡ true
unfolding insert_generation
insert_generation-before inserted [] rest h = h inserted
insert_generation-before true (name ∷ names) rest h =
    ground (arith, insert_generation-before true names rest h)
insert_generation-before false (name ∷ names) rest h =
    let later = insert_generation-before true names rest h in
    let same = insert_generation-before false names rest h in
    let more = more_generated (insert_generation false names ++ rest) same in
    elim (Bool-cases (candidate_dependent name)) [
      | inl d ↦ ground (arith, later)
      | inr d ↦
          let both =
            either (eqs name candidate_generation) (insert_generation false names ++ rest) same
              more in
          ground (arith, both)
    ]

generation_staged : is_pipeline_stage candidate_generation ≡ true
unfolding is_pipeline_stage eqs
generation_staged = refl

insert_generation-kept :
    (inserted : Bool) (names : List Str)
    → All (λ n. is_analyzer_stage n ≡ true) names
    → analyzer_stages (insert_generation inserted names) ≡ names
unfolding insert_generation analyzer_stages
insert_generation-kept inserted [] a = refl
insert_generation-kept true (name ∷ names) a =
    ground (arith, insert_generation-kept true names a.1, a.0)
insert_generation-kept false (name ∷ names) a = ground (
  arith,
  insert_generation-kept true names a.1,
  insert_generation-kept false names a.1,
  a.0,
  generation_staged,
)

analyzer_stages-append :
    (xs ys : List Str) → analyzer_stages (xs ++ ys) ≡ analyzer_stages xs ++ analyzer_stages ys
unfolding analyzer_stages
analyzer_stages-append [] ys = refl
analyzer_stages-append (x ∷ xs) ys = ground (arith, analyzer_stages-append xs ys)

ends_staged : analyzer_stages (codes "synthesis" ∷ codes "graph" ∷ []) ≡ []
unfolding analyzer_stages is_pipeline_stage eqs
ends_staged = refl

-- For analyzers none of which is named like a stage of the pipeline, the analyzer stages of a job
-- are these analyzers in their order, and each stage that needs candidates comes after the stage
-- that generates them.
pub generated_before-build_stage_names :
    (order : List Str)
    → All (λ n. is_analyzer_stage n ≡ true) order
    → (analyzer_stages (build_stage_names order) ≡ order)
      × (generated_before false (build_stage_names order) ≡ true)
unfolding build_stage_names
generated_before-build_stage_names order a =
    let ends = codes "synthesis" ∷ codes "graph" ∷ [] in
    (
      analyzer_stages-append (insert_generation false order) ends
          ∙ ap (λ xs. analyzer_stages (insert_generation false order) ++ xs) ends_staged
          ∙ append-nil (analyzer_stages (insert_generation false order))
          ∙ insert_generation-kept false order a,
      insert_generation-before false order ends ends_free,
    )
