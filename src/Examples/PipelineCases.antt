-- ===== src/Examples/PipelineCases.antt =====
-- The stages of a job at concrete inputs: internal/pipeline/stages.go.
use crosscodex.Prelude.{◌≡◌, ◌↔◌, refl, true, false, List, [], ◌∷◌, none, some, All}
use crosscodex.Prelude.Str.{Str, codes, eqs}
use crosscodex.Prelude.Sets.{has, add_all}
use crosscodex.Prelude.Sort.{sort, insert_sorted, les}
use crosscodex.Pipeline.Stages.{
  candidate_dependent, insert_generation, build_stage_names, is_pipeline_stage, is_analyzer_stage,
  analyzer_stages, started, stopped_changes, started_changes, check_job_analyzers,
}
use crosscodex.Pipeline.Stages.Order.{generated_before, generated_before-build_stage_names}
use crosscodex.Pipeline.Stages.Changes.{check_job_analyzers_iff}

abbrev order : List Str
order = codes "embedding" ∷ codes "requires" ∷ []

order_analyzers : All (λ n. is_analyzer_stage n ≡ true) order
unfolding is_pipeline_stage eqs
order_analyzers = (refl, (refl, tt))

stages_of_order :
    build_stage_names order
    ≡ codes "embedding"
      ∷ codes "candidate_generation"
      ∷ codes "requires"
      ∷ codes "synthesis"
      ∷ codes "graph"
      ∷ []
unfolding build_stage_names insert_generation candidate_dependent eqs
stages_of_order = refl

-- A daemon that registers one more analyzer refuses the job.
refused_job :
    check_job_analyzers (codes "embedding" ∷ codes "graph" ∷ []) order
    ≡ some (started (codes "requires") ∷ [])
unfolding check_job_analyzers stopped_changes started_changes analyzer_stages is_pipeline_stage
    add_all has eqs sort insert_sorted les
refused_job = refl

generated_before-build_stage_names_example :
    (analyzer_stages (build_stage_names order) ≡ order)
    × (generated_before false (build_stage_names order) ≡ true)
generated_before-build_stage_names_example =
    generated_before-build_stage_names order order_analyzers

check_job_analyzers_iff_example :
    (check_job_analyzers (build_stage_names order) (codes "requires" ∷ codes "embedding" ∷ [])
      ≡ none)
    ↔ ((n : Str) → has order n ≡ has (codes "requires" ∷ codes "embedding" ∷ []) n)
check_job_analyzers_iff_example =
    check_job_analyzers_iff order (codes "requires" ∷ codes "embedding" ∷ []) order_analyzers
