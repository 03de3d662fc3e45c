-- ===== src/Pipeline/Stages.antt =====
-- The stages of a job: internal/pipeline/stages.go. The text of an error is the list of changes that
-- it names.
pub mod Order
pub mod Changes
use crosscodex.Prelude.{
  Bool, true, false, not, ◌&&◌, ◌||◌, List, [], ◌∷◌, ◌++◌, Option, none, some, if◌then◌else◌,
}
use crosscodex.Prelude.Str.{Str, codes, eqs}
use crosscodex.Prelude.Sets.{has, add_all}
use crosscodex.Prelude.Sort.{sort}

-- candidateDependentAnalyzers
unfoldable pub candidate_dependent : Str → Bool
unfolding eqs
candidate_dependent name = eqs name (codes "requires") || eqs name (codes "relationship")

abbrev pub candidate_generation : Str
candidate_generation = codes "candidate_generation"

unfoldable pub insert_generation : Bool → List Str → List Str
unfolding candidate_dependent
insert_generation inserted [] = []
insert_generation inserted (name ∷ names) =
    let now = candidate_dependent name && not inserted in
    let rest = insert_generation (inserted || now) names in
    if now then candidate_generation ∷ name ∷ rest else name ∷ rest

unfoldable pub build_stage_names : List Str → List Str
unfolding insert_generation
build_stage_names order = insert_generation false order ++ codes "synthesis" ∷ codes "graph" ∷ []

-- pipelineStages
unfoldable pub is_pipeline_stage : Str → Bool
unfolding eqs
is_pipeline_stage name =
    eqs name candidate_generation || (eqs name (codes "synthesis") || eqs name (codes "graph"))

abbrev pub is_analyzer_stage : Str → Bool
is_analyzer_stage name = not (is_pipeline_stage name)

unfoldable pub analyzer_stages : List Str → List Str
unfolding is_pipeline_stage
analyzer_stages [] = []
analyzer_stages (name ∷ names) =
    let rest = analyzer_stages names in if is_analyzer_stage name then name ∷ rest else rest

pub data Change : Type 0 where
  stopped started : Str → Change

unfoldable pub stopped_changes : List Str → List Str → List Change
stopped_changes running [] = []
stopped_changes running (name ∷ names) =
    let rest = stopped_changes running names in
    if not (has running name) then stopped name ∷ rest else rest

unfoldable pub started_changes : List Str → List Str → List Change
started_changes created [] = []
started_changes created (name ∷ names) =
    let rest = started_changes created names in
    if not (has created name) then started name ∷ rest else rest

abbrev pub changed : List Change → Option (List Change)
changed [] = none
changed (c ∷ cs) = some (c ∷ cs)

-- `stages` are the names of the stages that the job was created with.
unfoldable pub check_job_analyzers : List Str → List Str → Option (List Change)
unfolding analyzer_stages stopped_changes started_changes
check_job_analyzers stages dag_order =
    let created = add_all [] (analyzer_stages stages) in
    let running = add_all [] dag_order in
    changed (stopped_changes running (sort created) ++ started_changes created dag_order)
