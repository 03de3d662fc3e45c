-- ===== src/Pipeline/Stages/Changes.antt =====
-- Which jobs a daemon runs: internal/pipeline/stages.go.
use crosscodex.Prelude.{
  ◌≡◌, ◌↔◌, refl, sym, ap, ◌∙◌, Bool, true, false, List, [], ◌∷◌, ◌++◌, none, Bool-cases, inl, inr,
  All, arith,
}
use crosscodex.Prelude.Str.{Str}
use crosscodex.Prelude.Sets.{has, add_all, has-add_all}
use crosscodex.Prelude.Sort.{sort}
use crosscodex.Prelude.Counting.{has-sort, All-has, All_counted, has-count}
use crosscodex.Pipeline.Stages.{
  build_stage_names, is_analyzer_stage, analyzer_stages, Change, stopped_changes, started_changes,
  changed, check_job_analyzers,
}
use crosscodex.Pipeline.Stages.Order.{generated_before-build_stage_names}

stopped_none :
    (running names : List Str)
    → (stopped_changes running names ≡ []) ↔ All (λ n. has running n ≡ true) names
unfolding stopped_changes
stopped_none running [] = (λ h. tt, λ a. refl)
stopped_none running (n ∷ names) =
    let (there, back) = stopped_none running names in
    elim (Bool-cases (has running n)) [
      | inl b ↦ rw b (λ h. (refl, there h), λ a. back a.1)
      | inr b ↦ rw b (λ h. cc, λ a. cc)
    ]

started_none :
    (created names : List Str)
    → (started_changes created names ≡ []) ↔ All (λ n. has created n ≡ true) names
unfolding started_changes
started_none created [] = (λ h. tt, λ a. refl)
started_none created (n ∷ names) =
    let (there, back) = started_none created names in
    elim (Bool-cases (has created n)) [
      | inl b ↦ rw b (λ h. (refl, there h), λ a. back a.1)
      | inr b ↦ rw b (λ h. cc, λ a. cc)
    ]

none_changed :
    (stages order : List Str)
    → (check_job_analyzers stages order ≡ none) ↔ (
        (stopped_changes (add_all [] order) (sort (add_all [] (analyzer_stages stages))) ≡ [])
        × (started_changes (add_all [] (analyzer_stages stages)) order ≡ []))
unfolding check_job_analyzers
none_changed stages order = empty_both _ _
  where
    empty_both : (xs ys : List Change) → (changed (xs ++ ys) ≡ none) ↔ ((xs ≡ []) × (ys ≡ []))
    empty_both [] [] = (λ h. (refl, refl), λ h. refl)
    empty_both [] (y ∷ ys) = (λ h. cc, λ h. cc)
    empty_both (x ∷ xs) ys = (λ h. cc, λ h. cc)

same_test : (a b : Bool) → (a ≡ true → b ≡ true) → (b ≡ true → a ≡ true) → a ≡ b
same_test true b f g = sym (f refl)
same_test false true f g = g refl
same_test false false f g = refl

All_in :
    (xs ys : List Str)
    → ((n : Str) → has xs n ≡ true → has ys n ≡ true)
    → All (λ n. has ys n ≡ true) xs
unfolding has
All_in xs ys f = All_counted (λ n. has ys n ≡ true) xs (λ n h. f n (ground (arith, has-count n xs)))

-- A job that was created for some analyzers, none of which is named like a stage of the pipeline,
-- passes the check of a daemon exactly when the daemon registers the same analyzers.
pub check_job_analyzers_iff :
    (created running : List Str)
    → All (λ n. is_analyzer_stage n ≡ true) created
    → (check_job_analyzers (build_stage_names created) running ≡ none)
      ↔ ((n : Str) → has created n ≡ has running n)
unfolding has
check_job_analyzers_iff created running a =
    let stages = build_stage_names created in
    let kept = (generated_before-build_stage_names created a).0 in
    let set = add_all [] (analyzer_stages stages) in
    let in_set : (n : Str) → has set n ≡ has created n =
      λ n. has-add_all [] (analyzer_stages stages) n ∙ ap (λ xs. has xs n) kept in
    let in_running = has-add_all [] running in
    let (split, join) = none_changed stages running in
    let (stop, unstop) = stopped_none (add_all [] running) (sort set) in
    let (start, unstart) = started_none set running in
    (
      λ h n.
          let (no_stop, no_start) = split h in
          same_test (has created n) (has running n)
            (λ i. ground (
              arith,
              in_running n,
              All-has (λ m. has (add_all [] running) m ≡ true) (sort set) n (stop no_stop)
                  (has-sort n set ∙ in_set n ∙ i),
            ))
            (λ i. sym (in_set n) ∙ All-has (λ m. has set m ≡ true) running n (start no_start) i),
      λ same. join (
        unstop (
            All_in (sort set) (add_all [] running)
              (λ n i. ground (arith, in_running n, same n, in_set n, has-sort n set))),
        unstart (All_in running set (λ n i. ground (arith, same n, in_set n))),
      ),
    )
