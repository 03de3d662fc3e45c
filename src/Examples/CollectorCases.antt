-- ===== src/Examples/CollectorCases.antt =====
-- The collection of results at concrete inputs: internal/analysis/collector.go.
use crosscodex.Prelude.{
  ◌≡◌, ◌≤◌, ◌⊎◌, refl, true, false, [], ◌∷◌, Option, none, some, arith, In, All,
}
use crosscodex.Prelude.Str.{Str, codes, eqs}
use crosscodex.Prelude.Maps.{lookup, insert}
use crosscodex.Prelude.Sets.{has, remove, add_all}
use crosscodex.Analysis.Collector.{
  Task, TaskResult, redispatch_failed, CollectRequest, Message, Collection, prepare, handle_message,
  gave_up, abandoned, handle_error, find_task, get_header, read_result, sanitize_error, includes,
  has_prefix, complete,
}
use crosscodex.Analysis.Collector.Steps.{
  ends, releases, abandons, first, Reached, stop, go, handles, retries, fails, monitors, finishes,
  publish_retry, drop_failed, finish,
}
use crosscodex.Analysis.Collector.Accounting.{reported, accounted, is_failing}
use crosscodex.Analysis.Collector.Complete.{Reached-accounted, complete-missing}
use crosscodex.Analysis.Collector.Publications.{abandon_is_last, redispatches}
use crosscodex.Analysis.Collector.Orderly.{Reached-abandon_is_last, Reached-redispatches}
use crosscodex.Analysis.Collector.Progress.{Reaches}
use crosscodex.Analysis.Collector.Liveness.{can_complete}
use crosscodex.Analysis.Collector.Loss.{last_retry_lost}

abbrev same_text : Str → Str
same_text s = s

abbrev as_is : Str → Option Str
as_is s = some s

abbrev task_a : Task
task_a = record { task_id = codes "a"; task_type = codes "embed"; payload = codes "x" }

abbrev only_a : CollectRequest
only_a = record {
  task_type = codes "embed";
  job_id = codes "j1";
  expected_ids = codes "a" ∷ [];
  tasks = task_a ∷ [];
  stage_timeout = 60;
  max_retries = 1;
}

abbrev failed_a : Message
failed_a = record {
  headers = (codes "X-Task-Id", codes "a" ∷ []) ∷ (codes "X-Error", codes "bad" ∷ []) ∷ [];
  payload = [];
}

abbrev one_waits : Collection
one_waits = record {
  pending = codes "a" ∷ [];
  retry_counts = (codes "a", 1) ∷ [];
  waiting = (task_a, 0) ∷ [];
  failing = none;
  channel = [];
  done = false;
  results = [];
  outcome = none;
  released = false;
  abandon_done = false;
  published = [];
}

one_waits-Reached : Reached same_text as_is only_a one_waits
unfolding prepare add_all has handle_message handle_error find_task get_header read_result
    sanitize_error includes has_prefix lookup insert eqs
one_waits-Reached = go stop (handles failed_a (omega arith) refl)

abbrev one_retried : Collection
one_retried = publish_retry task_a 0 [] one_waits

one_retried-Reached : Reached same_text as_is only_a one_retried
one_retried-Reached = go one_waits-Reached (retries task_a 0 [] refl refl (first refl) refl)

abbrev dropped_state : Collection
dropped_state = record one_retried {
  outcome = some gave_up;
  released = true;
  abandon_done = true;
  published = abandoned ∷ one_retried.published;
}

dropped_state-Reached : Reached same_text as_is only_a dropped_state
dropped_state-Reached =
    go (go (go one_retried-Reached (ends refl refl)) (releases gave_up refl refl refl))
      (abandons refl refl refl refl)

nothing_left : remove (codes "a") (codes "a" ∷ []) ≡ []
unfolding remove eqs
nothing_left = refl

abbrev lost_state : Collection
lost_state = finish (record (drop_failed task_a [] one_waits) { done = true })

lost_state-Reached : Reached same_text as_is only_a lost_state
lost_state-Reached =
    go
      (go (go one_waits-Reached (fails task_a 0 [] refl refl (first refl) refl))
        (monitors nothing_left refl))
      (finishes refl refl refl)

expects_a : has only_a.expected_ids (codes "a") ≡ true
unfolding has eqs
expects_a = refl

no_empty_id : has only_a.expected_ids [] ≡ false
unfolding has eqs
no_empty_id = refl

Reached-accounted_example : accounted (codes "a") one_retried ≡ has only_a.expected_ids (codes "a")
Reached-accounted_example =
    Reached-accounted only_a same_text as_is one_retried (codes "a") one_retried-Reached

complete-missing_example :
    (is_failing (codes "a") lost_state.failing ≡ true)
    ⊎ ((r : TaskResult) × In r lost_state.channel
        × (r.task_id ≡ codes "a")
        × (r.error ≡ some redispatch_failed))
complete-missing_example =
    complete-missing only_a same_text as_is lost_state (codes "a") lost_state-Reached refl expects_a
      refl

Reached-abandon_is_last_example : abandon_is_last dropped_state.published ≡ true
Reached-abandon_is_last_example =
    Reached-abandon_is_last only_a same_text as_is dropped_state dropped_state-Reached

Reached-redispatches_example : redispatches (codes "a") one_retried.published ≤ 1
Reached-redispatches_example =
    Reached-redispatches only_a same_text as_is one_retried (codes "a") one_retried-Reached

can_complete_example :
    (u : Collection) × Reaches same_text as_is only_a one_retried u
    × (u.outcome ≡ some complete)
    × All (λ id. reported id u.results ≡ true) only_a.expected_ids
can_complete_example =
    can_complete same_text as_is only_a one_retried one_retried-Reached refl no_empty_id

last_retry_lost_example :
    (u : Collection) × Reaches same_text as_is only_a one_waits u
    × (u.outcome ≡ some complete)
    × (u.results ≡ [])
last_retry_lost_example =
    last_retry_lost same_text as_is only_a one_waits task_a 0 [] one_waits-Reached refl refl
      (first refl) nothing_left
