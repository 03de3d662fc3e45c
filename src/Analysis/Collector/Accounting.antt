-- ===== src/Analysis/Collector/Accounting.antt =====
-- Where a collection keeps each task that it expects: internal/analysis/collector.go.
use crosscodex.Prelude.{
  ℕ, ◌≡◌, refl, Bool, true, false, ◌||◌, List, [], ◌∷◌, ◌++◌, Option, none, some, arith,
}
use crosscodex.Prelude.Str.{Str, eqs, eqs_iff}
use crosscodex.Prelude.Eq.{str_eq}
use crosscodex.Prelude.Sets.{has, has-remove}
use crosscodex.Analysis.Collector.{
  Task, TaskResult, ResultError, CollectRequest, Collection, settle,
}
use crosscodex.Analysis.Collector.Steps.{drop_failed, finish, failure_of}

-- There is a result of the task.
abbrev pub reported : Str → List TaskResult → Bool
reported id [] = false
reported id (r ∷ rs) = eqs r.task_id id || reported id rs

abbrev pub is_failing : Str → Option Task → Bool
is_failing id none = false
is_failing id (some t) = eqs t.task_id id

-- The task is pending, or it has a result, or its failed retry is about to send one.
abbrev pub accounted : Str → Collection → Bool
accounted id s =
    has s.pending id
    || (reported id s.results || (reported id s.channel || is_failing id s.failing))

pub reported-append :
    (id : Str) (xs ys : List TaskResult)
    → reported id (xs ++ ys) ≡ (reported id xs || reported id ys)
reported-append id [] ys = refl
reported-append id (x ∷ xs) ys = ground (arith, reported-append id xs ys)

pub accounted-settle :
    (req : CollectRequest) (id j : Str) (result : Option Str) (error : Option ResultError)
    (s : Collection)
    → has s.pending id ≡ true
    → accounted j (settle req id result error s) ≡ accounted j s
accounted-settle req id j result error s h = ground (
  arith,
  has-remove id j s.pending,
  reported-append j s.channel
      (record { task_id = id; task_type = req.task_type; result = result; error = error } ∷ []),
  eqs_iff id j,
)

pub accounted-drop_failed :
    (k : Task) (rest : List (Task × ℕ)) (j : Str) (s : Collection)
    → s.failing ≡ none
    → accounted k.task_id s ≡ true
    → accounted j (drop_failed k rest s) ≡ accounted j s
accounted-drop_failed k rest j s f h =
    ground (arith, has-remove k.task_id j s.pending, eqs_iff k.task_id j)

pub accounted-sends :
    (k : Task) (j : Str) (s : Collection)
    → s.failing ≡ some k
    → accounted j (record s { failing = none; channel = s.channel ++ failure_of k ∷ [] })
      ≡ accounted j s
accounted-sends k j s f = ground (arith, reported-append j s.channel (failure_of k ∷ []))

pub accounted-takes :
    (r : TaskResult) (rest : List TaskResult) (j : Str) (s : Collection)
    → s.channel ≡ r ∷ rest
    → accounted j (record s { channel = rest; results = s.results ++ r ∷ [] }) ≡ accounted j s
accounted-takes r rest j s c = ground (arith, reported-append j s.results (r ∷ []))

pub accounted-finish : (j : Str) (s : Collection) → accounted j (finish s) ≡ accounted j s
accounted-finish j s = ground (arith, reported-append j s.results s.channel)
