-- ===== src/Analysis/Collector/Loss.antt =====
-- A task whose redispatch fails can be lost: internal/analysis/collector.go, lines 271 to 278.
use crosscodex.Prelude.{
  ℕ, ◌≡◌, refl, true, false, List, [], ◌++◌, Option, none, some, Bool-cases, inl, inr,
}
use crosscodex.Prelude.Str.{Str}
use crosscodex.Prelude.Sets.{remove}
use crosscodex.Analysis.Collector.{Task, CollectRequest, Collection, complete}
use crosscodex.Analysis.Collector.Steps.{
  Takes, fails, monitors, finishes, drop_failed, finish, stop, go, Reached,
}
use crosscodex.Analysis.Collector.Orderly.{Reached-IsOrderly}
use crosscodex.Analysis.Collector.Progress.{Reaches}

module _ (to_lower : Str → Str) (unmarshal : Str → Option Str) (req : CollectRequest) where
  not_freed :
      (s : Collection) → Reached to_lower unmarshal req s → s.outcome ≡ none → s.released ≡ false
  not_freed s r o = elim (Bool-cases s.released) [
    | inl f ↦ let (o', e) = (Reached-IsOrderly req to_lower unmarshal r).freed f in cc
    | inr f ↦ f
  ]

  -- In a state in which AwaitResults waits and a retry of the only pending task is in its backoff,
  -- with no other failing, the collection can go on to be complete with only the results that
  -- had arrived before.
  pub last_retry_lost :
      (s : Collection) (k : Task) (n : ℕ) (rest : List (Task × ℕ))
      → Reached to_lower unmarshal req s
      → s.outcome ≡ none
      → s.failing ≡ none
      → Takes (k, n) s.waiting rest
      → remove k.task_id s.pending ≡ []
      → (u : Collection) × Reaches to_lower unmarshal req s u
        × (u.outcome ≡ some complete)
        × (u.results ≡ s.results ++ s.channel)
  last_retry_lost s k n rest r o f took alone =
      let dropped = drop_failed k rest s in
      let ready = record dropped { done = true } in
      (
        finish ready,
        go (go (go stop (fails k n rest (not_freed s r o) f took refl)) (monitors alone refl))
            (finishes o refl refl),
        refl,
        refl,
      )
