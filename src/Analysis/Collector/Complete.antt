-- ===== src/Analysis/Collector/Complete.antt =====
-- What became of each task when a collection is complete: internal/analysis/collector.go.
use crosscodex.Prelude.{
  ◌⊎◌, In, here, there, ◌≡◌, refl, ◌∙◌, true, false, List, [], ◌∷◌, Option, some, Bool-cases, inl,
  inr, All,
}
use crosscodex.Prelude.Str.{Str, eqs, eqs_iff}
use crosscodex.Prelude.Sets.{has}
use crosscodex.Analysis.Collector.{
  TaskResult, redispatch_failed, CollectRequest, Collection, complete,
}
use crosscodex.Analysis.Collector.Accounting.{reported, is_failing, accounted}
use crosscodex.Analysis.Collector.Invariant.{FromRetry, Reached-IsAccounted}
use crosscodex.Analysis.Collector.Steps.{Reached}

module _ (req : CollectRequest) where
  find_reported :
      (id : Str) (rs : List TaskResult)
      → reported id rs ≡ true
      → All (FromRetry req) rs
      → (r : TaskResult) × In r rs × (r.task_id ≡ id) × (r.error ≡ some redispatch_failed)
  find_reported id [] h a = cc
  find_reported id (x ∷ xs) h a = elim (Bool-cases (eqs x.task_id id)) [
    | inl b ↦ (x, here refl, (eqs_iff x.task_id id).0 b, a.0)
    | inr b ↦ let (r, i, same, e) = find_reported id xs (rw b at h) a.1 in (r, there i, same, e)
  ]

  -- Where nothing is pending, a task without a result is a failing one.
  only_failing :
      (id : Str) (s : Collection)
      → s.pending ≡ []
      → accounted id s ≡ true
      → reported id s.results ≡ false
      → reported id s.channel ≡ false
      → is_failing id s.failing ≡ true
  unfolding has
  only_failing id s p a b c = rw (p, b, c) at a

  module _ (to_lower : Str → Str) (unmarshal : Str → Option Str) where
    -- In every state of a collection, a task is expected exactly when it is pending, or it has a
    -- result, or its failed retry is about to send one: no task is lost, and none is invented.
    pub Reached-accounted :
        (s : Collection) (id : Str)
        → Reached to_lower unmarshal req s
        → accounted id s ≡ has req.expected_ids id
    Reached-accounted s id r = (Reached-IsAccounted req to_lower unmarshal r).accounts id

    -- When a collection is complete, an expected task without a result among those returned is one
    -- whose redispatch failed: its failure is about to be sent, or waits in the channel.
    pub complete-missing :
        (s : Collection) (id : Str)
        → Reached to_lower unmarshal req s
        → s.outcome ≡ some complete
        → has req.expected_ids id ≡ true
        → reported id s.results ≡ false
        → (is_failing id s.failing ≡ true)
          ⊎ ((r : TaskResult) × In r s.channel
              × (r.task_id ≡ id)
              × (r.error ≡ some redispatch_failed))
    complete-missing s id r o h none_of =
        let w = Reached-IsAccounted req to_lower unmarshal r in
        let gone = w.emptied (w.finished o) in
        let listed = w.accounts id in
        elim (Bool-cases (reported id s.channel)) [
          | inl c ↦ inr (find_reported id s.channel c (w.late o))
          | inr c ↦ inl (only_failing id s gone (listed ∙ h) none_of c)
        ]
