-- ===== src/Analysis/Collector/Liveness.antt =====
-- A collection that still waits can complete: internal/analysis/collector.go.
use crosscodex.Prelude.{
  ◌≤◌, ◌≡◌, refl, subst, true, false, List, [], ◌∷◌, Option, none, some, Bool-cases, inl, inr,
  arith, All, In, length,
}
use crosscodex.Prelude.Str.{Str, eqs_refl, is_empty}
use crosscodex.Prelude.Eq.{str_eq}
use crosscodex.Prelude.Sets.{has}
use crosscodex.Analysis.Collector.{Task, CollectRequest, Collection, complete}
use crosscodex.Analysis.Collector.Accounting.{reported}
use crosscodex.Analysis.Collector.Invariant.{IsAccounted, Reached-IsAccounted}
use crosscodex.Analysis.Collector.Complete.{complete-missing}
use crosscodex.Analysis.Collector.Steps.{monitors, finishes, go, Reached, capacity, finish}
use crosscodex.Analysis.Collector.Progress.{
  Reaches, reach_on, Known, settle_all, send_failing, length-expected,
}

module _ (to_lower : Str → Str) (unmarshal : Str → Option Str) (req : CollectRequest) where
  failing_expected :
      (s : Collection) (k : Task)
      → IsAccounted req s
      → s.failing ≡ some k
      → 1 ≤ capacity to_lower unmarshal req
  failing_expected s k w f =
      length-expected to_lower unmarshal req k.task_id req.expected_ids
        (ground (arith, w.accounts k.task_id, eqs_refl k.task_id))

  named :
      (id : Str)
      → has req.expected_ids [] ≡ false
      → has req.expected_ids id ≡ true
      → is_empty id ≡ false
  named [] unnamed h = cc
  named (c ∷ id) unnamed h = refl

  reached-Known :
      (s t : Collection)
      → has req.expected_ids [] ≡ false
      → IsAccounted req s
      → t.pending ≡ s.pending
      → Known to_lower unmarshal req t
  reached-Known s t unnamed w same id h =
      let expected : has req.expected_ids id ≡ true = ground (arith, w.accounts id, rw same at h) in
      (named id unnamed expected, expected)

  each_of :
      (P : Str → Type 0) (ids : List Str) → ((id : Str) → has ids id ≡ true → P id) → All P ids
  unfolding has
  each_of P [] f = tt
  each_of P (id ∷ ids) f =
      (f id (ground (arith, eqs_refl id)), each_of P ids (λ j h. f j (ground arith)))

  -- What was missing would be in the channel or fail, but nothing is there.
  calm_complete :
      (s : Collection) (id : Str)
      → Reached to_lower unmarshal req s
      → s.outcome ≡ some complete
      → s.channel ≡ []
      → s.failing ≡ none
      → has req.expected_ids id ≡ true
      → reported id s.results ≡ true
  calm_complete s id r o c f h = elim (Bool-cases (reported id s.results)) [
    | inl b ↦ b
    | inr b ↦ elim (complete-missing req to_lower unmarshal s id r o h b) [
      | inl failing_one ↦ let no : false ≡ true = rw f at failing_one in cc
      | inr (k, i, same, e) ↦ let none_there : In k [] = subst (In k) c i in elim none_there [ ]
    ]
  ]

  -- From any state in which AwaitResults waits, where no expected ID is empty, a collection can go
  -- on to be complete with a result for each expected task.
  pub can_complete :
      (s : Collection)
      → Reached to_lower unmarshal req s
      → s.outcome ≡ none
      → has req.expected_ids [] ≡ false
      → (u : Collection) × Reaches to_lower unmarshal req s u
        × (u.outcome ≡ some complete)
        × All (λ id. reported id u.results ≡ true) req.expected_ids
  can_complete s r o unnamed =
      let w = Reached-IsAccounted req to_lower unmarshal r in
      let (t, to_t, calm, same) =
        send_failing to_lower unmarshal req s.failing s refl o (λ k f. failing_expected s k w f) in
      let (v, to_v, calm', none_left) =
        settle_all to_lower unmarshal req (length t.pending) t.pending t refl (omega arith) calm
          (reached-Known s t unnamed w same) in
      let ready = record v { done = true } in
      let u = finish ready in
      let to_u : Reaches to_lower unmarshal req s u =
        go (go (reach_on to_lower unmarshal req to_t to_v) (monitors none_left refl))
          (finishes calm'.waiting_still refl refl) in
      (
        u,
        to_u,
        refl,
        each_of (λ id. reported id u.results ≡ true) req.expected_ids
            (λ id h.
              calm_complete u id (reach_on to_lower unmarshal req r to_u) refl refl calm'.idle h),
      )
