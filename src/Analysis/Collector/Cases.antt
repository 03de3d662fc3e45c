-- ===== src/Analysis/Collector/Cases.antt =====
-- What the handler of results does with a message, by cases: internal/analysis/collector.go.
use crosscodex.Prelude.{
  ℕ, suc, ◌≡◌, refl, true, not, ◌&&◌, List, [], ◌∷◌, Option, none, some, Bool-cases, Option-cases,
  inl, inr, arith, ltb, and-eq-true,
}
use crosscodex.Prelude.Str.{Str, eqs_iff, is_empty}
use crosscodex.Prelude.Eq.{str_eq}
use crosscodex.Prelude.Maps.{lookup, insert}
use crosscodex.Prelude.Sets.{has}
use crosscodex.Analysis.Collector.{
  Task, TaskError, ResultError, CollectRequest, Message, Collection, settle, schedule, find_task,
  handle_error, handle_outcome, handle_message, count_or_zero, is_truncated, read_result,
  get_header, header_task_id, missing_task, final_error,
}

pub find_task_id :
    (id : Str) (ts : List Task) (t : Task) → find_task id ts ≡ some t → t.task_id ≡ id
unfolding find_task
find_task_id id [] t h = cc
find_task_id id (u ∷ us) t h = ground (arith, find_task_id id us t, eqs_iff u.task_id id)

-- The retry count of a task.
abbrev pub retries_of : Str → Collection → ℕ
retries_of id s = count_or_zero (lookup id s.retry_counts)

abbrev pub counted : Str → Collection → Collection
counted id s = record s { retry_counts = insert id (suc (retries_of id s)) s.retry_counts }

module _ (req : CollectRequest) where
  pub data Handled (s : Collection) (t : Collection) : Type 0 where
    ignored : t ≡ s → Handled s t
    settled :
        (id : Str) (result : Option Str) (error : Option ResultError)
        → has s.pending id ≡ true
        → t ≡ settle req id result error s
        → Handled s t
    lost :
        (id : Str)
        → has s.pending id ≡ true
        → ltb (retries_of id s) req.max_retries ≡ true
        → t ≡ settle req id none (some missing_task) (counted id s)
        → Handled s t
    scheduled :
        (id : Str) (k : Task)
        → has s.pending id ≡ true
        → ltb (retries_of id s) req.max_retries ≡ true
        → k.task_id ≡ id
        → t ≡ schedule req (some k) id (retries_of id s) (counted id s)
        → Handled s t

  under_max :
      (id : Str) (e : TaskError) (s : Collection)
      → (ltb (retries_of id s) req.max_retries && not (is_truncated e)) ≡ true
      → ltb (retries_of id s) req.max_retries ≡ true
  under_max id e s b =
      (and-eq-true (ltb (retries_of id s) req.max_retries) (not (is_truncated e)) b).0

  handle_error-Handled :
      (id : Str) (e : TaskError) (s : Collection)
      → has s.pending id ≡ true
      → Handled s (handle_error req id e s)
  unfolding handle_error
  handle_error-Handled id e s h =
      elim (Bool-cases (ltb (retries_of id s) req.max_retries && not (is_truncated e))) [
        | inl b ↦ elim (Option-cases (find_task id req.tasks)) [
          | inl none_of ↦ rw (b, none_of) (lost id h (under_max id e s b) refl)
          | inr (k, found) ↦
              rw (b, found)
                (scheduled id k h (under_max id e s b) (find_task_id id req.tasks k found) refl)
        ]
        | inr b ↦ rw b (settled id none (some (final_error e)) h refl)
      ]

  handle_outcome-Handled :
      (id : Str) (e : Option TaskError) (result : Option Str) (s : Collection)
      → has s.pending id ≡ true
      → Handled s (handle_outcome req id e result s)
  handle_outcome-Handled id none result s h = settled id result none h refl
  handle_outcome-Handled id (some e) result s h = handle_error-Handled id e s h

  module _ (to_lower : Str → Str) (unmarshal : Str → Option Str) where
    pub handle_message-Handled :
        (msg : Message) (s : Collection) → Handled s (handle_message to_lower unmarshal req msg s)
    unfolding handle_message
    handle_message-Handled msg s =
        let id = get_header msg.headers header_task_id in
        elim (Bool-cases (is_empty id)) [
          | inl b ↦ rw b (ignored refl)
          | inr b ↦ elim (Bool-cases (has s.pending id)) [
            | inl p ↦
                rw (b, p)
                  (handle_outcome-Handled id (read_result to_lower unmarshal msg).0
                    (read_result to_lower unmarshal msg).1 s p)
            | inr p ↦ rw (b, p) (ignored refl)
          ]
        ]
