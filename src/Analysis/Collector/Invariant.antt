-- ===== src/Analysis/Collector/Invariant.antt =====
-- What every state of a collection keeps: internal/analysis/collector.go.
use crosscodex.Prelude.{
  ℕ, suc, ◌≡◌, refl, ap, ◌∙◌, Bool, true, false, List, [], ◌∷◌, ◌++◌, Option, none, some,
  Bool-cases, inl, inr, All, All-append, arith,
}
use crosscodex.Prelude.Str.{Str}
use crosscodex.Prelude.Sets.{has, remove, has-add_all}
use crosscodex.Analysis.Collector.{
  Task, TaskResult, ResultError, redispatch_failed, missing_task, CollectRequest, Collection,
  Publication, redispatched, abandoned, complete, prepare, settle, schedule,
}
use crosscodex.Analysis.Collector.Cases.{
  Handled, ignored, settled, lost, scheduled, counted, retries_of, handle_message-Handled,
}
use crosscodex.Analysis.Collector.Accounting.{
  accounted, accounted-settle, accounted-drop_failed, accounted-sends, accounted-takes,
  accounted-finish,
}
use crosscodex.Analysis.Collector.Steps.{
  All-Takes, Step, handles, retries, fails, sends, gives_up_retry, monitors, takes, finishes, ends,
  releases, abandons, stop, go, Reached, failure_of,
}

module _ (req : CollectRequest) where
  abbrev pub WaitsExpected : Task × ℕ → Type 0
  WaitsExpected (k, n) = has req.expected_ids k.task_id ≡ true

  abbrev pub FromRetry : TaskResult → Type 0
  FromRetry r = r.error ≡ some redispatch_failed

  pub record IsAccounted (s : Collection) : Type 0 where
    pub accounts : (j : Str) → accounted j s ≡ has req.expected_ids j
    pub waits : All WaitsExpected s.waiting
    pub emptied : s.done ≡ true → s.pending ≡ []
    pub finished : s.outcome ≡ some complete → s.done ≡ true
    pub late : s.outcome ≡ some complete → All FromRetry s.channel

  prepare-IsAccounted : IsAccounted (prepare req)
  unfolding prepare
  prepare-IsAccounted = record {
    accounts = λ j. ground (arith, has-add_all [] req.expected_ids j);
    waits = tt;
    emptied = λ d. cc;
    finished = λ o. cc;
    late = λ o. cc;
  }

  -- A pending task shows that the monitor has not found the collection complete.
  pending_open :
      (id : Str) (s : Collection) → has s.pending id ≡ true → IsAccounted s → s.done ≡ false
  unfolding has
  pending_open id s h w = elim (Bool-cases s.done) [
    | inl d ↦ let e = w.emptied d in let f : has [] id ≡ true = rw e at h in cc
    | inr d ↦ d
  ]

  remove-nil : (id : Str) → remove id [] ≡ []
  unfolding remove
  remove-nil id = refl

  settle-IsAccounted :
      (id : Str) (result : Option Str) (error : Option ResultError) (s : Collection)
      → has s.pending id ≡ true
      → IsAccounted s
      → IsAccounted (settle req id result error s)
  settle-IsAccounted id result error s h w =
      let still = pending_open id s h w in
      record {
        accounts = λ j. accounted-settle req id j result error s h ∙ w.accounts j;
        waits = w.waits;
        emptied = λ d. cc;
        finished = w.finished;
        late = λ o. let d = w.finished o in cc;
      }

  -- The fields that the accounting does not read, and retries that are no longer waiting.
  aside :
      {s : Collection} (rest : List (Task × ℕ)) (counts : List (Str × ℕ)) (out : List Publication)
      (freed : Bool) (once : Bool)
      → All WaitsExpected rest
      → IsAccounted s
      → IsAccounted (record s {
        waiting = rest;
        retry_counts = counts;
        published = out;
        released = freed;
        abandon_done = once;
      })
  aside rest counts out freed once h w = record {
    accounts = w.accounts;
    waits = h;
    emptied = w.emptied;
    finished = w.finished;
    late = w.late;
  }

  expected_pending :
      (id : Str) (s : Collection)
      → has s.pending id ≡ true
      → IsAccounted s
      → has req.expected_ids id ≡ true
  expected_pending id s h w = ground (arith, w.accounts id)

  schedule-IsAccounted :
      (id : Str) (k : Task) (n : ℕ) (s : Collection)
      → has s.pending id ≡ true
      → k.task_id ≡ id
      → IsAccounted s
      → IsAccounted (schedule req (some k) id n s)
  schedule-IsAccounted id k n s h same w =
      aside (s.waiting ++ (k, n) ∷ []) s.retry_counts s.published s.released s.abandon_done
        (All-append WaitsExpected s.waiting ((k, n) ∷ []) w.waits
          (rw same (expected_pending id s h w), tt))
        w

  counted-IsAccounted : (id : Str) (s : Collection) → IsAccounted s → IsAccounted (counted id s)
  counted-IsAccounted id s w =
      aside s.waiting (counted id s).retry_counts s.published s.released s.abandon_done w.waits w

  Handled-IsAccounted : (s t : Collection) → Handled req s t → IsAccounted s → IsAccounted t
  Handled-IsAccounted s t (ignored e) w = rw e w
  Handled-IsAccounted s t (settled id result error h e) w =
      rw e (settle-IsAccounted id result error s h w)
  Handled-IsAccounted s t (lost id h less e) w =
      rw e (
        settle-IsAccounted id none (some missing_task) (counted id s) h
          (counted-IsAccounted id s w))
  Handled-IsAccounted s t (scheduled id k h less same e) w = rw e (
      schedule-IsAccounted id k (retries_of id s) (counted id s) h same
        (counted-IsAccounted id s w))

  module _ (to_lower : Str → Str) (unmarshal : Str → Option Str) where
    pub Step-IsAccounted :
        (s t : Collection) → Step to_lower unmarshal req s t → IsAccounted s → IsAccounted t
    Step-IsAccounted s t (handles msg room e) w =
        rw e (Handled-IsAccounted s _ (handle_message-Handled req to_lower unmarshal msg s) w)
    Step-IsAccounted s t (retries k n rest open_still idle took e) w = rw e (
        aside rest s.retry_counts (redispatched k (suc n) ∷ s.published) s.released s.abandon_done
          (All-Takes WaitsExpected w.waits took).1 w)
    Step-IsAccounted s t (fails k n rest open_still idle took e) w =
        let (expected, others) = All-Takes WaitsExpected w.waits took in
        rw e (record {
          accounts = λ j.
              accounted-drop_failed k rest j s idle (w.accounts k.task_id ∙ expected)
              ∙ w.accounts j;
          waits = others;
          emptied = λ d. ap (remove k.task_id) (w.emptied d) ∙ remove-nil k.task_id;
          finished = w.finished;
          late = w.late;
        })
    Step-IsAccounted s t (sends k f room e) w = rw e (record {
      accounts = λ j. accounted-sends k j s f ∙ w.accounts j;
      waits = w.waits;
      emptied = w.emptied;
      finished = w.finished;
      late = λ o. All-append FromRetry s.channel (failure_of k ∷ []) (w.late o) (refl, tt);
    })
    Step-IsAccounted s t (gives_up_retry k n rest took e) w = rw e (
        aside rest s.retry_counts s.published s.released s.abandon_done
          (All-Takes WaitsExpected w.waits took).1 w)
    Step-IsAccounted s t (monitors none_left e) w = rw e (record {
      accounts = w.accounts;
      waits = w.waits;
      emptied = λ d. none_left;
      finished = λ o. refl;
      late = w.late;
    })
    Step-IsAccounted s t (takes r rest waiting_still c e) w = rw e (record {
      accounts = λ j. accounted-takes r rest j s c ∙ w.accounts j;
      waits = w.waits;
      emptied = w.emptied;
      finished = w.finished;
      late = λ o. cc;
    })
    Step-IsAccounted s t (finishes waiting_still d e) w = rw e (record {
      accounts = λ j. accounted-finish j s ∙ w.accounts j;
      waits = w.waits;
      emptied = w.emptied;
      finished = λ o. d;
      late = λ o. tt;
    })
    Step-IsAccounted s t (ends waiting_still e) w = rw e (record {
      accounts = w.accounts;
      waits = w.waits;
      emptied = w.emptied;
      finished = λ o. cc;
      late = λ o. cc;
    })
    Step-IsAccounted s t (releases o ended idle e) w =
        rw e (aside s.waiting s.retry_counts s.published true s.abandon_done w.waits w)
    Step-IsAccounted s t (abandons ended freed once e) w =
        rw e (aside s.waiting s.retry_counts (abandoned ∷ s.published) s.released true w.waits w)

    pub Reached-IsAccounted : {s : Collection} → Reached to_lower unmarshal req s → IsAccounted s
    Reached-IsAccounted stop = prepare-IsAccounted
    Reached-IsAccounted (go r st) = Step-IsAccounted _ _ st (Reached-IsAccounted r)
