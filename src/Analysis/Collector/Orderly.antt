-- ===== src/Analysis/Collector/Orderly.antt =====
-- The abandon comes last, and retries are bounded: internal/analysis/collector.go and types.go.
use crosscodex.Prelude.{
  ℕ, suc, ◌+◌, ◌≤◌, ◌≡◌, refl, ap, Bool, true, false, not, List, [], ◌∷◌, ◌++◌, Option, none, some,
  Bool-cases, inl, inr, arith, if◌then◌else◌, ltb,
}
use crosscodex.Prelude.Str.{Str, eqs, eqs_iff}
use crosscodex.Prelude.Eq.{str_eq}
use crosscodex.Prelude.Maps.{lookup, lookup-insert}
use crosscodex.Prelude.Sets.{remove}
use crosscodex.Analysis.Collector.{
  Task, CollectRequest, Collection, Outcome, complete, gave_up, TaskResult, settle, prepare,
}
use crosscodex.Analysis.Collector.Cases.{
  Handled, ignored, settled, lost, scheduled, counted, retries_of, handle_message-Handled,
}
use crosscodex.Analysis.Collector.Steps.{
  Takes, Step, handles, retries, fails, sends, gives_up_retry, monitors, takes, finishes, ends,
  releases, abandons, stop, go, Reached, failure_of,
}
use crosscodex.Analysis.Collector.Publications.{
  has_abandon, abandon_is_last, redispatches, backing_off, backing_off-append, backing_off-Takes,
}

module _ (req : CollectRequest) where
  pub record IsOrderly (s : Collection) : Type 0 where
    pub freed : s.released ≡ true → (o : Outcome) × (s.outcome ≡ some o)
    pub said : has_abandon s.published ≡ true → (s.abandon_done ≡ true) × (s.released ≡ true)
    pub last_word : abandon_is_last s.published ≡ true
    pub within :
        (id : Str) → redispatches id s.published + backing_off id s.waiting ≤ retries_of id s
    pub limited : (id : Str) → retries_of id s ≤ req.max_retries

  prepare-IsOrderly : IsOrderly (prepare req)
  unfolding prepare lookup
  prepare-IsOrderly = record {
    freed = λ h. cc;
    said = λ h. cc;
    last_word = refl;
    within = λ id. omega arith;
    limited = λ id. omega arith;
  }

  counted-retries :
      (id j : Str) (s : Collection)
      → retries_of j (counted id s) ≡ (if eqs id j then suc (retries_of id s) else retries_of j s)
  counted-retries id j s = ground (arith, lookup-insert id j (suc (retries_of id s)) s.retry_counts)

  counted-limited :
      (id : Str) (s : Collection)
      → ltb (retries_of id s) req.max_retries ≡ true
      → ((j : Str) → retries_of j s ≤ req.max_retries)
      → (j : Str) → retries_of j (counted id s) ≤ req.max_retries
  counted-limited id s less h j = ground (arith, counted-retries id j s, h j)

  -- The fields that these properties do not read.
  unread :
      {s : Collection} (ids : List Str) (f : Option Task) (c rs : List TaskResult) (d : Bool)
      → IsOrderly s
      → IsOrderly (record s { pending = ids; failing = f; channel = c; results = rs; done = d })
  unread ids f c rs d w = record {
    freed = w.freed;
    said = w.said;
    last_word = w.last_word;
    within = w.within;
    limited = w.limited;
  }

  -- A retry that leaves its backoff and publishes nothing.
  quiet_retry :
      {s : Collection} (k : Task) (n : ℕ) (rest : List (Task × ℕ))
      → Takes (k, n) s.waiting rest
      → IsOrderly s
      → IsOrderly (record s { waiting = rest })
  quiet_retry {s = s} k n rest took w = record {
    freed = w.freed;
    said = w.said;
    last_word = w.last_word;
    within = λ j. ground (arith, backing_off-Takes j k n took, w.within j);
    limited = w.limited;
  }

  set_outcome :
      {s : Collection} (o : Outcome) → IsOrderly s → IsOrderly (record s { outcome = some o })
  set_outcome o w = record {
    freed = λ h. (o, refl);
    said = w.said;
    last_word = w.last_word;
    within = w.within;
    limited = w.limited;
  }

  -- Nothing is abandoned before the release.
  silent : (s : Collection) → s.released ≡ false → IsOrderly s → has_abandon s.published ≡ false
  silent s open_still w = elim (Bool-cases (has_abandon s.published)) [
    | inl h ↦ let (d, r) = w.said h in cc
    | inr h ↦ h
  ]

  unsaid : (s : Collection) → s.abandon_done ≡ false → IsOrderly s → has_abandon s.published ≡ false
  unsaid s fresh w = elim (Bool-cases (has_abandon s.published)) [
    | inl h ↦ let (d, r) = w.said h in cc
    | inr h ↦ h
  ]

  Handled-IsOrderly : (s t : Collection) → Handled req s t → IsOrderly s → IsOrderly t
  Handled-IsOrderly s t (ignored e) w = rw e w
  Handled-IsOrderly s t (settled id result error h e) w = rw e (
      unread (settle req id result error s).pending s.failing (settle req id result error s).channel
        s.results s.done w)
  Handled-IsOrderly s t (lost id h less e) w = rw e (record {
    freed = w.freed;
    said = w.said;
    last_word = w.last_word;
    within = λ j. ground (arith, counted-retries id j s, w.within j, eqs_iff id j);
    limited = counted-limited id s less w.limited;
  })
  Handled-IsOrderly s t (scheduled id k h less same e) w = rw e (record {
    freed = w.freed;
    said = w.said;
    last_word = w.last_word;
    within = λ j. ground (
      arith,
      counted-retries id j s,
      w.within j,
      eqs_iff id j,
      backing_off-append j s.waiting ((k, retries_of id s) ∷ []),
    );
    limited = counted-limited id s less w.limited;
  })

  module _ (to_lower : Str → Str) (unmarshal : Str → Option Str) where
    Step-IsOrderly :
        (s t : Collection) → Step to_lower unmarshal req s t → IsOrderly s → IsOrderly t
    Step-IsOrderly s t (handles msg room e) w =
        rw e (Handled-IsOrderly s _ (handle_message-Handled req to_lower unmarshal msg s) w)
    Step-IsOrderly s t (retries k n rest open_still idle took e) w = rw e (record {
      freed = w.freed;
      said = w.said;
      last_word = ap not (silent s open_still w);
      within = λ j. ground (arith, backing_off-Takes j k n took, w.within j);
      limited = w.limited;
    })
    Step-IsOrderly s t (fails k n rest open_still idle took e) w = rw e (
        unread (remove k.task_id s.pending) (some k) s.channel s.results s.done
          (quiet_retry k n rest took w))
    Step-IsOrderly s t (sends k f room e) w =
        rw e (unread s.pending none (s.channel ++ failure_of k ∷ []) s.results s.done w)
    Step-IsOrderly s t (gives_up_retry k n rest took e) w = rw e (quiet_retry k n rest took w)
    Step-IsOrderly s t (monitors none_left e) w =
        rw e (unread s.pending s.failing s.channel s.results true w)
    Step-IsOrderly s t (takes r rest waiting_still c e) w =
        rw e (unread s.pending s.failing rest (s.results ++ r ∷ []) s.done w)
    Step-IsOrderly s t (finishes waiting_still d e) w =
        rw e
          (set_outcome complete (unread s.pending s.failing [] (s.results ++ s.channel) s.done w))
    Step-IsOrderly s t (ends waiting_still e) w = rw e (set_outcome gave_up w)
    Step-IsOrderly s t (releases o ended idle e) w = rw e (record {
      freed = λ h. (o, ended);
      said = λ h. ((w.said h).0, refl);
      last_word = w.last_word;
      within = w.within;
      limited = w.limited;
    })
    Step-IsOrderly s t (abandons ended freed once e) w = rw e (record {
      freed = w.freed;
      said = λ h. (refl, freed);
      last_word = ap not (unsaid s once w);
      within = w.within;
      limited = w.limited;
    })

    pub Reached-IsOrderly : {s : Collection} → Reached to_lower unmarshal req s → IsOrderly s
    Reached-IsOrderly stop = prepare-IsOrderly
    Reached-IsOrderly (go r st) = Step-IsOrderly _ _ st (Reached-IsOrderly r)

    -- In every state of a collection, none of its publications comes after an abandon: no task is
    -- published again after it, and it is published once.
    pub Reached-abandon_is_last :
        (s : Collection) → Reached to_lower unmarshal req s → abandon_is_last s.published ≡ true
    Reached-abandon_is_last s r = (Reached-IsOrderly r).last_word

    -- In every state of a collection, a task has been published again at most MaxRetries times.
    pub Reached-redispatches :
        (s : Collection) (id : Str)
        → Reached to_lower unmarshal req s
        → redispatches id s.published ≤ req.max_retries
    Reached-redispatches s id r =
        let w = Reached-IsOrderly r in omega (arith, w.within id, w.limited id)
