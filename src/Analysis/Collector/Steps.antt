-- ===== src/Analysis/Collector/Steps.antt =====
-- The interleavings of a collection: the handler, the retries' goroutines, AwaitResults with its
-- monitor, release and abandon, of internal/analysis/collector.go and types.go. Each step is what
-- one goroutine does while it holds the lock of pending, or one operation on a channel; a send waits
-- for room. A failing retry holds redispatchMu until its result is sent.
use crosscodex.Prelude.{
  ℕ, suc, ◌≤◌, ◌<◌, ◌≡◌, true, false, List, [], ◌∷◌, ◌++◌, Option, none, some, length, subst, All,
}
use crosscodex.Prelude.Str.{Str}
use crosscodex.Prelude.Sets.{remove}
use crosscodex.Analysis.Collector.{
  Task, TaskResult, redispatch_failed, CollectRequest, Message, redispatched, abandoned, Outcome,
  complete, gave_up, Collection, prepare, handle_message,
}

-- The retry that has failed to publish deletes its task, and sends its result afterwards.
abbrev pub drop_failed : Task → List (Task × ℕ) → Collection → Collection
drop_failed t rest s = record s {
  waiting = rest;
  pending = remove t.task_id s.pending;
  failing = some t;
}

abbrev pub failure_of : Task → TaskResult
failure_of t = record {
  task_id = t.task_id;
  task_type = t.task_type;
  result = none;
  error = some redispatch_failed;
}

abbrev pub publish_retry : Task → ℕ → List (Task × ℕ) → Collection → Collection
publish_retry t n rest s = record s {
  waiting = rest;
  published = redispatched t (suc n) ∷ s.published;
}

abbrev pub finish : Collection → Collection
finish s = record s { results = s.results ++ s.channel; channel = []; outcome = some complete }

-- `Takes x xs rest`: `rest` is `xs` without the element `x`, wherever it stood.
pub data Takes {ℓ} {A : Type ℓ} (x : A) : List A → List A → Type ℓ where
  first : {y : A} {xs : List A} → y ≡ x → Takes x (y ∷ xs) xs
  later : {y : A} {xs rest : List A} → Takes x xs rest → Takes x (y ∷ xs) (y ∷ rest)

pub All-Takes {ℓ κ} :
    {A : Type ℓ} (P : A → Type κ) {x : A} {xs rest : List A}
    → All P xs
    → Takes x xs rest
    → P x × All P rest
All-Takes P h (first e) = (subst P e h.0, h.1)
All-Takes P h (later t) = let (p, ps) = All-Takes P h.1 t in (p, (h.0, ps))

module _ (to_lower : Str → Str) (unmarshal : Str → Option Str) (req : CollectRequest) where
  -- The capacity of the channel of results.
  abbrev pub capacity : ℕ
  capacity = length req.expected_ids

  pub data Step (s : Collection) (t : Collection) : Type 0 where
    -- The handler runs under its lock; if it cannot send, it waits, and nothing shows meanwhile.
    handles :
        (msg : Message)
        → length t.channel ≤ capacity
        → t ≡ handle_message to_lower unmarshal req msg s
        → Step s t
    -- A retry's timer fires, and the retry has found, under its lock, that nothing is released.
    retries :
        (k : Task) (n : ℕ) (rest : List (Task × ℕ))
        → s.released ≡ false
        → s.failing ≡ none
        → Takes (k, n) s.waiting rest
        → t ≡ publish_retry k n rest s
        → Step s t
    fails :
        (k : Task) (n : ℕ) (rest : List (Task × ℕ))
        → s.released ≡ false
        → s.failing ≡ none
        → Takes (k, n) s.waiting rest
        → t ≡ drop_failed k rest s
        → Step s t
    sends :
        (k : Task)
        → s.failing ≡ some k
        → length s.channel < capacity
        → t ≡ record s { failing = none; channel = s.channel ++ failure_of k ∷ [] }
        → Step s t
    -- The collection was released, or its context has ended.
    gives_up_retry :
        (k : Task) (n : ℕ) (rest : List (Task × ℕ))
        → Takes (k, n) s.waiting rest
        → t ≡ record s { waiting = rest }
        → Step s t
    -- The monitor of AwaitResults finds nothing pending.
    monitors : s.pending ≡ [] → t ≡ record s { done = true } → Step s t
    takes :
        (r : TaskResult) (rest : List TaskResult)
        → s.outcome ≡ none
        → s.channel ≡ r ∷ rest
        → t ≡ record s { channel = rest; results = s.results ++ r ∷ [] }
        → Step s t
    finishes : s.outcome ≡ none → s.done ≡ true → t ≡ finish s → Step s t
    -- A timeout, or the end of the context.
    ends : s.outcome ≡ none → t ≡ record s { outcome = some gave_up } → Step s t
    releases :
        (o : Outcome)
        → s.outcome ≡ some o
        → s.failing ≡ none
        → t ≡ record s { released = true }
        → Step s t
    -- Only after release, and only once. The publication may fail, which is left out.
    abandons :
        s.outcome ≡ some gave_up
        → s.released ≡ true
        → s.abandon_done ≡ false
        → t ≡ record s { published = abandoned ∷ s.published; abandon_done = true }
        → Step s t

  pub data Reach (s : Collection) : Collection → Type 0 where
    stop : Reach s s
    go : {t u : Collection} → Reach s t → Step t u → Reach s u

  abbrev pub Reached : Collection → Type 0
  Reached s = Reach (prepare req) s
