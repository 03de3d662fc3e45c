-- ===== src/Analysis/Collector.antt =====
-- The handler of task results and its retries: internal/analysis/collector.go. The payload of a
-- task and of a result is bytes; structpb's Unmarshal and strings.ToLower are parameters. Logs,
-- spans, metrics and the length of the backoff are left out.
pub mod Steps
pub mod Prepare
pub mod Cases
pub mod Accounting
pub mod Invariant
pub mod Complete
pub mod Publications
pub mod Orderly
pub mod Progress
pub mod Liveness
pub mod Loss
use crosscodex.Prelude.{
  ℕ, suc, ◌+◌, ◌≡◌, refl, Bool, true, false, not, ◌&&◌, ◌||◌, List, [], ◌∷◌, ◌++◌, Option, none,
  some, ltb, leb, ◌==◌, length, if◌then◌else◌, map,
}
use crosscodex.Prelude.Str.{Str, codes, eqs, is_empty}
use crosscodex.Prelude.Eq.{str_eq}
use crosscodex.Prelude.Maps.{lookup, insert}
use crosscodex.Prelude.Sets.{has, remove, add_all}

pub record Task : Type 0 where
  pub task_id : Str
  pub task_type : Str
  pub payload : Str

-- What sanitizeError returns; the first wraps ErrOutputTruncated.
pub data TaskError : Type 0 where
  output_truncated timed_out invalid failed : TaskError

-- Those but the first wrap ErrRetryExhausted.
pub data ResultError : Type 0 where
  truncated missing_task redispatch_failed : ResultError
  exhausted : TaskError → ResultError

pub record TaskResult : Type 0 where
  pub task_id : Str
  pub task_type : Str
  pub result : Option Str
  pub error : Option ResultError

-- A negative MaxRetries acts as 0; StageTimeout is the pattern of an int64. Timeout, Backoff and
-- Dispatcher are left out.
pub record CollectRequest : Type 0 where
  pub task_type : Str
  pub job_id : Str
  pub expected_ids : List Str
  pub tasks : List Task
  pub stage_timeout : ℕ
  pub max_retries : ℕ

pub record Message : Type 0 where
  pub headers : List (Str × List Str)
  pub payload : Str

-- What goes out for the collection: a task again, with its retry count, or the abandon.
pub data Publication : Type 0 where
  redispatched : Task → ℕ → Publication
  abandoned : Publication

pub data Outcome : Type 0 where
  complete gave_up : Outcome

-- The variables that the handler, the retries, the monitor and AwaitResults share. `waiting` holds
-- the retries in their backoff; `failing` the one whose redispatch failed and which has deleted its
-- task from pending, but not sent its result yet: it holds redispatchMu until it has.
pub record Collection : Type 0 where
  pub pending : List Str
  pub retry_counts : List (Str × ℕ)
  pub waiting : List (Task × ℕ)
  pub failing : Option Task
  pub channel : List TaskResult
  pub done : Bool
  pub results : List TaskResult
  pub outcome : Option Outcome
  pub released : Bool
  pub abandon_done : Bool
  pub published : List Publication  -- newest first

unfoldable pub prepare : CollectRequest → Collection
unfolding add_all
prepare req = record {
  pending = add_all [] req.expected_ids;
  retry_counts = [];
  waiting = [];
  failing = none;
  channel = [];
  done = false;
  results = [];
  outcome = none;
  released = false;
  abandon_done = false;
  published = [];
}

abbrev first_value : Option (List Str) → Str
first_value (some (v ∷ vs)) = v
first_value vs = []

unfoldable pub get_header : List (Str × List Str) → Str → Str
get_header headers key = first_value (lookup key headers)

-- strings.HasPrefix and strings.Contains
unfoldable pub has_prefix : Str → Str → Bool
has_prefix s [] = true
has_prefix [] (c ∷ p) = false
has_prefix (d ∷ s) (c ∷ p) = d == c && has_prefix s p

unfoldable pub includes : Str → Str → Bool
unfolding has_prefix
includes [] p = has_prefix [] p
includes (c ∷ s) p = has_prefix (c ∷ s) p || includes s p

abbrev header_task_id : Str
header_task_id = codes "X-Task-Id"

abbrev header_error : Str
header_error = codes "X-Error"

abbrev pub count_or_zero : Option ℕ → ℕ
count_or_zero none = 0
count_or_zero (some n) = n

abbrev or_later : Option Task → Task → Option Task
or_later none t = some t
or_later (some u) t = some u

-- taskMap[id]: of several tasks with one ID the last one.
unfoldable pub find_task : Str → List Task → Option Task
find_task id [] = none
find_task id (t ∷ ts) =
    let later = find_task id ts in if eqs t.task_id id then or_later later t else later

abbrev pub is_truncated : TaskError → Bool
is_truncated output_truncated = true
is_truncated e = false

abbrev pub final_error : TaskError → ResultError
final_error output_truncated = truncated
final_error e = exhausted e

-- delete(pending, id); resultChan <- result
abbrev pub settle : CollectRequest → Str → Option Str → Option ResultError → Collection → Collection
settle req id result error s = record s {
  pending = remove id s.pending;
  channel =
      s.channel
      ++ record { task_id = id; task_type = req.task_type; result = result; error = error } ∷ [];
}

abbrev pub schedule : CollectRequest → Option Task → Str → ℕ → Collection → Collection
schedule req none id n s = settle req id none (some missing_task) s
schedule req (some t) id n s = record s { waiting = s.waiting ++ (t, n) ∷ [] }

-- The branch of a result with an error.
unfoldable pub handle_error : CollectRequest → Str → TaskError → Collection → Collection
unfolding find_task
handle_error req id e s =
    let n = count_or_zero (lookup id s.retry_counts) in
    if ltb n req.max_retries && not (is_truncated e)
    then schedule req (find_task id req.tasks) id n
        (record s { retry_counts = insert id (suc n) s.retry_counts })
    else settle req id none (some (final_error e)) s

abbrev pub handle_outcome :
    CollectRequest → Str → Option TaskError → Option Str → Collection → Collection
handle_outcome req id (some e) result s = handle_error req id e s
handle_outcome req id none result s = settle req id result none s

-- natsbus.ResultErrorOutputTruncated
abbrev output_truncated_code : Str
output_truncated_code = codes "output_truncated"

module _ (to_lower : Str → Str) (unmarshal : Str → Option Str) where
  unfoldable pub sanitize_error : Str → TaskError
  sanitize_error msg =
      let lower = to_lower msg in
      if eqs msg output_truncated_code
      then output_truncated
      else if includes lower (codes "timeout") || includes lower (codes "deadline")
      then timed_out
      else if includes lower (codes "invalid") || includes lower (codes "malformed")
      then invalid
      else failed

  abbrev decoded : Option Str → Option TaskError × Option Str
  decoded none = (some failed, none)
  decoded (some v) = (none, some v)

  -- The error and the payload that a message stands for.
  unfoldable pub read_result : Message → Option TaskError × Option Str
  read_result msg =
      let e = get_header msg.headers header_error in
      if not (is_empty e)
      then (some (sanitize_error e), none)
      else if is_empty msg.payload
      then (none, none)
      else decoded (unmarshal msg.payload)

  unfoldable pub handle_message : CollectRequest → Message → Collection → Collection
  handle_message req msg s =
      let id = get_header msg.headers header_task_id in
      if is_empty id
      then s
      else if not (has s.pending id)
      then s
      else handle_outcome req id (read_result msg).0 (read_result msg).1 s
