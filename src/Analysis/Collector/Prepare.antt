-- ===== src/Analysis/Collector/Prepare.antt =====
-- PrepareCollect up to its handle, and who obeys its abandon: internal/analysis/collector.go. The
-- tenant of the context, the new UUID and whether the subscriptions succeed are arguments.
use crosscodex.Prelude.{
  ℕ, ◌+◌, ◌≤◌, ◌<◌, ◌≡◌, ap, Bool, true, false, ◌||◌, List, Option, none, some, ltb, ◌==◌,
  if◌then◌else◌, Bool-cases, inl, inr,
}
use crosscodex.Prelude.Str.{Str}
use crosscodex.Prelude.Result.{Result, ok, err}
use crosscodex.NatsBus.Subjects.{
  AbandonedCollection, SubjectError, result_subject, abandoned_subject,
}
use crosscodex.Retention.Duration.{is_negative}
use crosscodex.Worker.Abandoned.{new_abandoned_set, contains}
use crosscodex.Worker.Abandoned.Histories.{Call, Ticking, last_time, run}
use crosscodex.Worker.Control.{Worker, handle_abandoned}
use crosscodex.Worker.Control.Drops.{message_of, drop_task, drop_tasks, handle-drop}
use crosscodex.Analysis.Collector.{CollectRequest, Collection, prepare}

pub data PrepareError : Type 0 where
  no_tenant no_stage_timeout : PrepareError
  bad_subject bad_abandon_subject : SubjectError → PrepareError
  not_subscribed no_progress : PrepareError

-- The handle: its subject, its abandon subject, its ID and the variables that its goroutines share.
pub record CollectionHandle : Type 0 where
  pub subject : Str
  pub abandon_subject : Str
  pub collection_id : Str
  pub collection : Collection

abbrev pub collection_of : Str → Str → CollectRequest → AbandonedCollection
collection_of tenant_id id req = record {
  tenant_id = tenant_id;
  task_type = req.task_type;
  job_id = req.job_id;
  collection_id = id;
}

abbrev pub subscribe_both : Bool → Bool → CollectionHandle → Result PrepareError CollectionHandle
subscribe_both false progress h = err not_subscribed
subscribe_both true false h = err no_progress
subscribe_both true true h = ok h

abbrev pub with_abandon :
    Bool
    → Bool
    → Str
    → CollectRequest
    → Str
    → Result SubjectError Str
    → Result PrepareError CollectionHandle
with_abandon bus progress id req subject (err e) = err (bad_abandon_subject e)
with_abandon bus progress id req subject (ok abandon) = subscribe_both bus progress (record {
  subject = subject;
  abandon_subject = abandon;
  collection_id = id;
  collection = prepare req;
})

-- A handle names the abandon subject that was built.
handle_of : CollectionHandle → Result PrepareError CollectionHandle → CollectionHandle
handle_of other (ok h) = h
handle_of other (err e) = other

with_abandon-built :
    (bus progress : Bool) (id : Str) (req : CollectRequest) (subject : Str)
    (r : Result SubjectError Str) (handle : CollectionHandle)
    → with_abandon bus progress id req subject r ≡ ok handle
    → r ≡ ok handle.abandon_subject
unfolding handle_of
with_abandon-built bus progress id req subject (err e) handle h = cc
with_abandon-built false progress id req subject (ok a) handle h = cc
with_abandon-built true false id req subject (ok a) handle h = cc
with_abandon-built true true id req subject (ok a) handle h =
    ap (λ r. ok (handle_of handle r).abandon_subject) h

module _ (is_canonical_uuid : Str → Bool) (bus progress : Bool) where
  abbrev pub with_subject :
      Str → Str → CollectRequest → Result SubjectError Str → Result PrepareError CollectionHandle
  with_subject tenant_id id req (err e) = err (bad_subject e)
  with_subject tenant_id id req (ok subject) =
      with_abandon bus progress id req subject
        (abandoned_subject is_canonical_uuid (collection_of tenant_id id req))

  unfoldable pub prepare_collect :
      Option Str → Str → CollectRequest → Result PrepareError CollectionHandle
  unfolding is_negative result_subject abandoned_subject prepare
  prepare_collect none id req = err no_tenant
  prepare_collect (some tenant_id) id req =
      if req.stage_timeout == 0 || is_negative req.stage_timeout
      then err no_stage_timeout
      else with_subject tenant_id id req (result_subject tenant_id req.task_type req.job_id)

  abandon_built :
      (tenant_id id : Str) (req : CollectRequest) (subject : Result SubjectError Str)
      (handle : CollectionHandle)
      → with_subject tenant_id id req subject ≡ ok handle
      → abandoned_subject is_canonical_uuid (collection_of tenant_id id req)
        ≡ ok handle.abandon_subject
  abandon_built tenant_id id req (err e) handle h = cc
  abandon_built tenant_id id req (ok subject) handle h =
      with_abandon-built bus progress id req subject _ handle h

  prepare_collect-abandon :
      (tenant_id id : Str) (req : CollectRequest) (handle : CollectionHandle)
      → prepare_collect (some tenant_id) id req ≡ ok handle
      → abandoned_subject is_canonical_uuid (collection_of tenant_id id req)
        ≡ ok handle.abandon_subject
  unfolding prepare_collect
  prepare_collect-abandon tenant_id id req handle h =
      elim (Bool-cases (req.stage_timeout == 0 || is_negative req.stage_timeout)) [
        | inl b ↦ let no = rw b at h in cc
        | inr b ↦
            abandon_built tenant_id id req (result_subject tenant_id req.task_type req.job_id)
              handle (rw b at h)
      ]

  module _ (ttl limit : ℕ) (pos : 0 < limit) (h : List (ℕ × Call)) (ticking : Ticking 0 h)
      (w : Worker) (reached : run h (new_abandoned_set ttl limit) ≡ some w.abandoned) (now : ℕ)
      (le : last_time 0 h ≤ now) where
    -- After any calls of its set, of a positive limit, at times that never fall, let a worker handle
    -- the abandon of a collection that the set does not report (sent by its tenant, without a
    -- payload, on the subject that PrepareCollect gave the collection's handle) and then any tasks,
    -- at times that never fall. A task of the collection that comes next is dropped exactly if less
    -- than `ttl` has passed since the abandon, as long as no other control message is handled in
    -- between.
    pub prepare_collect-drop :
        (tenant_id id : Str) (req : CollectRequest) (handle : CollectionHandle)
        (ts : List (ℕ × AbandonedCollection)) (later : ℕ)
        → prepare_collect (some tenant_id) id req ≡ ok handle
        → Ticking now ts
        → last_time now ts ≤ later
        → (contains now (collection_of tenant_id id req) w.abandoned).1 ≡ false
        → (w' : Worker) × (handle_abandoned is_canonical_uuid now
              (message_of (collection_of tenant_id id req) handle.abandon_subject)
              w
            ≡ some w')
          × ((drop_task later (collection_of tenant_id id req) (drop_tasks ts w')).1
              ≡ ltb later (now + ttl))
    prepare_collect-drop tenant_id id req handle ts later prepared tasks le' absent =
        handle-drop is_canonical_uuid ttl limit pos h ticking w reached now le
          (collection_of tenant_id id req) handle.abandon_subject ts later
          (prepare_collect-abandon tenant_id id req handle prepared) tasks le' absent
