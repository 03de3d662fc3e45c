-- ===== src/Examples/WorkerCases.antt =====
-- The abandoned set and its control messages at concrete inputs: internal/worker/abandoned.go.
use crosscodex.Prelude.{
  ℕ, ◌+◌, ◌<◌, ◌≤◌, ◌≡◌, refl, Bool, true, false, List, [], ◌∷◌, some, arith, In, length, ltb, ◌⊎◌,
}
use crosscodex.Prelude.Str.{Str, codes, eqs}
use crosscodex.Prelude.Maps.{lookup, insert, delete}
use crosscodex.Prelude.Join.{has_byte, join}
use crosscodex.Prelude.Regexp.{match_string, reps, is_lower, is_digit}
use crosscodex.Prelude.Result.{ok}
use crosscodex.Tenant.{validate_tenant_id, middle_class, end_class}
use crosscodex.NatsBus.Subjects.{
  AbandonedCollection, abandoned_subject, contains, validate_token, has_delimiter, validate_job_id,
  validate_tenant, build_subject,
}
use crosscodex.NatsBus.Subjects.{result_subject}
use crosscodex.Retention.Duration.{is_negative}
use crosscodex.Analysis.Collector.{CollectRequest, prepare}
use crosscodex.Analysis.Collector.Prepare.{CollectionHandle, prepare_collect, prepare_collect-drop}
use crosscodex.Worker.Abandoned.{
  collection_eq, AbandonedSet, same_collection, new_abandoned_set, pop_oldest, prune, prune_expired,
  report_resize, make_room, add,
}
use crosscodex.Worker.Abandoned
use crosscodex.Worker.Abandoned.Queue.{Refines, queue_add, alive, in_queue}
use crosscodex.Worker.Abandoned.Refinement.{
  add-Refines, contains-Refines, new_abandoned_set-Refines,
}
use crosscodex.Worker.Abandoned.Histories.{
  Call, adds, asks, run, run_total, contains_sound, contains-add,
}
use crosscodex.Worker.Control.{Message, Worker, handle_abandoned}
use crosscodex.Worker.Control.Drops.{
  Obeys, Refuses, handle_abandoned-cases, handle-drop, message_of, drop_task, drop_tasks,
}

abbrev acme : AbandonedCollection
acme = record {
  tenant_id = codes "acme";
  task_type = codes "embed";
  job_id = codes "j1";
  collection_id = codes "c1";
}

abbrev other : AbandonedCollection
other = record acme { collection_id = codes "c2" }

abbrev calls : List (ℕ × Call)
calls = (1, adds acme) ∷ (2, asks acme) ∷ (3, adds other) ∷ []

abbrev fresh : AbandonedSet
fresh = new_abandoned_set 10 1

run_total_example : (s : AbandonedSet) × (run calls fresh ≡ some s) × (length s.order ≤ 1)
run_total_example = run_total 10 1 (omega arith) calls (omega arith)

abbrev reached : AbandonedSet
reached = record {
  ttl = 10;
  limit = 1;
  expires = (other, 13) ∷ [];
  order = other ∷ [];
  resizes = 1 ∷ [];
}

run-reached : run calls fresh ≡ some reached
unfolding add Abandoned.contains new_abandoned_set prune_expired prune pop_oldest make_room
    report_resize lookup insert delete same_collection eqs
run-reached = refl

holds_other : (Abandoned.contains 5 other reached).1 ≡ true
unfolding Abandoned.contains prune_expired prune lookup same_collection eqs report_resize
holds_other = refl

contains_sound_example : (t : ℕ) × In (t, adds other) calls × (5 < t + 10)
contains_sound_example =
    contains_sound 10 1 (omega arith) calls (omega arith) reached run-reached 5 (omega arith) other
      holds_other

absent_acme : (Abandoned.contains 5 acme reached).1 ≡ false
unfolding Abandoned.contains prune_expired prune lookup same_collection eqs report_resize
absent_acme = refl

abbrev with_acme : AbandonedSet
with_acme = record reached { expires = (acme, 15) ∷ []; order = acme ∷ [] }

add-acme : add 5 acme reached ≡ some (with_acme, 1)
unfolding add prune_expired prune pop_oldest make_room report_resize lookup insert delete
    same_collection eqs
add-acme = refl

contains-add_example : (Abandoned.contains 9 acme with_acme).1 ≡ ltb 9 (5 + 10)
contains-add_example =
    contains-add 10 1 (omega arith) calls (omega arith) reached run-reached 5 (omega arith) acme 9 1
      with_acme (omega arith) absent_acme add-acme

add-Refines_example :
    (s' : AbandonedSet) × (n : ℕ) × (add 4 acme fresh ≡ some (s', n))
    × Refines 4 s' (queue_add fresh.limit fresh.ttl 4 acme [])
    × (s'.ttl ≡ fresh.ttl)
    × (s'.limit ≡ fresh.limit)
unfolding new_abandoned_set
add-Refines_example =
    add-Refines 4 acme fresh [] (omega arith) (omega arith) (new_abandoned_set-Refines 3 10 1)

contains-Refines_example :
    Refines 4 (Abandoned.contains 4 acme fresh).0 (alive 4 [])
    × ((Abandoned.contains 4 acme fresh).1 ≡ in_queue (lookup acme (alive 4 [])))
    × ((Abandoned.contains 4 acme fresh).0.ttl ≡ fresh.ttl)
    × ((Abandoned.contains 4 acme fresh).0.limit ≡ fresh.limit)
contains-Refines_example =
    contains-Refines 4 acme fresh [] (omega arith) (new_abandoned_set-Refines 3 10 1)

-- A stand-in for uuid.Parse that accepts one text.
abbrev is_c1 : Str → Bool
is_c1 s = eqs s (codes "c1")

abbrev worker : Worker
worker = record { abandoned = reached; rejected = 0; dropped = 0 }

abbrev subject : Str
subject = codes "crosscodex.control.acme.embed.j1.c1.abandoned"

built : abandoned_subject is_c1 acme ≡ ok subject
unfolding abandoned_subject contains validate_token has_delimiter has_byte validate_job_id
    validate_tenant build_subject validate_tenant_id match_string reps is_lower is_digit
    middle_class end_class eqs join
built = refl

abbrev tasks : List (ℕ × AbandonedCollection)
tasks = (6, other) ∷ (8, acme) ∷ []

handle-drop_example :
    (w' : Worker) × (handle_abandoned is_c1 5 (message_of acme subject) worker ≡ some w')
    × ((drop_task 9 acme (drop_tasks tasks w')).1 ≡ ltb 9 (5 + 10))
handle-drop_example =
    handle-drop is_c1 10 1 (omega arith) calls (omega arith) worker run-reached 5 (omega arith) acme
      subject tasks 9 built (omega arith, (omega arith, tt)) (omega arith) absent_acme

abbrev collect_acme : CollectRequest
collect_acme = record {
  task_type = codes "embed";
  job_id = codes "j1";
  expected_ids = codes "t1" ∷ [];
  tasks = [];
  stage_timeout = 60;
  max_retries = 0;
}

abbrev handle_acme : CollectionHandle
handle_acme = record {
  subject = codes "crosscodex.results.acme.embed.j1";
  abandon_subject = subject;
  collection_id = codes "c1";
  collection = prepare collect_acme;
}

prepared_acme :
    prepare_collect is_c1 true true (some (codes "acme")) (codes "c1") collect_acme ≡ ok handle_acme
unfolding prepare_collect is_negative result_subject abandoned_subject contains validate_token
    has_delimiter has_byte validate_job_id validate_tenant build_subject validate_tenant_id
    match_string reps is_lower is_digit middle_class end_class eqs join
prepared_acme = refl

prepare_collect-drop_example :
    (w' : Worker) × (handle_abandoned is_c1 5 (message_of acme handle_acme.abandon_subject) worker
      ≡ some w')
    × ((drop_task 9 acme (drop_tasks tasks w')).1 ≡ ltb 9 (5 + 10))
prepare_collect-drop_example =
    prepare_collect-drop is_c1 true true 10 1 (omega arith) calls (omega arith) worker run-reached 5
      (omega arith) (codes "acme") (codes "c1") collect_acme handle_acme tasks 9 prepared_acme
      (omega arith, (omega arith, tt)) (omega arith) absent_acme

abbrev stray : Message
stray = record { subject = codes "crosscodex.control"; payload = []; tenant_id = codes "acme" }

handle_abandoned-cases_example :
    (w' : Worker) × (handle_abandoned is_c1 5 stray worker ≡ some w')
    × (Obeys is_c1 5 stray worker w' ⊎ Refuses is_c1 stray worker w')
handle_abandoned-cases_example =
    handle_abandoned-cases is_c1 10 1 (omega arith) calls (omega arith) worker run-reached 5
      (omega arith) stray
