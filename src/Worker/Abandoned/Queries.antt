-- ===== src/Worker/Abandoned/Queries.antt =====
-- How long the abandoned set reports a collection, whatever else it is asked meanwhile:
-- internal/worker/abandoned.go.
use crosscodex.Prelude.{
  ℕ, ◌+◌, ◌<◌, ◌≤◌, ◌≡◌, refl, sym, ap, ◌∙◌, subst, false, List, some, ltb, Option-cases, inl, inr,
  arith, All-mono,
}
use crosscodex.Prelude.Maps.{lookup}
use crosscodex.NatsBus.Subjects.{AbandonedCollection}
use crosscodex.Worker.Abandoned.{AbandonedSet, collection_eq, new_abandoned_set, add, contains}
use crosscodex.Worker.Abandoned.Queue.{
  Entries, alive, lookup-alive, Distinct-alive, in_queue, queue_add, Distinct, Refines,
}
use crosscodex.Worker.Abandoned.Refinement.{add-Refines, contains-Refines}
use crosscodex.Worker.Abandoned.Bounds.{queue_add-reports}
use crosscodex.Worker.Abandoned.Histories.{Call, run, Ticking, last_time, reached-Refines}

-- From `clock` on, the set reports `k` exactly until `end`, if nothing is added.
pub record ReportsUntil (k : AbandonedCollection) (end clock : ℕ) (s : AbandonedSet) : Type 0 where
  entries : Entries
  refines : Refines clock s entries
  answers : (later : ℕ) → clock ≤ later → in_queue (lookup k (alive later entries)) ≡ ltb later end

alive-alive :
    (now later : ℕ) (k : AbandonedCollection) (es : Entries)
    → Distinct es
    → now ≤ later
    → lookup k (alive later (alive now es)) ≡ lookup k (alive later es)
alive-alive now later k es d le =
    lookup-alive later k (alive now es) (Distinct-alive now es d)
    ∙ elim (Option-cases (lookup k es)) [
      | inl e ↦ rw (lookup-alive now k es d, lookup-alive later k es d, e) refl
      | inr (t, e) ↦ rw (lookup-alive now k es d, lookup-alive later k es d, e) (ground arith)
    ]

module _ (k : AbandonedCollection) (end : ℕ) {clock : ℕ} (s : AbandonedSet)
    (u : ReportsUntil k end clock s) (now : ℕ) (le : clock ≤ now) where
  -- Asking about any collection changes nothing about when `k` is reported.
  pub contains-ReportsUntil :
      (c : AbandonedCollection) → ReportsUntil k end now (contains now c s).0
  contains-ReportsUntil c = record {
    entries = alive now u.entries;
    refines = (contains-Refines now c s u.entries le u.refines).0;
    answers = λ later le'.
        ap in_queue (alive-alive now later k u.entries u.refines.distinct le')
        ∙ u.answers later (omega arith);
  }

  pub ReportsUntil-later : ReportsUntil k end now s
  ReportsUntil-later = record {
    entries = u.entries;
    refines = record {
      ordered = u.refines.ordered;
      timed = u.refines.timed;
      distinct = u.refines.distinct;
      ascending = u.refines.ascending;
      recent =
          All-mono (λ e. e.1 ≤ clock + s.ttl) (λ e. e.1 ≤ now + s.ttl) u.entries
            (λ e h. omega arith) u.refines.recent;
    };
    answers = λ later le'. u.answers later (omega arith);
  }

  pub ReportsUntil-contains : (contains now k s).1 ≡ ltb now end
  ReportsUntil-contains = (contains-Refines now k s u.entries le u.refines).1 ∙ u.answers now le

module _ (ttl limit : ℕ) (pos : 0 < limit) (h : List (ℕ × Call)) (ticking : Ticking 0 h)
    (s : AbandonedSet) (reached : run h (new_abandoned_set ttl limit) ≡ some s) (now : ℕ)
    (le : last_time 0 h ≤ now) (c : AbandonedCollection) where
  -- A collection that is added when it is not reported is reported until `ttl` has passed.
  pub added-ReportsUntil :
      (n : ℕ) (s' : AbandonedSet)
      → (contains now c s).1 ≡ false
      → add now c s ≡ some (s', n)
      → ReportsUntil c (now + ttl) now s'
  added-ReportsUntil n s' absent added =
      let (es, r0, same_ttl, same_limit) =
        reached-Refines ttl limit pos h ticking s reached now le c in
      let (ra, answer, _, _) = contains-Refines now c s es le r0 in
      let (s'', n'', out, r, _, _) = add-Refines now c s es (rw same_limit pos) le r0 in
      let same : s'' ≡ s' = cc in
      let r' = subst (λ x. Refines now x (queue_add s.limit s.ttl now c es)) same r in
      record {
        entries = queue_add s.limit s.ttl now c es;
        refines = r';
        answers = λ later le'.
            queue_add-reports s.limit s.ttl now later c es r'.distinct ra.distinct
              (sym answer ∙ absent)
            ∙ ap (λ (t : ℕ). ltb later (now + t)) same_ttl;
      }
