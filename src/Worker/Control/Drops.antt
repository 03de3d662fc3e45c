-- ===== src/Worker/Control/Drops.antt =====
-- From an abandon message to the dropped task: internal/worker/abandoned.go.
use crosscodex.Prelude.{
  ℕ, sym, subst, ◌+◌, ◌<◌, ◌≤◌, ◌≡◌, refl, ap, ◌∙◌, Bool, true, false, List, [], ◌∷◌, some, ltb,
  arith, ◌⊎◌, inl, inr, ◌≢◌, Bool-cases,
}
use crosscodex.Prelude.Str.{Str, eqs, eqs_refl, eqs_iff, is_empty}
use crosscodex.Prelude.Result.{Result, ok, err}
use crosscodex.NatsBus.Subjects.{
  SubjectError, AbandonedCollection, abandoned_subject, parse_abandoned_subject,
}
use crosscodex.NatsBus.Subjects.Roundtrip.{
  parse-abandoned_subject, abandoned_subject-parse, collection_named,
}
use crosscodex.Worker.Abandoned.{AbandonedSet, new_abandoned_set, add, contains}
use crosscodex.Worker.Abandoned.Histories.{Call, run, Ticking, last_time, add_total}
use crosscodex.Worker.Abandoned.Queries.{
  ReportsUntil, added-ReportsUntil, contains-ReportsUntil, ReportsUntil-later,
  ReportsUntil-contains,
}
use crosscodex.Worker.Control.{
  Message, Worker, reject_control, with_set, handle_parsed, handle_abandoned, drop_abandoned,
}

is_empty-eq : (s : Str) → is_empty s ≡ true → s ≡ []
is_empty-eq [] h = refl
is_empty-eq (c ∷ s) h = cc

abbrev pub message_of : AbandonedCollection → Str → Message
message_of c subject = record { subject = subject; payload = []; tenant_id = c.tenant_id }

-- What a control message has to be: on the subject that AbandonedSubject builds for a collection,
-- sent by the tenant of that collection, and without a payload.
abbrev pub Obeyed : (Str → Bool) → Message → AbandonedCollection → Type 0
Obeyed u msg c =
    (abandoned_subject u c ≡ ok msg.subject) × (msg.tenant_id ≡ c.tenant_id) × (msg.payload ≡ [])

-- What handling a message did: it added the collection, or counted the message as rejected.
abbrev pub Obeys : (Str → Bool) → ℕ → Message → Worker → Worker → Type 0
Obeys u now msg w w' =
    (c : AbandonedCollection) × (n : ℕ) × Obeyed u msg c
    × (add now c w.abandoned ≡ some (w'.abandoned, n))
    × (w'.rejected ≡ w.rejected)
    × (w'.dropped ≡ w.dropped)

abbrev pub Refuses : (Str → Bool) → Message → Worker → Worker → Type 0
Refuses u msg w w' =
    (¬ ((c : AbandonedCollection) × Obeyed u msg c))
    × (w'.abandoned ≡ w.abandoned)
    × (w'.rejected ≡ w.rejected + 1)
    × (w'.dropped ≡ w.dropped)

module _ (u : Str → Bool) (now : ℕ) (msg : Message) (w : Worker) where
  refused :
      (r : Result SubjectError AbandonedCollection)
      → ¬ ((c : AbandonedCollection) × Obeyed u msg c)
      → handle_parsed now msg w r ≡ some (reject_control w)
      → (w' : Worker) × (handle_parsed now msg w r ≡ some w')
        × (Obeys u now msg w w' ⊎ Refuses u msg w w')
  unfolding reject_control
  refused r stray h = (reject_control w, h, inr (stray, refl, refl, refl))

  -- The one collection that a message can name is the one that its subject parses to.
  Obeyed-same :
      (c d : AbandonedCollection)
      → parse_abandoned_subject u msg.subject ≡ ok c
      → Obeyed u msg d
      → d ≡ c
  Obeyed-same c d p o =
      let q = parse-abandoned_subject u d o.0 in let e : ok d ≡ ok c = sym q ∙ p in cc

  handle_parsed-cases :
      (added : (c : AbandonedCollection)
        → (s : AbandonedSet) × (n : ℕ) × (add now c w.abandoned ≡ some (s, n)))
      (r : Result SubjectError AbandonedCollection)
      → parse_abandoned_subject u msg.subject ≡ r
      → (w' : Worker) × (handle_parsed now msg w r ≡ some w')
        × (Obeys u now msg w w' ⊎ Refuses u msg w w')
  handle_parsed-cases added (err e) p =
      refused (err e) (λ (c, o). cc (parse-abandoned_subject u c o.0)) refl
  handle_parsed-cases added (ok c) p = elim (Bool-cases (eqs msg.tenant_id c.tenant_id)) [
    | inl same ↦ elim (Bool-cases (is_empty msg.payload)) [
      | inl bare ↦
          let (s, n, e) = added c in
          let o : Obeyed u msg c = (
            abandoned_subject-parse u msg.subject c p,
            (eqs_iff msg.tenant_id c.tenant_id).0 same,
            is_empty-eq msg.payload bare,
          ) in
          (
            record w { abandoned = s },
            rw (same, bare) (ap (with_set w) e),
            inl (c, n, o, e, refl, refl),
          )
      | inr loaded ↦
          refused (ok c) (λ (d, o). cc (subst (λ x. is_empty x ≡ false) o.2 loaded))
            (rw (same, loaded) refl)
    ]
    | inr other ↦
        refused (ok c)
          (λ (d, o).
            let same =
              (eqs_iff msg.tenant_id c.tenant_id).1
                (o.1 ∙ ap (λ (x : AbandonedCollection). x.tenant_id) (Obeyed-same c d p o)) in
            cc)
          (rw other refl)
  ]

handled :
    (u : Str → Bool) (now : ℕ) (c : AbandonedCollection) (subject : Str) (w : Worker)
    → abandoned_subject u c ≡ ok subject
    → handle_abandoned u now (message_of c subject) w ≡ with_set w (add now c w.abandoned)
unfolding handle_abandoned
handled u now c subject w h = rw (parse-abandoned_subject u c h, eqs_refl c.tenant_id)

abbrev pub drop_task : ℕ → AbandonedCollection → Worker → Worker × Bool
drop_task later c w = drop_abandoned later c.tenant_id c.task_type c.job_id c.collection_id w

-- The worker's tasks: each with the time at which it comes and what it names.
abbrev pub drop_tasks : List (ℕ × AbandonedCollection) → Worker → Worker
drop_tasks [] w = w
drop_tasks ((t, c) ∷ ts) w = drop_tasks ts (drop_task t c w).0

drop_task-contains :
    (later : ℕ) (c : AbandonedCollection) (w : Worker)
    → c.collection_id ≢ []
    → (drop_task later c w).1 ≡ (contains later c w.abandoned).1
unfolding drop_abandoned
drop_task-contains later c w h = ground arith

drop_task-set :
    (later : ℕ) (c : AbandonedCollection) (w : Worker)
    → ((drop_task later c w).0.abandoned ≡ w.abandoned)
      ⊎ ((drop_task later c w).0.abandoned ≡ (contains later c w.abandoned).0)
unfolding drop_abandoned
drop_task-set later c w = elim (Bool-cases (is_empty c.collection_id)) [
  | inl e ↦ inl (rw e refl)
  | inr e ↦ inr (rw e (ground arith))
]

module _ (k : AbandonedCollection) (end : ℕ) where
  drop_task-ReportsUntil :
      {clock : ℕ} (now : ℕ) (c : AbandonedCollection) (w : Worker)
      → clock ≤ now
      → ReportsUntil k end clock w.abandoned
      → ReportsUntil k end now (drop_task now c w).0.abandoned
  drop_task-ReportsUntil now c w le u = elim (drop_task-set now c w) [
    | inl e ↦ subst (ReportsUntil k end now) (sym e) (ReportsUntil-later k end w.abandoned u now le)
    | inr e ↦
        subst (ReportsUntil k end now) (sym e) (contains-ReportsUntil k end w.abandoned u now le c)
  ]

  drop_tasks-ReportsUntil :
      {clock : ℕ} (ts : List (ℕ × AbandonedCollection)) (w : Worker)
      → Ticking clock ts
      → ReportsUntil k end clock w.abandoned
      → ReportsUntil k end (last_time clock ts) (drop_tasks ts w).abandoned
  drop_tasks-ReportsUntil [] w t u = u
  drop_tasks-ReportsUntil ((now, c) ∷ ts) w t u =
      drop_tasks-ReportsUntil ts (drop_task now c w).0 t.1 (drop_task-ReportsUntil now c w t.0 u)

module _ (u : Str → Bool) (ttl limit : ℕ) (pos : 0 < limit) (h : List (ℕ × Call))
    (ticking : Ticking 0 h) (w : Worker)
    (reached : run h (new_abandoned_set ttl limit) ≡ some w.abandoned) (now : ℕ)
    (le : last_time 0 h ≤ now) where
  -- After any calls of a set with a positive limit, at times that never fall, a control message
  -- does not make the worker panic. If it is on the subject that AbandonedSubject builds for a collection, is sent by the
  -- tenant of that collection and has no payload, the collection is added to the set and nothing is
  -- counted; if it is so for no collection, it is counted as rejected once, and the set and the
  -- count of dropped tasks stay as they are.
  pub handle_abandoned-cases :
      (msg : Message)
      → (w' : Worker) × (handle_abandoned u now msg w ≡ some w')
        × (Obeys u now msg w w' ⊎ Refuses u msg w w')
  unfolding handle_abandoned
  handle_abandoned-cases msg =
      handle_parsed-cases u now msg w (add_total ttl limit pos h ticking w.abandoned reached now le)
        (parse_abandoned_subject u msg.subject) refl

  -- After any calls of a set with a positive limit, at times that never fall, let a worker handle
  -- the abandon message of a collection that the set does not report (sent by its tenant, without a
  -- payload, on the subject that AbandonedSubject builds) and then any tasks, at times that never
  -- fall. A task of that collection that comes next is dropped exactly if less than `ttl` has passed
  -- since the message, as long as no other control message is handled in between.
  pub handle-drop :
      (c : AbandonedCollection) (subject : Str) (ts : List (ℕ × AbandonedCollection)) (later : ℕ)
      → abandoned_subject u c ≡ ok subject
      → Ticking now ts
      → last_time now ts ≤ later
      → (contains now c w.abandoned).1 ≡ false
      → (w' : Worker) × (handle_abandoned u now (message_of c subject) w ≡ some w')
        × ((drop_task later c (drop_tasks ts w')).1 ≡ ltb later (now + ttl))
  handle-drop c subject ts later built tasks le' absent =
      let (s', n, added) = add_total ttl limit pos h ticking w.abandoned reached now le c in
      let w' = record w { abandoned = s' } in
      let until = drop_tasks-ReportsUntil c (now + ttl) ts w' tasks (
        added-ReportsUntil ttl limit pos h ticking w.abandoned reached now le c n s' absent
          added) in
      (
        w',
        handled u now c subject w built ∙ ap (with_set w) added,
        drop_task-contains later c (drop_tasks ts w') (collection_named u c built)
            ∙ ReportsUntil-contains c (now + ttl) (drop_tasks ts w').abandoned until later le',
      )
