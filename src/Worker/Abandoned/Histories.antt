-- ===== src/Worker/Abandoned/Histories.antt =====
-- Sequences of calls of the abandoned set (internal/worker/abandoned.go), each with its time.
use crosscodex.Prelude.{
  ℕ, ◌+◌, ◌<◌, ◌≤◌, ◌≡◌, refl, sym, ap, ◌∙◌, subst, true, false, List, [], ◌∷◌, Option, none, some,
  ltb, length, length-append, arith, Bool-cases, inl, inr, In, here, there,
}
use crosscodex.Prelude.Maps.{lookup}
use crosscodex.NatsBus.Subjects.{AbandonedCollection}
use crosscodex.Worker.Abandoned.{AbandonedSet, collection_eq, new_abandoned_set, add, contains}
use crosscodex.Worker.Abandoned.Queue.{
  Entries, alive, Distinct-alive, in_queue, queue_room, queue_add, Distinct, Refines, length-keys,
}
use crosscodex.Worker.Abandoned.Refinement.{
  add-Refines, contains-Refines, new_abandoned_set-Refines,
}
use crosscodex.Worker.Abandoned.Bounds.{
  length-alive, length-queue_room, lookup-alive-some, lookup-queue_room-some, split_added,
  in_queue-true, queue_add-reports,
}

pub data Call : Type 0 where
  adds asks : AbandonedCollection → Call

abbrev after_add : Option (AbandonedSet × ℕ) → Option AbandonedSet
after_add none = none
after_add (some (s, n)) = some s

abbrev pub step : ℕ × Call → AbandonedSet → Option AbandonedSet
step (now, adds c) s = after_add (add now c s)
step (now, asks c) s = some (contains now c s).0

abbrev pub run : List (ℕ × Call) → AbandonedSet → Option AbandonedSet
run [] s = some s
run (e ∷ es) s = elim (step e s) [ none ↦ none | some t ↦ run es t ]

abbrev queue_step : ℕ → ℕ → ℕ × Call → Entries → Entries
queue_step limit ttl (now, adds c) es = queue_add limit ttl now c es
queue_step limit ttl (now, asks c) es = alive now es

-- The times never fall, from `clock` on.
abbrev pub Ticking : {A : Type 0} → ℕ → List (ℕ × A) → Type 0
Ticking clock [] = Unit {0}
Ticking clock ((t, c) ∷ h) = (clock ≤ t) × Ticking t h

abbrev pub last_time : {A : Type 0} → ℕ → List (ℕ × A) → ℕ
last_time clock [] = clock
last_time clock ((t, c) ∷ h) = last_time t h

length-queue_step :
    (limit ttl : ℕ) (e : ℕ × Call) (es : Entries)
    → 0 < limit
    → length es ≤ limit
    → length (queue_step limit ttl e es) ≤ limit
unfolding queue_add
length-queue_step limit ttl (now, asks c) es pos h = omega (arith, length-alive now es)
length-queue_step limit ttl (now, adds c) es pos h = ground (
  arith,
  length-alive now es,
  length-queue_room limit (alive now es),
  length-append (queue_room limit (alive now es)) ((c, now + ttl) ∷ []),
)

run-cons :
    (e : ℕ × Call) (h : List (ℕ × Call)) (s : AbandonedSet) {t : AbandonedSet}
    → step e s ≡ some t
    → run (e ∷ h) s ≡ run h t
run-cons e h s out = ap (λ o. elim o [ none ↦ none | some t ↦ run h t ]) out

module _ (ttl limit : ℕ) (pos : 0 < limit) (past : List (ℕ × Call)) where
  -- The entry of `k` that expires at `e` comes from a call of `add` in `past`.
  abbrev Traced : AbandonedCollection → ℕ → Type 0
  Traced k e = (t : ℕ) × In (t, adds k) past × (e ≡ t + ttl)

  record IsSound (clock : ℕ) (s : AbandonedSet) : Type 0 where
    entries : Entries
    refines : Refines clock s entries
    ttl_kept : s.ttl ≡ ttl
    limit_kept : s.limit ≡ limit
    bounded : length entries ≤ limit
    traced : (k : AbandonedCollection) (e : ℕ) → lookup k entries ≡ some e → Traced k e

  Traced-queue_add :
      (now : ℕ) (c : AbandonedCollection) (es : Entries)
      → Distinct es
      → Distinct (alive now es)
      → In (now, adds c) past
      → ((k : AbandonedCollection) (e : ℕ) → lookup k es ≡ some e → Traced k e)
      → (k : AbandonedCollection) (e : ℕ) → lookup k (queue_add limit ttl now c es) ≡ some e
      → Traced k e
  unfolding queue_add lookup
  Traced-queue_add now c es d d' i old k e h =
      let kept =
        λ (o : lookup k (alive now es) ≡ some e). old k e (lookup-alive-some now k es d o).0 in
      let room = queue_room limit (alive now es) in
      elim (Bool-cases (in_queue (lookup c (alive now es)))) [
        | inl q ↦ kept (rw q at h)
        | inr q ↦ elim (split_added k c (now + ttl) room (rw q at h)) [
          | inl o ↦ kept (lookup-queue_room-some limit k (alive now es) d' o)
          | inr (same, time) ↦ (now, subst (λ x. In (now, adds x) past) (sym same) i, time)
        ]
      ]

  step-IsSound :
      {clock : ℕ} (now : ℕ) (call : Call) (s : AbandonedSet)
      → clock ≤ now
      → In (now, call) past
      → IsSound clock s
      → (s' : AbandonedSet) × (step (now, call) s ≡ some s') × IsSound now s'
  step-IsSound now (asks c) s le i w =
      let (r, _, same_ttl, same_limit) = contains-Refines now c s w.entries le w.refines in
      (
        (contains now c s).0,
        refl,
        record {
          entries = alive now w.entries;
          refines = r;
          ttl_kept = same_ttl ∙ w.ttl_kept;
          limit_kept = same_limit ∙ w.limit_kept;
          bounded = length-queue_step limit ttl (now, asks c) w.entries pos w.bounded;
          traced = λ k e h. w.traced k e (lookup-alive-some now k w.entries w.refines.distinct h).0;
        },
      )
  step-IsSound now (adds c) s le i w =
      let (s', n, out, r, same_ttl, same_limit) =
        add-Refines now c s w.entries (rw w.limit_kept pos) le w.refines in
      (
        s',
        ap after_add out,
        record {
          entries = queue_add limit ttl now c w.entries;
          refines =
              subst (λ (l : ℕ). Refines now s' (queue_add l ttl now c w.entries)) w.limit_kept
                (subst (λ (t : ℕ). Refines now s' (queue_add s.limit t now c w.entries)) w.ttl_kept
                  r);
          ttl_kept = same_ttl ∙ w.ttl_kept;
          limit_kept = same_limit ∙ w.limit_kept;
          bounded = length-queue_step limit ttl (now, adds c) w.entries pos w.bounded;
          traced =
              Traced-queue_add now c w.entries w.refines.distinct
                (Distinct-alive now w.entries w.refines.distinct) i w.traced;
        },
      )

  run-IsSound :
      {clock : ℕ} (h : List (ℕ × Call)) (s : AbandonedSet)
      → Ticking clock h
      → ((e : ℕ × Call) → In e h → In e past)
      → IsSound clock s
      → (s' : AbandonedSet) × (run h s ≡ some s') × IsSound (last_time clock h) s'
  run-IsSound [] s t i w = (s, refl, w)
  run-IsSound ((now, call) ∷ h) s t i w =
      let (s', out, w') = step-IsSound now call s t.0 (i (now, call) (here refl)) w in
      let (s'', outs, w'') = run-IsSound h s' t.1 (λ e j. i e (there j)) w' in
      (s'', run-cons (now, call) h s out ∙ outs, w'')

module _ (ttl limit : ℕ) (pos : 0 < limit) (h : List (ℕ × Call)) (ticking : Ticking 0 h) where
  all_calls :
      (s : AbandonedSet) × (run h (new_abandoned_set ttl limit) ≡ some s)
      × IsSound ttl limit pos h (last_time 0 h) s
  unfolding new_abandoned_set lookup
  all_calls =
      run-IsSound ttl limit pos h h (new_abandoned_set ttl limit) ticking (λ e i. i)
        (record {
          entries = [];
          refines = new_abandoned_set-Refines 0 ttl limit;
          ttl_kept = refl;
          limit_kept = refl;
          bounded = omega arith;
          traced = λ k e j. cc;
        })

  -- After any calls, made at times that never fall, none has panicked and the set holds at most
  -- `limit` collections, where `limit` is positive.
  pub run_total :
      (s : AbandonedSet) × (run h (new_abandoned_set ttl limit) ≡ some s) × (length s.order ≤ limit)
  run_total =
      let (s, out, w) = all_calls in
      (s, out, omega (arith, ap length w.refines.ordered, length-keys w.entries, w.bounded))

  module _ (s : AbandonedSet) (reached : run h (new_abandoned_set ttl limit) ≡ some s) (now : ℕ)
      (le : last_time 0 h ≤ now) (c : AbandonedCollection) where
    reached-IsSound : IsSound ttl limit pos h (last_time 0 h) s
    reached-IsSound =
        let (s', out, w) = all_calls in
        let same : s' ≡ s = cc in subst (IsSound ttl limit pos h (last_time 0 h)) same w

    pub reached-Refines :
        (es : Entries) × Refines (last_time 0 h) s es × (s.ttl ≡ ttl) × (s.limit ≡ limit)
    reached-Refines = let w = reached-IsSound in (w.entries, w.refines, w.ttl_kept, w.limit_kept)

    -- Of a collection that the set reports at `now`, after calls at times that never fall, there
    -- was a call of `add` at a time `t` with `now < t + ttl`: a task is never dropped for a
    -- collection that was not abandoned less than `ttl` ago.
    pub contains_sound : (contains now c s).1 ≡ true → (t : ℕ) × In (t, adds c) h × (now < t + ttl)
    contains_sound held =
        let w = reached-IsSound in
        let (_, answer, _, _) = contains-Refines now c s w.entries le w.refines in
        let (e, found) = in_queue-true (lookup c (alive now w.entries)) (sym answer ∙ held) in
        let (stored, fresh) = lookup-alive-some now c w.entries w.refines.distinct found in
        let (t, call, time) = w.traced c e stored in (t, call, omega arith)

    -- A collection that is not held when it is added is reported from then on for `ttl`, and no
    -- longer, as long as no other call comes between.
    pub contains-add :
        (later n : ℕ) (s' : AbandonedSet)
        → now ≤ later
        → (contains now c s).1 ≡ false
        → add now c s ≡ some (s', n)
        → (contains later c s').1 ≡ ltb later (now + ttl)
    contains-add later n s' le' absent added =
        let w = reached-IsSound in
        let (ra, answer, _, _) = contains-Refines now c s w.entries le w.refines in
        let (s'', n'', out, r, _, _) =
          add-Refines now c s w.entries (rw w.limit_kept pos) le w.refines in
        let same : s'' ≡ s' = cc in
        let r' = subst (λ x. Refines now x (queue_add s.limit s.ttl now c w.entries)) same r in
        let (_, answer', _, _) = contains-Refines later c s' _ le' r' in
        answer'
        ∙ queue_add-reports s.limit s.ttl now later c w.entries r'.distinct ra.distinct
            (sym answer ∙ absent)
        ∙ ap (λ (t : ℕ). ltb later (now + t)) w.ttl_kept

    -- A call of `add` after them does not panic either.
    pub add_total : (s' : AbandonedSet) × (n : ℕ) × (add now c s ≡ some (s', n))
    add_total =
        let w = reached-IsSound in
        let (s', n, out, _, _, _) =
          add-Refines now c s w.entries (rw w.limit_kept pos) le w.refines in
        (s', n, out)
