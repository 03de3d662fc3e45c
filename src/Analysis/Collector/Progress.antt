-- ===== src/Analysis/Collector/Progress.antt =====
-- How a collection that still waits settles what is pending: internal/analysis/collector.go.
use crosscodex.Prelude.{
  ℕ, zero, suc, ◌≤◌, ◌≡◌, refl, sym, ap, subst, true, false, List, [], ◌∷◌, ◌++◌, Option, none,
  some, arith, length,
}
use crosscodex.Prelude.Str.{Str, eqs, eqs_refl, is_empty}
use crosscodex.Prelude.Eq.{str_eq}
use crosscodex.Prelude.Maps.{lookup}
use crosscodex.Prelude.Sets.{has, remove, has-remove}
use crosscodex.Analysis.Collector.{
  Task, TaskResult, CollectRequest, Message, Collection, settle, handle_message, header_task_id,
  get_header, read_result,
}
use crosscodex.Analysis.Collector.Steps.{
  handles, sends, takes, Reach, stop, go, failure_of, capacity,
}

-- The message of a task that succeeded, with an empty payload.
abbrev pub success_of : Str → Message
success_of id = record { headers = (header_task_id, id ∷ []) ∷ []; payload = [] }

module _ (to_lower : Str → Str) (unmarshal : Str → Option Str) (req : CollectRequest) where
  handle_message-success :
      (id : Str) (s : Collection)
      → is_empty id ≡ false
      → has s.pending id ≡ true
      → handle_message to_lower unmarshal req (success_of id) s ≡ settle req id none none s
  unfolding handle_message get_header lookup read_result eqs
  handle_message-success id s e h = rw (e, h) refl

  abbrev pub Reaches : Collection → Collection → Type 0
  Reaches = Reach to_lower unmarshal req

  pub reach_on : {s t u : Collection} → Reaches s t → Reaches t u → Reaches s u
  reach_on r stop = r
  reach_on r (go q st) = go (reach_on r q) st

  -- AwaitResults takes what the channel holds.
  pub drained :
      (cs : List TaskResult) (s : Collection)
      → s.channel ≡ cs
      → s.outcome ≡ none
      → (rs : List TaskResult) × Reaches s (record s { channel = []; results = rs })
  drained [] s c o =
      (s.results, subst (λ (cs : List TaskResult). Reaches s (record s { channel = cs })) c stop)
  drained (x ∷ xs) s c o =
      let t = record s { channel = xs; results = s.results ++ x ∷ [] } in
      let (rs, r) = drained xs t refl o in (rs, reach_on (go stop (takes x xs o c refl)) r)

  length-remove : (id : Str) (xs : List Str) → length (remove id xs) ≤ length xs
  unfolding remove
  length-remove id [] = omega arith
  length-remove id (x ∷ xs) = ground (arith, length-remove id xs)

  length-remove_first : (id : Str) (xs : List Str) → length (remove id (id ∷ xs)) ≤ length xs
  unfolding remove
  length-remove_first id xs = ground (arith, length-remove id xs, eqs_refl id)

  pub length-expected : (id : Str) (xs : List Str) → has xs id ≡ true → 1 ≤ length xs
  unfolding has
  length-expected id [] h = cc
  length-expected id (x ∷ xs) h = omega arith

  -- A waiting collection, with every result taken and no failing retry.
  pub record IsCalm (s : Collection) : Type 0 where
    pub waiting_still : s.outcome ≡ none
    pub taken : s.channel ≡ []
    pub idle : s.failing ≡ none

  -- The tasks that are pending are expected, and no ID is empty.
  abbrev pub Known : Collection → Type 0
  Known s =
      (id : Str)
      → has s.pending id ≡ true
      → (is_empty id ≡ false) × (has req.expected_ids id ≡ true)

  settle_one :
      (id : Str) (s : Collection)
      → IsCalm s
      → Known s
      → has s.pending id ≡ true
      → (t : Collection) × Reaches s t × IsCalm t × (t.pending ≡ remove id s.pending)
  settle_one id s w known h =
      let t = settle req id none none s in
      let r : TaskResult = record {
        task_id = id;
        task_type = req.task_type;
        result = none;
        error = none;
      } in
      let (named, expected) = known id h in
      let alone : t.channel ≡ r ∷ [] = ap (λ (cs : List TaskResult). cs ++ r ∷ []) w.taken in
      let room : length t.channel ≤ capacity to_lower unmarshal req =
        rw alone (length-expected id req.expected_ids expected) in
      (
        record t { channel = []; results = t.results ++ r ∷ [] },
        go (go stop (handles (success_of id) room (sym (handle_message-success id s named h))))
            (takes r [] w.waiting_still alone refl),
        record { waiting_still = w.waiting_still; taken = refl; idle = w.idle },
        refl,
      )

  has-first : (id : Str) (ids : List Str) → has (id ∷ ids) id ≡ true
  unfolding has
  has-first id ids = ground (arith, eqs_refl id)

  Known-remove : (id : Str) (s t : Collection) → t.pending ≡ remove id s.pending → Known s → Known t
  Known-remove id s t left known j h =
      known j (ground (arith, has-remove id j s.pending, rw left at h))

  pub settle_all :
      (n : ℕ) (ids : List Str) (s : Collection)
      → s.pending ≡ ids
      → length ids ≤ n
      → IsCalm s
      → Known s
      → (t : Collection) × Reaches s t × IsCalm t × (t.pending ≡ [])
  settle_all n [] s p le w known = (s, stop, w, p)
  settle_all zero (id ∷ ids) s p le w known = let none_such : ⊥ = omega arith in elim none_such [ ]
  settle_all (suc n) (id ∷ ids) s p le w known =
      let here_is : has s.pending id ≡ true = rw p (has-first id ids) in
      let (t, r, calm, left) = settle_one id s w known here_is in
      let fewer : length (remove id s.pending) ≤ n =
        rw p (omega (arith, length-remove_first id ids)) in
      let (u, q, calm', none_left) =
        settle_all n (remove id s.pending) t left fewer calm (Known-remove id s t left known) in
      (u, reach_on r q, calm', none_left)

  -- The failing retry, if there is one, sends its result.
  pub send_failing :
      (f : Option Task) (s : Collection)
      → s.failing ≡ f
      → s.outcome ≡ none
      → ((k : Task) → s.failing ≡ some k → 1 ≤ capacity to_lower unmarshal req)
      → (t : Collection) × Reaches s t × IsCalm t × (t.pending ≡ s.pending)
  send_failing none s f o room =
      let (rs, r) = drained s.channel s refl o in
      (
        record s { channel = []; results = rs },
        r,
        record { waiting_still = o; taken = refl; idle = f },
        refl,
      )
  send_failing (some k) s f o room =
      let (rs, r) = drained s.channel s refl o in
      let t = record s { failing = none; channel = []; results = rs ++ failure_of k ∷ [] } in
      (
        t,
        go (go r (sends k f (room k f) refl)) (takes (failure_of k) [] o refl refl),
        record { waiting_still = o; taken = refl; idle = refl },
        refl,
      )
