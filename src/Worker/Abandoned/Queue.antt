-- ===== src/Worker/Abandoned/Queue.antt =====
-- The abstract view of the abandoned set (internal/worker/abandoned.go): a queue of collections with
-- the times at which they expire. Dropping the expired entries and, when the queue is full, the
-- oldest one are functions on it.
use crosscodex.Prelude.{
  ℕ, suc, ◌+◌, ◌<◌, ◌≤◌, ◌≡◌, refl, ap, ◌∙◌, Bool, true, false, List, [], ◌∷◌, ◌++◌, map, Option,
  none, some, ltb, ltb→lt, leb, ◌==◌, length, if◌then◌else◌, All, All-mono, arith, Bool-cases, inl,
  inr,
}
use crosscodex.Prelude.Eq.{beq_refl}
use crosscodex.Prelude.Maps.{lookup, delete, lookup-delete}
use crosscodex.NatsBus.Subjects.{AbandonedCollection}
use crosscodex.Worker.Abandoned.{AbandonedSet, collection_eq, prune, prune_expired, report_resize}

abbrev pub Entries : Type 0
Entries = List (AbandonedCollection × ℕ)

-- The entries that have not expired at `now`.
unfoldable pub alive : ℕ → Entries → Entries
alive now [] = []
alive now ((c, t) ∷ es) = let rest = alive now es in if ltb now t then (c, t) ∷ rest else rest

abbrev pub tail : Entries → Entries
tail [] = []
tail (e ∷ es) = es

abbrev pub in_queue : Option ℕ → Bool
in_queue none = false
in_queue (some t) = true

unfoldable pub queue_room : ℕ → Entries → Entries
queue_room limit es = if leb limit (length es) then tail es else es

unfoldable pub queue_add : ℕ → ℕ → ℕ → AbandonedCollection → Entries → Entries
queue_add limit ttl now c es =
    let l = alive now es in
    if in_queue (lookup c l) then l else queue_room limit l ++ (c, now + ttl) ∷ []

abbrev pub keys : Entries → List AbandonedCollection
keys = map (λ e. e.0)

-- No key stands twice.
abbrev pub Distinct : Entries → Type 0
Distinct [] = Unit {0}
Distinct ((c, t) ∷ es) = (lookup c es ≡ none) × Distinct es

abbrev pub Ascending : Entries → Type 0
Ascending [] = Unit {0}
Ascending ((c, t) ∷ es) = All (λ e. t ≤ e.1) es × Ascending es

-- The set's order and map stand for the queue `es`, last touched at the time `clock`.
pub record Refines (clock : ℕ) (s : AbandonedSet) (es : Entries) : Type 0 where
  pub ordered : s.order ≡ keys es
  pub timed : (k : AbandonedCollection) → lookup k s.expires ≡ lookup k es
  pub distinct : Distinct es
  pub ascending : Ascending es
  pub recent : All (λ e. e.1 ≤ clock + s.ttl) es

pub length-keys : (es : Entries) → length (keys es) ≡ length es
length-keys [] = refl
length-keys (e ∷ es) = ap suc (length-keys es)

alive-All : (now t : ℕ) (es : Entries) → now < t → All (λ e. t ≤ e.1) es → alive now es ≡ es
unfolding alive
alive-All now t [] h a = refl
alive-All now t ((c, u) ∷ es) h a = ground (arith, alive-All now t es h a.1)

All-alive :
    (P : AbandonedCollection × ℕ → Type 0) (now : ℕ) (es : Entries)
    → All P es
    → All P (alive now es)
unfolding alive
All-alive P now [] h = tt
All-alive P now ((c, t) ∷ es) h = elim (Bool-cases (ltb now t)) [
  | inl e ↦ rw e (h.0, All-alive P now es h.1)
  | inr e ↦ rw e (All-alive P now es h.1)
]

lookup-alive-none :
    (now : ℕ) (k : AbandonedCollection) (es : Entries)
    → lookup k es ≡ none
    → lookup k (alive now es) ≡ none
unfolding alive lookup
lookup-alive-none now k [] h = refl
lookup-alive-none now k ((c, t) ∷ es) h = ground (arith, lookup-alive-none now k es)

-- What the queue says of a collection once the expired entries are gone.
pub lookup-alive :
    (now : ℕ) (k : AbandonedCollection) (es : Entries)
    → Distinct es
    → lookup k (alive now es)
      ≡ elim (lookup k es) [ none ↦ none | some t ↦ if ltb now t then some t else none ]
unfolding alive lookup
lookup-alive now k [] d = refl
lookup-alive now k ((c, t) ∷ es) d =
    ground (arith, collection_eq.beq_iff c k, lookup-alive now k es d.1, lookup-alive-none now c es)

pub Distinct-alive : (now : ℕ) (es : Entries) → Distinct es → Distinct (alive now es)
unfolding alive
Distinct-alive now [] d = tt
Distinct-alive now ((c, t) ∷ es) d = elim (Bool-cases (ltb now t)) [
  | inl e ↦ rw e (lookup-alive-none now c es d.0, Distinct-alive now es d.1)
  | inr e ↦ rw e (Distinct-alive now es d.1)
]

Ascending-alive : (now : ℕ) (es : Entries) → Ascending es → Ascending (alive now es)
unfolding alive
Ascending-alive now [] d = tt
Ascending-alive now ((c, t) ∷ es) d = elim (Bool-cases (ltb now t)) [
  | inl e ↦ rw e (All-alive (λ e. t ≤ e.1) now es d.0, Ascending-alive now es d.1)
  | inr e ↦ rw e (Ascending-alive now es d.1)
]

pub lookup_front :
    (c : AbandonedCollection) (t : ℕ) (es : Entries) → lookup c ((c, t) ∷ es) ≡ some t
unfolding lookup
lookup_front c t es = ground (arith, beq_refl c)

-- Deleting the front's key leaves a map for the rest.
pub delete_front :
    (c k : AbandonedCollection) (t : ℕ) (m es : Entries)
    → lookup k m ≡ lookup k ((c, t) ∷ es)
    → lookup c es ≡ none
    → lookup k (delete c m) ≡ lookup k es
unfolding lookup
delete_front c k t m es h d = ground (arith, lookup-delete c k m, collection_eq.beq_iff c k)

-- Popping expired entries from the front leaves what is alive, since the front expires first.
prune-alive :
    (now : ℕ) (m : Entries) (es : Entries)
    → ((k : AbandonedCollection) → lookup k m ≡ lookup k es)
    → Distinct es
    → Ascending es
    → ((prune now (keys es) m).0 ≡ keys (alive now es))
      × ((k : AbandonedCollection) → lookup k (prune now (keys es) m).1 ≡ lookup k (alive now es))
unfolding prune alive
prune-alive now m [] h d a = (refl, h)
prune-alive now m ((c, t) ∷ es) h d a =
    let front = h c ∙ lookup_front c t es in
    elim (Bool-cases (ltb now t)) [
      | inl e ↦ rw (front, e, alive-All now t es (ltb→lt now t e) a.0) (refl, h)
      | inr e ↦
          rw (front, e)
            (prune-alive now (delete c m) es (λ k. delete_front c k t m es (h k) d.0) d.1 a.1)
    ]

pub prune_expired-Refines :
    {clock : ℕ} (now : ℕ) (s : AbandonedSet) (es : Entries)
    → clock ≤ now
    → Refines clock s es
    → Refines now (prune_expired now s) (alive now es)
unfolding prune_expired
prune_expired-Refines {clock} now s es le r =
    let (ordered, timed) = prune-alive now s.expires es r.timed r.distinct r.ascending in
    record {
      ordered = ap (λ o. (prune now o s.expires).0) r.ordered ∙ ordered;
      timed = λ k. ap (λ o. lookup k (prune now o s.expires).1) r.ordered ∙ timed k;
      distinct = Distinct-alive now es r.distinct;
      ascending = Ascending-alive now es r.ascending;
      recent = All-alive _ now es (
          All-mono (λ e. e.1 ≤ clock + s.ttl) (λ e. e.1 ≤ now + s.ttl) es (λ e h. omega arith)
            r.recent);
    }

pub report_resize-Refines :
    {clock : ℕ} (before : ℕ) (s : AbandonedSet) (es : Entries)
    → Refines clock s es
    → Refines clock (report_resize before s) es
unfolding report_resize
report_resize-Refines before s es r = elim (Bool-cases (length s.order == before)) [
  | inl e ↦ rw e r
  | inr e ↦ rw e (record {
    ordered = r.ordered;
    timed = r.timed;
    distinct = r.distinct;
    ascending = r.ascending;
    recent = r.recent;
  })
]
