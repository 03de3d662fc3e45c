-- ===== src/Worker/Abandoned/Bounds.antt =====
-- What the abstract queue of internal/worker/abandoned.go holds after it has been touched.
use crosscodex.Prelude.{
  ℕ, suc, ◌+◌, ◌<◌, ◌≤◌, ◌≡◌, refl, ◌∙◌, true, false, [], ◌∷◌, ◌++◌, Option, none, some, ltb,
  length, arith, ◌⊎◌,
}
use crosscodex.Prelude.Maps.{lookup, lookup-append}
use crosscodex.NatsBus.Subjects.{AbandonedCollection}
use crosscodex.Worker.Abandoned.{collection_eq}
use crosscodex.Worker.Abandoned.Queue.{
  Entries, alive, in_queue, queue_room, queue_add, Distinct, lookup-alive,
}
use crosscodex.Worker.Abandoned.Refinement.{lookup-queue_room, in_queue-false}

pub length-alive : (now : ℕ) (es : Entries) → length (alive now es) ≤ length es
unfolding alive
length-alive now [] = omega arith
length-alive now ((c, t) ∷ es) = ground (arith, length-alive now es)

pub length-queue_room :
    (limit : ℕ) (es : Entries)
    → 0 < limit
    → length es ≤ limit
    → suc (length (queue_room limit es)) ≤ limit
unfolding queue_room
length-queue_room limit [] pos h = ground arith
length-queue_room limit (e ∷ es) pos h = ground arith

pub lookup-alive-some :
    (now : ℕ) (k : AbandonedCollection) (es : Entries) {e : ℕ}
    → Distinct es
    → lookup k (alive now es) ≡ some e
    → (lookup k es ≡ some e) × (now < e)
lookup-alive-some now k es d h = ground (arith, lookup-alive now k es d)

pub lookup-queue_room-some :
    (limit : ℕ) (k : AbandonedCollection) (es : Entries) {e : ℕ}
    → Distinct es
    → lookup k (queue_room limit es) ≡ some e
    → lookup k es ≡ some e
unfolding queue_room lookup
lookup-queue_room-some limit k [] d h = ground arith
lookup-queue_room-some limit k ((c, t) ∷ es) d h = ground (arith, collection_eq.beq_iff c k)

pub split_added :
    (k c : AbandonedCollection) (t : ℕ) (es : Entries) {e : ℕ}
    → lookup k (es ++ (c, t) ∷ []) ≡ some e
    → (lookup k es ≡ some e) ⊎ ((k ≡ c) × (e ≡ t))
unfolding lookup
split_added k c t es h = ground (arith, lookup-append k es ((c, t) ∷ []), collection_eq.beq_iff c k)

pub lookup-queue_add :
    (limit ttl now : ℕ) (c : AbandonedCollection) (es : Entries)
    → Distinct (alive now es)
    → in_queue (lookup c (alive now es)) ≡ false
    → lookup c (queue_add limit ttl now c es) ≡ some (now + ttl)
unfolding queue_add lookup
lookup-queue_add limit ttl now c es da h =
    let room = queue_room limit (alive now es) in
    let gone = lookup-queue_room limit c (alive now es) da (in_queue-false _ h) in
    rw h
      (lookup-append c room ((c, now + ttl) ∷ []) ∙ ground (arith, gone, collection_eq.beq_iff c c))

pub in_queue-true : (o : Option ℕ) → in_queue o ≡ true → (e : ℕ) × (o ≡ some e)
in_queue-true none h = cc
in_queue-true (some e) h = (e, refl)

pub queue_add-reports :
    (limit ttl now later : ℕ) (c : AbandonedCollection) (es : Entries)
    → Distinct (queue_add limit ttl now c es)
    → Distinct (alive now es)
    → in_queue (lookup c (alive now es)) ≡ false
    → in_queue (lookup c (alive later (queue_add limit ttl now c es))) ≡ ltb later (now + ttl)
queue_add-reports limit ttl now later c es d da h = ground (
  arith,
  lookup-alive later c (queue_add limit ttl now c es),
  lookup-queue_add limit ttl now c es,
)
