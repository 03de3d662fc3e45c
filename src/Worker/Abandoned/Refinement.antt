-- ===== src/Worker/Abandoned/Refinement.antt =====
-- The operations of the abandoned set (internal/worker/abandoned.go), on its map and order, beside
-- those of the abstract queue.
use crosscodex.Prelude.{
  ℕ, suc, ◌+◌, ◌<◌, ◌≤◌, ◌≡◌, refl, sym, ap, ◌∙◌, subst, false, List, [], ◌∷◌, ◌++◌, map-append,
  Option, none, some, leb, length, All, All-append, arith, Bool-cases, inl, inr,
}
use crosscodex.Prelude.Maps.{lookup, insert, delete, lookup-insert, lookup-append}
use crosscodex.NatsBus.Subjects.{AbandonedCollection}
use crosscodex.Worker.Abandoned.{
  AbandonedSet, collection_eq, new_abandoned_set, pop_oldest, prune_expired, report_resize,
  make_room, add, contains, append_entry, is_held,
}
use crosscodex.Worker.Abandoned.Queue.{
  Entries, alive, in_queue, queue_room, queue_add, keys, Distinct, Ascending, Refines, length-keys,
  delete_front, prune_expired-Refines, report_resize-Refines,
}

pop_oldest-cons :
    (s : AbandonedSet) (c : AbandonedCollection) (rest : List AbandonedCollection)
    → s.order ≡ c ∷ rest
    → pop_oldest s ≡ some (record s { expires = delete c s.expires; order = rest })
unfolding pop_oldest
pop_oldest-cons s c rest h = ground arith

length-order :
    {clock : ℕ} (s : AbandonedSet) (es : Entries) → Refines clock s es → length s.order ≡ length es
length-order s es r = ap length r.ordered ∙ length-keys es

pop-Refines :
    {clock : ℕ} (s : AbandonedSet) (c : AbandonedCollection) (t : ℕ) (es : Entries)
    → Refines clock s ((c, t) ∷ es)
    → Refines clock (record s { expires = delete c s.expires; order = keys es }) es
pop-Refines s c t es r = record {
  ordered = refl;
  timed = λ k. delete_front c k t s.expires es (r.timed k) r.distinct.0;
  distinct = r.distinct.1;
  ascending = r.ascending.1;
  recent = r.recent.1;
}

-- The room that `add` makes: no panic, since a full set has an oldest entry.
make_room-Refines :
    {clock : ℕ} (s : AbandonedSet) (es : Entries)
    → 0 < s.limit
    → Refines clock s es
    → (p : AbandonedSet) × (make_room s ≡ some p)
      × Refines clock p (queue_room s.limit es)
      × (p.ttl ≡ s.ttl)
      × (p.limit ≡ s.limit)
unfolding make_room queue_room
make_room-Refines s [] pos r =
    let room : leb s.limit (length s.order) ≡ false = ground (arith, length-order s [] r) in
    let none_out : leb s.limit 0 ≡ false = ground arith in (s, rw room, rw none_out r, refl, refl)
make_room-Refines s ((c, t) ∷ es) pos r =
    let size = length-order s ((c, t) ∷ es) r in
    elim (Bool-cases (leb s.limit (suc (length es)))) [
      | inl full ↦ (
        record s { expires = delete c s.expires; order = keys es },
        rw (size, full) (pop_oldest-cons s c (keys es) r.ordered),
        rw full (pop-Refines s c t es r),
        refl,
        refl,
      )
      | inr room ↦ (s, rw (size, room), rw room r, refl, refl)
    ]

lookup_added :
    (k c : AbandonedCollection) (t : ℕ) (m es : Entries)
    → lookup k m ≡ lookup k es
    → lookup c es ≡ none
    → lookup k (insert c t m) ≡ lookup k (es ++ (c, t) ∷ [])
unfolding lookup
lookup_added k c t m es h new =
    ground
      (arith, lookup-insert c k t m, lookup-append k es ((c, t) ∷ []), collection_eq.beq_iff c k)

Distinct-append :
    (c : AbandonedCollection) (t : ℕ) (es : Entries)
    → Distinct es
    → lookup c es ≡ none
    → Distinct (es ++ (c, t) ∷ [])
unfolding lookup
Distinct-append c t [] d new = (refl, tt)
Distinct-append c t ((k, u) ∷ es) d new = (
  ground (
    arith,
    lookup-append k es ((c, t) ∷ []),
    collection_eq.beq_iff c k,
    collection_eq.beq_iff k c,
  ),
  Distinct-append c t es d.1 (ground arith),
)

Ascending-append :
    (c : AbandonedCollection) (t : ℕ) (es : Entries)
    → Ascending es
    → All (λ e. e.1 ≤ t) es
    → Ascending (es ++ (c, t) ∷ [])
Ascending-append c t [] a b = (tt, tt)
Ascending-append c t ((k, u) ∷ es) a b =
    (All-append (λ e. u ≤ e.1) es ((c, t) ∷ []) a.0 (b.0, tt), Ascending-append c t es a.1 b.1)

-- A collection that the queue does not hold goes to its end.
append-Refines :
    {clock : ℕ} (s : AbandonedSet) (c : AbandonedCollection) (es : Entries)
    → lookup c es ≡ none
    → Refines clock s es
    → Refines clock
        (record s { expires = insert c (clock + s.ttl) s.expires; order = s.order ++ c ∷ [] })
        (es ++ (c, clock + s.ttl) ∷ [])
append-Refines {clock} s c es new r = record {
  ordered =
      ap (λ o. o ++ c ∷ []) r.ordered ∙ sym (map-append (λ e. e.0) es ((c, clock + s.ttl) ∷ []));
  timed = λ k. lookup_added k c (clock + s.ttl) s.expires es (r.timed k) new;
  distinct = Distinct-append c (clock + s.ttl) es r.distinct new;
  ascending = Ascending-append c (clock + s.ttl) es r.ascending r.recent;
  recent =
      All-append (λ e. e.1 ≤ clock + s.ttl) es ((c, clock + s.ttl) ∷ []) r.recent (omega arith);
}

is_held-in_queue : (o : Option ℕ) → is_held o ≡ in_queue o
is_held-in_queue none = refl
is_held-in_queue (some t) = refl

pub in_queue-false : (o : Option ℕ) → in_queue o ≡ false → o ≡ none
in_queue-false none h = refl
in_queue-false (some t) h = cc

pub lookup-queue_room :
    (limit : ℕ) (c : AbandonedCollection) (es : Entries)
    → Distinct es
    → lookup c es ≡ none
    → lookup c (queue_room limit es) ≡ none
unfolding queue_room lookup
lookup-queue_room limit c [] d h = ground arith
lookup-queue_room limit c ((k, t) ∷ es) d h = ground arith

prune_keeps :
    (now : ℕ) (s : AbandonedSet)
    → ((prune_expired now s).ttl ≡ s.ttl) × ((prune_expired now s).limit ≡ s.limit)
unfolding prune_expired
prune_keeps now s = (refl, refl)

resize_keeps :
    (before : ℕ) (s : AbandonedSet)
    → ((report_resize before s).ttl ≡ s.ttl) × ((report_resize before s).limit ≡ s.limit)
unfolding report_resize
resize_keeps before s = ground arith

append_entry-Refines :
    (now : ℕ) (c : AbandonedCollection) (before : ℕ) (p : AbandonedSet) (es : Entries)
    → lookup c es ≡ none
    → Refines now p es
    → (s' : AbandonedSet) × (n : ℕ) × (append_entry now c before (some p) ≡ some (s', n))
      × Refines now s' (es ++ (c, now + p.ttl) ∷ [])
      × (s'.ttl ≡ p.ttl)
      × (s'.limit ≡ p.limit)
append_entry-Refines now c before p es new r = (
  _,
  _,
  refl,
  report_resize-Refines before _ _ (append-Refines p c es new r),
  (resize_keeps before _).0,
  (resize_keeps before _).1,
)

-- Adding a collection at a time not before the last one, to a set with a positive limit: it never
-- panics, and does to the queue what `queue_add` says.
pub add-Refines :
    {clock : ℕ} (now : ℕ) (c : AbandonedCollection) (s : AbandonedSet) (es : Entries)
    → 0 < s.limit
    → clock ≤ now
    → Refines clock s es
    → (s' : AbandonedSet) × (n : ℕ) × (add now c s ≡ some (s', n))
      × Refines now s' (queue_add s.limit s.ttl now c es)
      × (s'.ttl ≡ s.ttl)
      × (s'.limit ≡ s.limit)
unfolding add queue_add
add-Refines {clock} now c s es pos le r =
    let p = prune_expired now s in
    let rp = prune_expired-Refines now s es le r in
    let (same_ttl, same_limit) = prune_keeps now s in
    let held = ap is_held (rp.timed c) ∙ is_held-in_queue (lookup c (alive now es)) in
    elim (Bool-cases (in_queue (lookup c (alive now es)))) [
      | inl old ↦ (
        report_resize (length s.order) p,
        length p.order,
        rw (held ∙ old),
        rw old (report_resize-Refines (length s.order) p (alive now es) rp),
        (resize_keeps (length s.order) p).0 ∙ same_ttl,
        (resize_keeps (length s.order) p).1 ∙ same_limit,
      )
      | inr new ↦
          let absent = in_queue-false (lookup c (alive now es)) new in
          let (q, made, rq, ttl_q, limit_q) =
            make_room-Refines p (alive now es) (rw same_limit pos) rp in
          let absent' = lookup-queue_room p.limit c (alive now es) rp.distinct absent in
          let (s', n, out, rs, ttl_s, limit_s) =
            append_entry-Refines now c (length s.order) q _ absent' rq in
          (
            s',
            n,
            rw (held ∙ new, made) out,
            rw new (
                subst
                  (λ (l : ℕ). Refines now s' (queue_room l (alive now es) ++ (c, now + s.ttl) ∷ []))
                  same_limit
                  (subst
                    (λ (t : ℕ).
                      Refines now s' (queue_room p.limit (alive now es) ++ (c, now + t) ∷ []))
                    (ttl_q ∙ same_ttl) rs)),
            ttl_s ∙ ttl_q ∙ same_ttl,
            limit_s ∙ limit_q ∙ same_limit,
          )
    ]

-- A lookup leaves the queue without its expired entries, and answers whether it holds the
-- collection.
pub contains-Refines :
    {clock : ℕ} (now : ℕ) (c : AbandonedCollection) (s : AbandonedSet) (es : Entries)
    → clock ≤ now
    → Refines clock s es
    → Refines now (contains now c s).0 (alive now es)
      × ((contains now c s).1 ≡ in_queue (lookup c (alive now es)))
      × ((contains now c s).0.ttl ≡ s.ttl)
      × ((contains now c s).0.limit ≡ s.limit)
unfolding contains
contains-Refines now c s es le r =
    let rp = report_resize-Refines (length s.order) _ _ (prune_expired-Refines now s es le r) in
    (
      rp,
      ap is_held (rp.timed c) ∙ is_held-in_queue (lookup c (alive now es)),
      (resize_keeps (length s.order) _).0 ∙ (prune_keeps now s).0,
      (resize_keeps (length s.order) _).1 ∙ (prune_keeps now s).1,
    )

-- A new set stands for the empty queue.
pub new_abandoned_set-Refines :
    (clock ttl limit : ℕ) → Refines clock (new_abandoned_set ttl limit) []
unfolding new_abandoned_set lookup
new_abandoned_set-Refines clock ttl limit = record {
  ordered = refl;
  timed = λ k. refl;
  distinct = tt;
  ascending = tt;
  recent = tt;
}
