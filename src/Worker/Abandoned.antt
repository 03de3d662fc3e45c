-- ===== src/Worker/Abandoned.antt =====
-- The set of abandoned collections: internal/worker/abandoned.go. Times and durations are numbers of
-- nanoseconds; `none` is the panic of an index out of range.
pub mod Queue
pub mod Refinement
pub mod Bounds
pub mod Histories
pub mod Queries
use crosscodex.Prelude.{
  ℕ, ◌+◌, ◌<◌, ◌≡◌, refl, Bool, true, false, not, ◌&&◌, List, [], ◌∷◌, ◌++◌, Option, none, some,
  ltb, leb, ◌==◌, length, if◌then◌else◌, ◌↔◌, arith,
}
use crosscodex.Prelude.Str.{Str, eqs, eqs_iff}
use crosscodex.Prelude.Eq.{Eq}
use crosscodex.Prelude.Maps.{lookup, insert, delete}
use crosscodex.NatsBus.Subjects.{AbandonedCollection}

-- Go's == on the key struct.
unfoldable pub same_collection : AbandonedCollection → AbandonedCollection → Bool
same_collection a b =
    eqs a.tenant_id b.tenant_id
    && eqs a.task_type b.task_type
    && eqs a.job_id b.job_id
    && eqs a.collection_id b.collection_id

pub same_collection_iff : (a b : AbandonedCollection) → (same_collection a b ≡ true) ↔ (a ≡ b)
unfolding same_collection
same_collection_iff a b = ground (
  arith,
  eqs_iff a.tenant_id b.tenant_id,
  eqs_iff a.task_type b.task_type,
  eqs_iff a.job_id b.job_id,
  eqs_iff a.collection_id b.collection_id,
)

instance abbrev pub collection_eq : Eq AbandonedCollection
collection_eq = record { beq = same_collection; beq_iff = same_collection_iff }

pub record AbandonedSet : Type 0 where
  pub ttl : ℕ
  pub limit : ℕ
  pub expires : List (AbandonedCollection × ℕ)
  pub order : List AbandonedCollection  -- oldest first
  pub resizes : List ℕ  -- the sizes that onResize was called with, oldest first

unfoldable pub new_abandoned_set : ℕ → ℕ → AbandonedSet
new_abandoned_set ttl limit = record {
  ttl = ttl;
  limit = limit;
  expires = [];
  order = [];
  resizes = [];
}

-- A missing key reads as the zero time.
abbrev time_or_zero : Option ℕ → ℕ
time_or_zero none = 0
time_or_zero (some t) = t

unfoldable pub pop_oldest : AbandonedSet → Option AbandonedSet
pop_oldest s = elim s.order [
  | [] ↦ none
  | c ∷ rest ↦ some (record s { expires = delete c s.expires; order = rest })
]

-- The loop of pruneExpired, over the order and the map.
unfoldable pub prune :
    ℕ
    → List AbandonedCollection
    → List (AbandonedCollection × ℕ)
    → List AbandonedCollection × List (AbandonedCollection × ℕ)
prune now [] m = ([], m)
prune now (c ∷ rest) m =
    let popped = prune now rest (delete c m) in
    if ltb now (time_or_zero (lookup c m)) then (c ∷ rest, m) else popped

unfoldable pub prune_expired : ℕ → AbandonedSet → AbandonedSet
unfolding prune
prune_expired now s =
    let (order, expires) = prune now s.order s.expires in
    record s { expires = expires; order = order }

unfoldable pub report_resize : ℕ → AbandonedSet → AbandonedSet
report_resize before s =
    if length s.order == before then s else record s { resizes = s.resizes ++ length s.order ∷ [] }

abbrev is_held : Option ℕ → Bool
is_held none = false
is_held (some t) = true

unfoldable pub make_room : AbandonedSet → Option AbandonedSet
unfolding pop_oldest
make_room s = if leb s.limit (length s.order) then pop_oldest s else some s

abbrev append_entry : ℕ → AbandonedCollection → ℕ → Option AbandonedSet → Option (AbandonedSet × ℕ)
append_entry now c before none = none
append_entry now c before (some s) =
    let t = record s { expires = insert c (now + s.ttl) s.expires; order = s.order ++ c ∷ [] } in
    some (report_resize before t, length t.order)

-- The size that `add` returns, beside the new set.
unfoldable pub add : ℕ → AbandonedCollection → AbandonedSet → Option (AbandonedSet × ℕ)
add now c s =
    let before = length s.order in
    let p = prune_expired now s in
    if is_held (lookup c p.expires)
    then some (report_resize before p, length p.order)
    else append_entry now c before (make_room p)

unfoldable pub contains : ℕ → AbandonedCollection → AbandonedSet → AbandonedSet × Bool
contains now c s =
    let p = report_resize (length s.order) (prune_expired now s) in
    (p, is_held (lookup c p.expires))

unfoldable pub len : AbandonedSet → ℕ
len s = length s.order
