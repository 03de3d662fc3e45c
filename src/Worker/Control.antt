-- ===== src/Worker/Control.antt =====
-- Abandon control messages and the drop of their tasks: handleAbandoned, rejectControl and
-- dropAbandoned of internal/worker/abandoned.go. Logs and spans are left out; a counter is a number.
-- Whether a text is a canonical UUID is the parameter of NatsBus.Subjects.
pub mod Drops
use crosscodex.Prelude.{
  ℕ, suc, ◌+◌, ◌≡◌, refl, Bool, true, false, not, List, [], ◌∷◌, Option, none, some, if◌then◌else◌,
}
use crosscodex.Prelude.Str.{Str, codes, eqs, is_empty}
use crosscodex.Prelude.Result.{Result, ok, err}
use crosscodex.NatsBus.Subjects.{SubjectError, AbandonedCollection, parse_abandoned_subject}
use crosscodex.Worker.Abandoned.{AbandonedSet, add, contains}

-- The fields of natsbus.Message that the handler reads.
pub record Message : Type 0 where
  pub subject : Str
  pub payload : Str
  pub tenant_id : Str

pub record Worker : Type 0 where
  pub abandoned : AbandonedSet
  pub rejected : ℕ  -- recordError(ctx, "unknown", "invalid_control_message")
  pub dropped : ℕ  -- droppedCounter, reason "abandoned"

unfoldable pub reject_control : Worker → Worker
reject_control w = record w { rejected = w.rejected + 1 }

abbrev with_set : Worker → Option (AbandonedSet × ℕ) → Option Worker
with_set w none = none
with_set w (some (s, n)) = some (record w { abandoned = s })

abbrev pub handle_parsed :
    ℕ → Message → Worker → Result SubjectError AbandonedCollection → Option Worker
handle_parsed now msg w (err e) = some (reject_control w)
handle_parsed now msg w (ok c) =
    if not (eqs msg.tenant_id c.tenant_id)
    then some (reject_control w)
    else if not (is_empty msg.payload)
    then some (reject_control w)
    else with_set w (add now c w.abandoned)

-- `none` is a panic of `add`; the handler itself always returns nil.
unfoldable pub handle_abandoned : (Str → Bool) → ℕ → Message → Worker → Option Worker
handle_abandoned is_canonical_uuid now msg w =
    handle_parsed now msg w (parse_abandoned_subject is_canonical_uuid msg.subject)

unfoldable pub drop_abandoned : ℕ → Str → Str → Str → Str → Worker → Worker × Bool
drop_abandoned now tenant_id task_type job_id collection_id w =
    let c : AbandonedCollection = record {
      tenant_id = tenant_id;
      task_type = task_type;
      job_id = job_id;
      collection_id = collection_id;
    } in
    let (s, held) = contains now c w.abandoned in
    let w' = record w { abandoned = s } in
    if is_empty collection_id
    then (w, false)
    else if held
    then (record w' { dropped = w.dropped + 1 }, true)
    else (w', false)
