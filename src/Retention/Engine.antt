-- ===== src/Retention/Engine.antt =====
-- The retention sweep: pkg/retention/engine.go. What the engine calls (archiver, purger and audit
-- publisher) is the parameter `call`: its answer, an error or none, may depend on every call made
-- before. The log of these calls, newest first, is kept beside the report.
pub mod Log
pub mod Safety
pub mod Counts
use crosscodex.Prelude.{
  ℕ, ◌+◌, ◌≡◌, refl, Bool, true, false, List, [], ◌∷◌, ◌++◌, Option, none, some, ◌==◌,
  if◌then◌else◌,
}
use crosscodex.Prelude.Str.{Str, codes, eqs, is_empty}
use crosscodex.Prelude.Eq.{str_eq}
use crosscodex.Prelude.Maps.{lookup, insert}
use crosscodex.Prelude.Result.{Result, ok, err}
use crosscodex.Retention.Candidate.{Candidate, class_job_results}
use crosscodex.Retention.Hold.{Hold, held}

pub record ClassCount : Type 0 where
  pub scanned : ℕ
  pub held : ℕ
  pub archived : ℕ
  pub purged : ℕ

-- A line of Report.Errors, with what the engine puts in front of the cause.
pub data ErrorLine : Type 0 where
  archive_line purge_line : Str → Str → ErrorLine
  audit_line release_line : Str → ErrorLine

pub record Report : Type 0 where
  pub scanned : ℕ
  pub held : ℕ
  pub archived : ℕ
  pub purged : ℕ
  pub per_class : List (Str × ClassCount)
  pub errors : List ErrorLine

pub record AuditRecord : Type 0 where
  pub action : Str
  pub actor : Str
  pub tenant_id : Str
  pub job_id : Str
  pub data_class : Str
  pub outcome : Str
  pub detail : Str
  pub at : ℕ

pub data Call : Type 0 where
  archive purge : Candidate → Call
  publish : AuditRecord → Call

pub record ScanOptions : Type 0 where
  pub dry_run : Bool
  pub now : ℕ

pub data ScanError : Type 0 where
  no_lock : ScanError
  lock_held load_holds collect : Str → ScanError

abbrev pub empty_count : ClassCount
empty_count = record { scanned = 0; held = 0; archived = 0; purged = 0 }

abbrev pub empty_report : Report
empty_report = record {
  scanned = 0;
  held = 0;
  archived = 0;
  purged = 0;
  per_class = [];
  errors = [];
}

unfoldable pub audit_job_id : Candidate → Str
audit_job_id c = if eqs c.class class_job_results then c.id else codes "retention"

unfoldable pub audit_detail : Candidate → Str
audit_detail c = if is_empty c.object_key then c.id else c.object_key

abbrev pub count_of : Option ClassCount → ClassCount
count_of none = empty_count
count_of (some n) = n

abbrev pub append_line : List ErrorLine → Option ErrorLine → List ErrorLine
append_line lines none = lines
append_line lines (some e) = lines ++ e ∷ []

abbrev pub add_error : Report → Option ErrorLine → Report
add_error rep line = record rep { errors = append_line rep.errors line }

-- The report, and the calls made, newest first.
pub record Sweep : Type 0 where
  pub rep : Report
  pub log : List Call

abbrev pub audit_record : ℕ → Candidate → Str → Str → AuditRecord
audit_record now c action outcome = record {
  action = action;
  actor = codes "retention-engine";
  tenant_id = c.tenant_id;
  job_id = audit_job_id c;
  data_class = c.class;
  outcome = outcome;
  detail = audit_detail c;
  at = now;
}

abbrev pub archived_ok : ℕ → Candidate → AuditRecord
archived_ok now c = audit_record now c (codes "archive") (codes "ok")

abbrev pub purged_ok : ℕ → Candidate → AuditRecord
purged_ok now c = audit_record now c (codes "purge") (codes "ok")

abbrev audit_error : Option Str → Option ErrorLine
audit_error none = none
audit_error (some e) = some (audit_line e)

abbrev set_count : Candidate → ClassCount → Report → Report
set_count c n rep = record rep { per_class = insert c.class n rep.per_class }

abbrev pub start : Sweep
start = record { rep = empty_report; log = [] }

abbrev pub sweep_time : ℕ → ScanOptions → ℕ
sweep_time clock opts = if opts.now == 0 then clock else opts.now

abbrev pub append_all :
    List Candidate → List (Result Str (List Candidate)) → Result ScanError (List Candidate)
append_all got [] = ok got
append_all got (err e ∷ rest) = err (collect e)
append_all got (ok cs ∷ rest) = append_all (got ++ cs) rest

-- The deferred release of the scan lock.
abbrev pub released : Option Str → Sweep × Option ScanError → Sweep × Option ScanError
released none r = r
released (some e) (s, why) = (record s { rep = add_error s.rep (some (release_line e)) }, why)

-- What TryAcquire answers: an error, or the error of the later release, if it has one.
abbrev pub with_lock :
    Option (Result Str (Option Str)) → Sweep × Option ScanError → Sweep × Option ScanError
with_lock none body = (start, some no_lock)
with_lock (some (err e)) body = (start, some (lock_held e))
with_lock (some (ok release)) body = released release body

module _ (call : List Call → Call → Option Str) where
  unfoldable pub publish_audit : AuditRecord → Sweep → Sweep
  publish_audit r s = record {
    rep = add_error s.rep (audit_error (call s.log (publish r)));
    log = publish r ∷ s.log;
  }

  -- The end of the loop's body, from the purge on.
  unfoldable pub purge_step : ℕ → Candidate → ClassCount → Sweep → Sweep
  purge_step now c n s =
      let log = purge c ∷ s.log in
      elim (call s.log (purge c)) [
        | some e ↦
            let rep = add_error s.rep (some (purge_line (audit_detail c) e)) in
            record { rep = set_count c n rep; log = log }
        | none ↦
            let n' = record n { purged = n.purged + 1 } in
            let rep = record s.rep { purged = s.rep.purged + 1 } in
            let t = publish_audit (purged_ok now c) (record { rep = rep; log = log }) in
            record t { rep = set_count c n' t.rep }
      ]

  unfoldable pub archive_step : ℕ → Candidate → ClassCount → Sweep → Sweep
  archive_step now c n s =
      let log = archive c ∷ s.log in
      elim (call s.log (archive c)) [
        | some e ↦
            let rep = add_error s.rep (some (archive_line (audit_detail c) e)) in
            record { rep = set_count c n rep; log = log }
        | none ↦
            let n' = record n { archived = n.archived + 1 } in
            let rep = record s.rep { archived = s.rep.archived + 1 } in
            purge_step now c n'
              (publish_audit (archived_ok now c) (record { rep = rep; log = log }))
      ]

  -- The body of the loop over the candidates.
  unfoldable pub scan_candidate : Bool → ℕ → List Hold → Candidate → Sweep → Sweep
  scan_candidate dry_run now active c s =
      let n0 = count_of (lookup c.class s.rep.per_class) in
      let n = record n0 { scanned = n0.scanned + 1 } in
      let rep = record s.rep { scanned = s.rep.scanned + 1 } in
      if held active c
      then record s {
        rep = set_count c (record n { held = n.held + 1 }) (record rep { held = rep.held + 1 });
      }
      else if dry_run
      then record s { rep = set_count c n rep }
      else archive_step now c n (record s { rep = rep })

  unfoldable pub scan_all : Bool → ℕ → List Hold → List Candidate → Sweep → Sweep
  scan_all dry_run now active [] s = s
  scan_all dry_run now active (c ∷ cs) s =
      scan_all dry_run now active cs (scan_candidate dry_run now active c s)

  abbrev sweep_collected :
      Bool → ℕ → List Hold → Result ScanError (List Candidate) → Sweep × Option ScanError
  sweep_collected dry_run now active (err e) = (start, some e)
  sweep_collected dry_run now active (ok cs) = (scan_all dry_run now active cs (start), none)

  abbrev sweep_held :
      Bool
      → ℕ
      → Result Str (List Hold)
      → List (Result Str (List Candidate))
      → Sweep × Option ScanError
  sweep_held dry_run now (err e) collectors = (start, some (load_holds e))
  sweep_held dry_run now (ok active) collectors =
      sweep_collected dry_run now active (append_all [] collectors)

  -- Scan. The store of holds and the collectors are asked for the time of the sweep; `clock` is
  -- time.Now. A lock of `none` is a nil ScanLock.
  unfoldable pub scan :
      (clock : ℕ) (lock : Option (Result Str (Option Str))) (holds : ℕ → Result Str (List Hold))
      (collectors : ℕ → List (Result Str (List Candidate)))
      → ScanOptions
      → Sweep × Option ScanError
  scan clock lock holds collectors opts =
      let now = sweep_time clock opts in
      let body = sweep_held opts.dry_run now (holds now) (collectors now) in
      if opts.dry_run then body else with_lock lock body
