-- ===== src/Retention/Engine/Log.antt =====
-- Which calls a retention sweep (pkg/retention/engine.go) makes, one candidate after another.
use crosscodex.Prelude.{
  ℕ, ◌≡◌, refl, Bool, false, List, [], ◌∷◌, Option, none, some, arith, Option-cases, Bool-cases,
  inl, inr, ◌⊎◌,
}
use crosscodex.Prelude.Str.{Str}
use crosscodex.Prelude.Result.{Result, ok, err}
use crosscodex.Retention.Candidate.{Candidate}
use crosscodex.Retention.Hold.{Hold, held}
use crosscodex.Retention.Engine.{
  Call, archive, purge, publish, ClassCount, AuditRecord, Sweep, ScanOptions, ScanError,
  archived_ok, purged_ok, publish_audit, purge_step, archive_step, scan_candidate, scan_all, start,
  append_all, sweep_collected, sweep_held, with_lock, sweep_time, scan,
}

module _ (call : List Call → Call → Option Str) where
  -- The calls that a candidate that is neither held nor in a dry run gives rise to.
  abbrev pub Handled : ℕ → Candidate → List Call → List Call → Type 0
  Handled now c l l' =
      (l' ≡ archive c ∷ l)
      ⊎ ((call l (archive c) ≡ none)
          × ((l' ≡ purge c ∷ publish (archived_ok now c) ∷ archive c ∷ l)
              ⊎ (l'
                  ≡ publish (purged_ok now c)
                    ∷ purge c
                    ∷ publish (archived_ok now c)
                    ∷ archive c
                    ∷ l)))

  publish_audit-log :
      (r : AuditRecord) (s : Sweep) → (publish_audit call r s).log ≡ publish r ∷ s.log
  unfolding publish_audit
  publish_audit-log r s = refl

  purge_step-log :
      (now : ℕ) (c : Candidate) (n : ClassCount) (s : Sweep) (l : List Call)
      → s.log ≡ l
      → ((purge_step call now c n s).log ≡ purge c ∷ l)
        ⊎ ((purge_step call now c n s).log ≡ publish (purged_ok now c) ∷ purge c ∷ l)
  unfolding purge_step publish_audit
  purge_step-log now c n s l h = ground arith

  archive_step-log :
      (now : ℕ) (c : Candidate) (n : ClassCount) (s : Sweep)
      → Handled now c s.log (archive_step call now c n s).log
  unfolding archive_step
  archive_step-log now c n s = elim (Option-cases (call s.log (archive c))) [
    | inl done ↦ inr (
      done,
      rw (done, archive_step)
          (purge_step-log now c _ _ _ (publish_audit-log (archived_ok now c) _)),
    )
    | inr (e, failed) ↦ inl (rw (failed, archive_step))
  ]

  scan_candidate-log :
      (dry_run : Bool) (now : ℕ) (active : List Hold) (c : Candidate) (s : Sweep)
      → ((scan_candidate call dry_run now active c s).log ≡ s.log)
        ⊎ ((dry_run ≡ false)
            × (held active c ≡ false)
            × Handled now c s.log (scan_candidate call dry_run now active c s).log)
  unfolding scan_candidate
  scan_candidate-log dry_run now active c s = elim (Bool-cases (held active c)) [
    | inl h ↦ inl (rw h)
    | inr h ↦ elim (Bool-cases dry_run) [
      | inl d ↦ inl (rw (h, d))
      | inr d ↦ inr (d, h, rw (h, d) (archive_step-log now c _ _))
    ]
  ]

  -- What the loop over the candidates keeps, if one round of it does.
  module _ (P : List Call → Type 0) (dry_run : Bool) (now : ℕ) (active : List Hold) where
    pub scan_all_induction :
        ((c : Candidate) (l l' : List Call)
          → dry_run ≡ false
          → held active c ≡ false
          → Handled now c l l'
          → P l
          → P l')
        → (cs : List Candidate) (s : Sweep) → P s.log
        → P (scan_all call dry_run now active cs s).log
    unfolding scan_all
    scan_all_induction keep [] s p = p
    scan_all_induction keep (c ∷ cs) s p =
        let t = scan_candidate call dry_run now active c s in
        scan_all_induction keep cs t (elim (scan_candidate-log dry_run now active c s) [
          | inl same ↦ rw same p
          | inr (wet, free, h) ↦ keep c s.log t.log wet free h p
        ])

  module _ (dry_run : Bool) (now : ℕ) where
    -- What holds of the empty log and of every log that the loop makes holds of the sweep's log.
    sweep_collected_log :
        (P : List Call → Type 0) (active : List Hold) (r : Result ScanError (List Candidate))
        → P []
        → ((cs : List Candidate) → P (scan_all call dry_run now active cs start).log)
        → P (sweep_collected call dry_run now active r).0.log
    sweep_collected_log P active (err e) nil all = nil
    sweep_collected_log P active (ok cs) nil all = all cs

    sweep_held_log :
        (P : List Call → Type 0) (r : Result Str (List Hold))
        (collectors : List (Result Str (List Candidate)))
        → P []
        → ((active : List Hold) (cs : List Candidate)
            → r ≡ ok active
            → P (scan_all call dry_run now active cs start).log)
        → P (sweep_held call dry_run now r collectors).0.log
    sweep_held_log P (err e) collectors nil all = nil
    sweep_held_log P (ok active) collectors nil all =
        sweep_collected_log P active (append_all [] collectors) nil (λ cs. all active cs refl)

  with_lock_log :
      (P : List Call → Type 0) (lock : Option (Result Str (Option Str)))
      (body : Sweep × Option ScanError)
      → P []
      → P body.0.log
      → P (with_lock lock body).0.log
  with_lock_log P none body nil p = nil
  with_lock_log P (some (err e)) body nil p = nil
  with_lock_log P (some (ok none)) body nil p = p
  with_lock_log P (some (ok (some e))) body nil p = p

  module _ (clock : ℕ) (lock : Option (Result Str (Option Str)))
      (holds : ℕ → Result Str (List Hold)) (collectors : ℕ → List (Result Str (List Candidate)))
      (opts : ScanOptions) where
    pub scan_log :
        (P : List Call → Type 0)
        → P []
        → ((active : List Hold) (cs : List Candidate)
            → holds (sweep_time clock opts) ≡ ok active
            → P (scan_all call opts.dry_run (sweep_time clock opts) active cs start).log)
        → P (scan call clock lock holds collectors opts).0.log
    unfolding scan
    scan_log P nil all =
        let now = sweep_time clock opts in
        let body = sweep_held call opts.dry_run now (holds now) (collectors now) in
        let p = sweep_held_log opts.dry_run now P (holds now) (collectors now) nil all in
        elim (Bool-cases opts.dry_run) [
          | inl dry ↦ rw dry (rw dry at p)
          | inr wet ↦ rw wet (with_lock_log P lock _ nil (rw wet at p))
        ]
