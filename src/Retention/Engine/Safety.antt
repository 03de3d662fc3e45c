-- ===== src/Retention/Engine/Safety.antt =====
-- The calls of a retention sweep (pkg/retention/engine.go), in their order.
use crosscodex.Prelude.{
  ℕ, ◌≡◌, refl, sym, subst, true, false, List, [], ◌∷◌, Option, none, inl, inr,
}
use crosscodex.Prelude.Str.{Str}
use crosscodex.Prelude.Result.{Result, ok}
use crosscodex.Retention.Candidate.{Candidate}
use crosscodex.Retention.Hold.{Hold, held}
use crosscodex.Retention.Engine.{
  Call, archive, purge, publish, ScanOptions, scan_all, start, sweep_time, scan,
}
use crosscodex.Retention.Engine.Log.{Handled, scan_all_induction, scan_log}

module _ (call : List Call → Call → Option Str) where
  -- Whether an earlier call archived the candidate, and was answered without an error.
  pub data Archived (c : Candidate) : List Call → Type 0 where
    last : {l : List Call} → call l (archive c) ≡ none → Archived c (archive c ∷ l)
    earlier : {e : Call} {l : List Call} → Archived c l → Archived c (e ∷ l)

  -- Each purge of the log comes after an archive of the same candidate that succeeded.
  abbrev pub PurgesArchived : List Call → Type 0
  PurgesArchived [] = Unit {0}
  PurgesArchived (purge c ∷ l) = Archived c l × PurgesArchived l
  PurgesArchived (archive c ∷ l) = PurgesArchived l
  PurgesArchived (publish r ∷ l) = PurgesArchived l

  -- No candidate of the log is under a hold.
  abbrev pub SparesHeld : List Hold → List Call → Type 0
  SparesHeld hs [] = Unit {0}
  SparesHeld hs (purge c ∷ l) = (held hs c ≡ false) × SparesHeld hs l
  SparesHeld hs (archive c ∷ l) = (held hs c ≡ false) × SparesHeld hs l
  SparesHeld hs (publish r ∷ l) = SparesHeld hs l

  Handled-PurgesArchived :
      (now : ℕ) (c : Candidate) (l l' : List Call)
      → Handled call now c l l'
      → PurgesArchived l
      → PurgesArchived l'
  Handled-PurgesArchived now c l l' (inl e) p = rw e p
  Handled-PurgesArchived now c l l' (inr (done, inl e)) p = rw e (earlier (last done), p)
  Handled-PurgesArchived now c l l' (inr (done, inr e)) p = rw e (earlier (last done), p)

  Handled-SparesHeld :
      (hs : List Hold) (now : ℕ) (c : Candidate) (l l' : List Call)
      → held hs c ≡ false
      → Handled call now c l l'
      → SparesHeld hs l
      → SparesHeld hs l'
  Handled-SparesHeld hs now c l l' free (inl e) p = rw e (free, p)
  Handled-SparesHeld hs now c l l' free (inr (done, inl e)) p = rw e (free, (free, p))
  Handled-SparesHeld hs now c l l' free (inr (done, inr e)) p = rw e (free, (free, p))

  module _ (clock : ℕ) (lock : Option (Result Str (Option Str)))
      (holds : ℕ → Result Str (List Hold)) (collectors : ℕ → List (Result Str (List Candidate)))
      (opts : ScanOptions) where
    -- In a sweep, each purge comes after an archive of the same candidate that succeeded.
    pub scan_archives_first : PurgesArchived (scan call clock lock holds collectors opts).0.log
    scan_archives_first =
        scan_log call clock lock holds collectors opts PurgesArchived tt λ active cs _.
          scan_all_induction call PurgesArchived opts.dry_run (sweep_time clock opts) active
            (λ c l l' _ _. Handled-PurgesArchived (sweep_time clock opts) c l l') cs start tt

    -- A sweep archives and purges no candidate that an active hold covers.
    pub scan-SparesHeld :
        (active : List Hold)
        → holds (sweep_time clock opts) ≡ ok active
        → SparesHeld active (scan call clock lock holds collectors opts).0.log
    scan-SparesHeld active got =
        scan_log call clock lock holds collectors opts (SparesHeld active) tt λ active' cs got'.
          let same : active' ≡ active = cc in
          subst
            (λ hs.
              SparesHeld active
                (scan_all call opts.dry_run (sweep_time clock opts) hs cs start).log)
            (sym same)
            (scan_all_induction call (SparesHeld active) opts.dry_run (sweep_time clock opts) active
              (λ c l l' _ free. Handled-SparesHeld active (sweep_time clock opts) c l l' free) cs
              start tt)

    -- A dry run calls neither the archiver nor the purger nor the audit publisher.
    pub scan_dry : opts.dry_run ≡ true → (scan call clock lock holds collectors opts).0.log ≡ []
    scan_dry dry =
        scan_log call clock lock holds collectors opts (λ l. l ≡ []) refl
          λ active cs _.
            scan_all_induction call (λ l. l ≡ []) opts.dry_run (sweep_time clock opts) active
              (λ c l l' wet _ _ _. cc) cs start refl
