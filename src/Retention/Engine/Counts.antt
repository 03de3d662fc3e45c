-- ===== src/Retention/Engine/Counts.antt =====
-- The counters of the report of a retention sweep: pkg/retention/engine.go.
use crosscodex.Prelude.{
  ℕ, ◌+◌, ◌≤◌, ◌≡◌, refl, Bool, List, [], ◌∷◌, Option, arith, length, Option-cases, Bool-cases, inl,
  inr,
}
use crosscodex.Prelude.Str.{Str, eqs}
use crosscodex.Prelude.Eq.{str_eq}
use crosscodex.Prelude.Maps.{lookup, insert}
use crosscodex.Retention.Candidate.{Candidate}
use crosscodex.Retention.Hold.{Hold, held}
use crosscodex.Retention.Engine.{
  Call, archive, purge, publish, ClassCount, Report, Sweep, empty_count, empty_report, count_of,
  archived_ok, publish_audit, purge_step, archive_step, scan_candidate, scan_all,
}

-- The sum of one counter over the classes.
abbrev pub total : (ClassCount → ℕ) → List (Str × ClassCount) → ℕ
total f [] = 0
total f ((k, n) ∷ m) = f n + total f m

total-insert :
    (f : ClassCount → ℕ) (k : Str) (n : ClassCount) (m : List (Str × ClassCount))
    → f empty_count ≡ 0
    → total f (insert k n m) + f (count_of (lookup k m)) ≡ total f m + f n
unfolding insert lookup
total-insert f k n [] h = omega arith
total-insert f k n ((j, w) ∷ m) h = elim (Bool-cases (eqs j k)) [
  | inl e ↦ rw e (omega arith)
  | inr e ↦ rw e (omega (arith, total-insert f k n m h))
]

-- Every counter of the report is the sum of the classes', every purged candidate was archived, and
-- every held or archived one was scanned.
pub record AddsUp (rep : Report) : Type 0 where
  pub scanned_total : rep.scanned ≡ total (λ k. k.scanned) rep.per_class
  pub held_total : rep.held ≡ total (λ k. k.held) rep.per_class
  pub archived_total : rep.archived ≡ total (λ k. k.archived) rep.per_class
  pub purged_total : rep.purged ≡ total (λ k. k.purged) rep.per_class
  pub purged_archived : rep.purged ≤ rep.archived
  pub archived_scanned : rep.archived + rep.held ≤ rep.scanned

abbrev plus : ClassCount → ClassCount → ClassCount
plus n d = record {
  scanned = n.scanned + d.scanned;
  held = n.held + d.held;
  archived = n.archived + d.archived;
  purged = n.purged + d.purged;
}

-- What one candidate adds to the report.
record Adds (c : Candidate) (d : ClassCount) (rep rep' : Report) : Type 0 where
  scanned_added : rep'.scanned ≡ rep.scanned + d.scanned
  held_added : rep'.held ≡ rep.held + d.held
  archived_added : rep'.archived ≡ rep.archived + d.archived
  purged_added : rep'.purged ≡ rep.purged + d.purged
  class_added :
      rep'.per_class
      ≡ insert c.class (plus (count_of (lookup c.class rep.per_class)) d) rep.per_class
  purged_once : d.purged ≤ d.archived
  archived_once : d.archived + d.held ≤ d.scanned

module _ (c : Candidate) (d : ClassCount) (rep rep' : Report) (a : Adds c d rep rep') where
  total-Adds :
      (f : ClassCount → ℕ)
      → f empty_count ≡ 0
      → ((n : ClassCount) → f (plus n d) ≡ f n + f d)
      → total f rep'.per_class ≡ total f rep.per_class + f d
  total-Adds f zero_f plus_f =
      let n = count_of (lookup c.class rep.per_class) in
      rw a.class_added
        (omega (arith, total-insert f c.class (plus n d) rep.per_class zero_f, plus_f n))

  Adds-AddsUp : AddsUp rep → AddsUp rep'
  Adds-AddsUp u = record {
    scanned_total = omega (arith, total-Adds (λ k. k.scanned) refl (λ n. refl));
    held_total = omega (arith, total-Adds (λ k. k.held) refl (λ n. refl));
    archived_total = omega (arith, total-Adds (λ k. k.archived) refl (λ n. refl));
    purged_total = omega (arith, total-Adds (λ k. k.purged) refl (λ n. refl));
    purged_archived = omega (arith, a.purged_once);
    archived_scanned = omega (arith, a.archived_once);
  }

abbrev delta : ℕ → ℕ → ℕ → ClassCount
delta h a p = record { scanned = 1; held = h; archived = a; purged = p }

module _ (call : List Call → Call → Option Str) (now : ℕ) (c : Candidate) where
  -- What a round adds: the candidate counts as scanned, and by its fate as held or archived or
  -- archived and purged.
  abbrev Round : Report → Report → Type 0
  Round rep rep' = (h : ℕ) × (a : ℕ) × (p : ℕ) × Adds c (delta h a p) rep rep'

  archive_step-Round :
      (rep : Report) (log : List Call)
      → let n = count_of (lookup c.class rep.per_class) in
        Round rep
          (archive_step call now c
            (record n { scanned = n.scanned + 1 })
            (record { rep = record rep { scanned = rep.scanned + 1 }; log = log })).rep
  unfolding archive_step purge_step publish_audit
  archive_step-Round rep log = elim (Option-cases (call log (archive c))) [
    | inr (e, f) ↦ (0, 0, 0, rw (f, archive_step) (ground arith))
    | inl a ↦ elim (Option-cases (call (publish (archived_ok now c) ∷ archive c ∷ log) (purge c))) [
      | inr (e, f) ↦ (0, 1, 0, rw (a, archive_step, f, purge_step) (ground arith))
      | inl b ↦ (0, 1, 1, rw (a, archive_step, b, purge_step) (ground arith))
    ]
  ]

  scan_candidate-Round :
      (dry_run : Bool) (active : List Hold) (s : Sweep)
      → Round s.rep (scan_candidate call dry_run now active c s).rep
  unfolding scan_candidate
  scan_candidate-Round dry_run active s = elim (Bool-cases (held active c)) [
    | inl h ↦ (1, 0, 0, rw h (ground arith))
    | inr h ↦ elim (Bool-cases dry_run) [
      | inl d ↦ (0, 0, 0, rw (h, d) (ground arith))
      | inr d ↦ rw (h, d) (archive_step-Round s.rep s.log)
    ]
  ]

module _ (call : List Call → Call → Option Str) (dry_run : Bool) (now : ℕ)
    (active : List Hold) where
  -- A sweep over candidates, started with a report that adds up, ends with a report that adds up:
  -- its counters are the sums of the classes', it purged no more than it archived, and it archived
  -- and held together no more than it scanned, which is as many as there were candidates.
  pub scan_all-AddsUp :
      (cs : List Candidate) (s : Sweep)
      → AddsUp s.rep
      → AddsUp (scan_all call dry_run now active cs s).rep
        × ((scan_all call dry_run now active cs s).rep.scanned ≡ s.rep.scanned + length cs)
  unfolding scan_all
  scan_all-AddsUp [] s u = (u, omega arith)
  scan_all-AddsUp (c ∷ cs) s u =
      let t = scan_candidate call dry_run now active c s in
      let (h, a, p, round) = scan_candidate-Round call now c dry_run active s in
      let (sums, seen) = scan_all-AddsUp cs t (Adds-AddsUp c (delta h a p) s.rep t.rep round u) in
      (sums, omega (arith, seen, round.scanned_added))

pub empty_report-AddsUp : AddsUp empty_report
empty_report-AddsUp = omega arith
