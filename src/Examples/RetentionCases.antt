-- ===== src/Examples/RetentionCases.antt =====
-- Retention at concrete inputs: pkg/retention and ParseRetention of pkg/config/types.go.
use crosscodex.Prelude.{
  ◌↔◌, ℕ, ◌+◌, ◌*◌, ◌<◌, ◌%◌, ◌^◌, ◌≡◌, refl, true, false, List, [], ◌∷◌, ◌++◌, Option, none, some,
  arith, In, length,
}
use crosscodex.Prelude.Str.{Str, codes, eqs}
use crosscodex.Prelude.Maps.{lookup}
use crosscodex.Prelude.Result.{Result, ok}
use crosscodex.Retention.Candidate.{Candidate, class_catalogs, store_object}
use crosscodex.Retention.Duration.{
  hour, atoi, digits_value, scaled, checked, is_negative, cut_suffix, parse_retention,
}
use crosscodex.Retention.Duration.Exact.{
  years, days, suffix, span_length, parse_retention_exact, parse_retention_overflow,
}
use crosscodex.Retention.Policy.{
  RetentionTiers, RetentionConfig, tiers_for, tier_field, age, expired,
}
use crosscodex.Retention.Policy.Governing.{Outlived, expired_iff}
use crosscodex.Retention.Hold.{Hold, covers, held, InScope, held_iff}
use crosscodex.Retention.Engine.{Call, ScanOptions, start, scan_all, scan}
use crosscodex.Retention.Engine.Safety.{
  PurgesArchived, SparesHeld, scan_archives_first, scan-SparesHeld,
}
use crosscodex.Retention.Engine.Counts.{AddsUp, scan_all-AddsUp, empty_report-AddsUp}

-- A stand-in for time.ParseDuration that refuses every text.
abbrev no_duration : Str → Option ℕ
no_duration s = none

three : atoi (codes "3") ≡ some 3
unfolding atoi digits_value
three = refl

parse_retention_exact_example :
    parse_retention no_duration (codes "3" ++ suffix days ∷ []) ≡ ok (3 * span_length days, false)
parse_retention_exact_example =
    parse_retention_exact no_duration days (codes "3") 3 three (omega arith)

many : atoi (codes "585") ≡ some 585
unfolding atoi digits_value
many = refl

short : parse_retention no_duration (codes "585y") ≡ ok (1815926290448384, false)
unfolding parse_retention cut_suffix atoi digits_value scaled checked is_negative eqs
short = refl

parse_retention_overflow_example :
    (1815926290448384 < 585 * span_length years)
    × (1815926290448384 ≡ 585 * span_length years % 2 ^ 64)
parse_retention_overflow_example =
    parse_retention_overflow no_duration years (codes "585") 585 1815926290448384 false many
      (omega arith) (omega arith) short

abbrev tiers : RetentionTiers
tiers = record {
  attestation = [];
  job_results = [];
  catalogs = codes "3d";
  embeddings = [];
  audit_decisions = [];
  audit_llm = [];
  audit_events = [];
}

-- One tenant keeps its catalogs for a day; all others for three.
abbrev settings : RetentionConfig
settings = record {
  defaults = tiers;
  tenants = (codes "acme", record tiers { catalogs = codes "1d" }) ∷ [];
}

abbrev two_days : ℕ
two_days = 2 * 24 * hour

-- The tenant's own retention decides, not the longer default.
outlived_own : expired no_duration settings class_catalogs (codes "acme") 0 two_days ≡ true
unfolding expired tiers_for tier_field age lookup parse_retention cut_suffix atoi digits_value
    scaled checked is_negative eqs
outlived_own = refl

within_default : expired no_duration settings class_catalogs (codes "zeta") 0 two_days ≡ false
unfolding expired tiers_for tier_field age lookup parse_retention cut_suffix atoi digits_value
    scaled checked is_negative eqs
within_default = refl

expired_iff_example :
    (expired no_duration settings class_catalogs (codes "acme") 0 two_days ≡ true)
    ↔ Outlived settings (codes "acme") no_duration class_catalogs 0 two_days
expired_iff_example = expired_iff settings (codes "acme") no_duration class_catalogs 0 two_days

abbrev catalog : Candidate
catalog = record {
  store = store_object;
  class = class_catalogs;
  id = codes "k1";
  tenant_id = codes "acme";
  created_at = 5;
  size = 1;
  object_key = codes "o1";
}

abbrev litigation : Hold
litigation = record {
  id = codes "h1";
  name = codes "litigation";
  scope = record { created_before = some 9; tenant_id = codes "acme"; job_id = [] };
  created_at = 0;
  created_by = codes "legal";
  expires_at = none;
  released_at = none;
  released_by = [];
}

under_hold : held (litigation ∷ []) catalog ≡ true
unfolding held covers eqs
under_hold = refl

held_iff_example :
    (held (litigation ∷ []) catalog ≡ true)
    ↔ ((h : Hold) × In h (litigation ∷ []) × InScope h.scope catalog)
held_iff_example = held_iff (litigation ∷ []) catalog

-- Collaborators that never fail.
abbrev calm : List Call → Call → Option Str
calm l c = none

abbrev free_lock : Option (Result Str (Option Str))
free_lock = some (ok none)

abbrev no_holds : ℕ → Result Str (List Hold)
no_holds now = ok []

abbrev one_catalog : ℕ → List (Result Str (List Candidate))
one_catalog now = ok (catalog ∷ []) ∷ []

abbrev wet : ScanOptions
wet = record { dry_run = false; now = 7 }

scan_archives_first_example :
    PurgesArchived calm (scan calm 1 free_lock no_holds one_catalog wet).0.log
scan_archives_first_example = scan_archives_first calm 1 free_lock no_holds one_catalog wet

abbrev one_hold : ℕ → Result Str (List Hold)
one_hold now = ok (litigation ∷ [])

scan-SparesHeld_example :
    SparesHeld calm (litigation ∷ []) (scan calm 1 free_lock one_hold one_catalog wet).0.log
scan-SparesHeld_example =
    scan-SparesHeld calm 1 free_lock one_hold one_catalog wet (litigation ∷ []) refl

abbrev dry : ScanOptions
dry = record { dry_run = true; now = 7 }

scan_all-AddsUp_example :
    AddsUp (scan_all calm false 7 [] (catalog ∷ []) start).rep
    × ((scan_all calm false 7 [] (catalog ∷ []) start).rep.scanned
        ≡ start.rep.scanned + length (catalog ∷ []))
scan_all-AddsUp_example = scan_all-AddsUp calm false 7 [] (catalog ∷ []) start empty_report-AddsUp
