-- ===== src/Retention/Policy.antt =====
-- Which candidates have outlived their retention: pkg/retention/tier.go and RetentionConfig.For of
-- pkg/config/types.go. NewPolicy's check of the settings is left out: Expired itself reads a text
-- that does not parse as indefinite.
pub mod Expiry
pub mod Governing
use crosscodex.Prelude.{
  ℕ, ◌-◌, ◌^◌, ◌≤◌, ◌≡◌, refl, Bool, true, false, List, [], ◌∷◌, Option, none, some, ltb, leb,
  if◌then◌else◌,
}
use crosscodex.Prelude.Str.{Str, eqs, is_empty}
use crosscodex.Prelude.Eq.{str_eq}
use crosscodex.Prelude.Maps.{lookup}
use crosscodex.Prelude.Result.{Result, ok, err}
use crosscodex.Retention.Candidate.{
  class_job_results, class_catalogs, class_embeddings, class_attestation,
}
use crosscodex.Retention.Duration.{RetentionError, parse_retention}

pub record RetentionTiers : Type 0 where
  pub attestation : Str
  pub job_results : Str
  pub catalogs : Str
  pub embeddings : Str
  pub audit_decisions : Str
  pub audit_llm : Str
  pub audit_events : Str

-- The fields of RetentionConfig that For reads.
pub record RetentionConfig : Type 0 where
  pub defaults : RetentionTiers
  pub tenants : List (Str × RetentionTiers)

abbrev pub override : Str → Str → Str
override own default = if is_empty own then default else own

abbrev pub merge_tiers : RetentionTiers → Option RetentionTiers → RetentionTiers
merge_tiers d none = d
merge_tiers d (some o) = record {
  attestation = override o.attestation d.attestation;
  job_results = override o.job_results d.job_results;
  catalogs = override o.catalogs d.catalogs;
  embeddings = override o.embeddings d.embeddings;
  audit_decisions = override o.audit_decisions d.audit_decisions;
  audit_llm = override o.audit_llm d.audit_llm;
  audit_events = override o.audit_events d.audit_events;
}

unfoldable pub tiers_for : RetentionConfig → Str → RetentionTiers
tiers_for cfg tenant_id = merge_tiers cfg.defaults (lookup tenant_id cfg.tenants)

unfoldable pub tier_field : RetentionTiers → Str → Str
tier_field tiers class =
    if eqs class class_job_results
    then tiers.job_results
    else if eqs class class_catalogs
    then tiers.catalogs
    else if eqs class class_embeddings
    then tiers.embeddings
    else if eqs class class_attestation
    then tiers.attestation
    else []

-- now.Sub(created): saturates at the largest duration; a negative one exceeds no retention, and is
-- read as 0 here.
unfoldable pub age : ℕ → ℕ → ℕ
age now created = let d = now - created in let max = 2 ^ 63 - 1 in if ltb max d then max else d

abbrev pub outlives : ℕ → Result RetentionError (ℕ × Bool) → Bool
outlives a (err e) = false
outlives a (ok (d, true)) = false
outlives a (ok (d, false)) = ltb d a

module _ (parse_duration : Str → Option ℕ) where
  unfoldable pub expired : RetentionConfig → Str → Str → ℕ → ℕ → Bool
  expired cfg class tenant_id created_at now =
      let s = tier_field (tiers_for cfg tenant_id) class in
      if is_empty s then false else outlives (age now created_at) (parse_retention parse_duration s)
