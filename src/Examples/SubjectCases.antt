-- ===== src/Examples/SubjectCases.antt =====
-- Tenant IDs and subjects at concrete inputs: pkg/tenant/validate.go and pkg/natsbus/subjects.go.
use crosscodex.Prelude.{◌≡◌, refl, Bool, ◌↔◌, none}
use crosscodex.Prelude.Str.{Str, codes, eqs}
use crosscodex.Prelude.Join.{split, has_byte, join}
use crosscodex.Prelude.Regexp.{match_string, reps, is_lower, is_digit}
use crosscodex.Prelude.Result.{ok}
use crosscodex.Tenant.{validate_tenant_id, middle_class, end_class}
use crosscodex.Tenant.Rule.{IsTenantId, validate_tenant_id_iff}
use crosscodex.NatsBus.Subjects.{
  AbandonedCollection, abandoned_subject, parse_abandoned_subject, parse_parts, contains,
  validate_token, has_delimiter, validate_job_id, validate_tenant, build_subject,
}
use crosscodex.NatsBus.Subjects.Roundtrip.{parse-abandoned_subject, abandoned_subject-parse}
use crosscodex.NatsBus.Subjects.Tenancy.{abandoned, tenant_of, subject_of-tenant}

validate_tenant_id_iff_example :
    (validate_tenant_id (codes "acme-1") ≡ none) ↔ IsTenantId (codes "acme-1")
validate_tenant_id_iff_example = validate_tenant_id_iff (codes "acme-1")

-- A stand-in for uuid.Parse that accepts one text.
abbrev is_c9 : Str → Bool
is_c9 s = eqs s (codes "c9")

abbrev collection : AbandonedCollection
collection = record {
  tenant_id = codes "acme";
  task_type = codes "relate";
  job_id = codes "j7";
  collection_id = codes "c9";
}

abbrev subject : Str
subject = codes "crosscodex.control.acme.relate.j7.c9.abandoned"

built : abandoned_subject is_c9 collection ≡ ok subject
unfolding abandoned_subject contains validate_token has_delimiter has_byte validate_job_id
    validate_tenant build_subject validate_tenant_id match_string reps is_lower is_digit
    middle_class end_class eqs join
built = refl

parsed : parse_abandoned_subject is_c9 subject ≡ ok collection
unfolding parse_abandoned_subject parse_parts split abandoned_subject contains validate_token
    has_delimiter has_byte validate_job_id validate_tenant build_subject validate_tenant_id
    match_string reps is_lower is_digit middle_class end_class eqs join
parsed = refl

parse-abandoned_subject_example : parse_abandoned_subject is_c9 subject ≡ ok collection
parse-abandoned_subject_example = parse-abandoned_subject is_c9 collection built

abandoned_subject-parse_example : abandoned_subject is_c9 collection ≡ ok subject
abandoned_subject-parse_example = abandoned_subject-parse is_c9 subject collection parsed

subject_of-tenant_example : tenant_of (abandoned collection) ≡ tenant_of (abandoned collection)
subject_of-tenant_example =
    subject_of-tenant is_c9 (abandoned collection) (abandoned collection) built built
