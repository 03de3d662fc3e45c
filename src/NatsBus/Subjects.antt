-- ===== src/NatsBus/Subjects.antt =====
-- Subject builders and the parser of abandon subjects: pkg/natsbus/subjects.go and types.go.
-- uuid.Parse is github.com/google/uuid: whether a text is its canonical form is the parameter
-- `is_canonical_uuid` (uuid.Parse succeeds, and u.String() is the text again).
pub mod Parts
pub mod Roundtrip
pub mod Tenancy
use crosscodex.Prelude.{
  ℕ, ◌≡◌, refl, Bool, true, false, not, ◌&&◌, ◌||◌, List, [], ◌∷◌, ◌++◌, Option, none, some, ltb,
  length, if◌then◌else◌,
}
use crosscodex.Prelude.Str.{Str, codes, eqs, is_empty}
use crosscodex.Prelude.Join.{join, split, has_byte}
use crosscodex.Prelude.Result.{Result, ok, err, ◌>>=◌, ◌>>◌}
use crosscodex.Tenant.{InvalidTenant, validate_tenant_id}

-- What an error says. All wrap ErrInvalidSubject; those of validate_job_id wrap ErrInvalidJobID too.
pub data SubjectError : Type 0 where
  tenant_validation : InvalidTenant → SubjectError
  token_empty token_delimiter : Str → SubjectError
  job_id_token : SubjectError → SubjectError
  job_id_long : SubjectError
  unknown_task_type : Str → SubjectError
  not_canonical_uuid : Str → SubjectError
  not_abandoned_subject : Str → SubjectError
  abandoned_control : SubjectError → SubjectError

abbrev pub subject_prefix : Str
subject_prefix = codes "crosscodex"

abbrev pub max_job_id_length : ℕ
max_job_id_length = 128

-- Stage, AuditType and TaskType are string types; these are their constants.
abbrev pub stage_started : Str
stage_started = codes "started"

abbrev pub audit_decisions : Str
audit_decisions = codes "decisions"

abbrev pub task_types : List Str
task_types =
    codes "classify" ∷ codes "relate" ∷ codes "requires" ∷ codes "artifacts" ∷ codes "embed" ∷ []

-- slices.Contains
unfoldable pub contains : List Str → Str → Bool
contains [] s = false
contains (t ∷ ts) s = eqs t s || contains ts s

-- strings.ContainsAny(token, ".*>")
unfoldable pub has_delimiter : Str → Bool
has_delimiter token = has_byte b'.' token || has_byte b'*' token || has_byte b'>' token

unfoldable pub validate_token : Str → Str → Option SubjectError
unfolding has_delimiter
validate_token token label =
    if is_empty token
    then some (token_empty label)
    else if has_delimiter token
    then some (token_delimiter label)
    else none

abbrev wrap_job_id : Str → Option SubjectError → Option SubjectError
wrap_job_id job_id (some e) = some (job_id_token e)
wrap_job_id job_id none = if ltb max_job_id_length (length job_id) then some job_id_long else none

unfoldable pub validate_job_id : Str → Option SubjectError
validate_job_id job_id = wrap_job_id job_id (validate_token job_id (codes "job ID"))

abbrev wrap_tenant : Option InvalidTenant → Option SubjectError
wrap_tenant none = none
wrap_tenant (some e) = some (tenant_validation e)

unfoldable pub validate_tenant : Str → Option SubjectError
validate_tenant tenant_id = wrap_tenant (validate_tenant_id tenant_id)

unfoldable pub build_subject : Str → Option SubjectError → List Str → Result SubjectError Str
build_subject tenant_id token_err parts =
    validate_tenant tenant_id >> (token_err >> ok (subject_prefix ++ b'.' ∷ join b'.' parts))

unfoldable pub pipeline_stage_subject : Str → Str → Str → Result SubjectError Str
unfolding build_subject
pipeline_stage_subject tenant_id job_id stage =
    build_subject tenant_id (validate_job_id job_id)
      (codes "pipeline" ∷ tenant_id ∷ job_id ∷ codes "stage" ∷ stage ∷ [])

unfoldable pub pipeline_state_subject : Str → Str → Result SubjectError Str
unfolding build_subject
pipeline_state_subject tenant_id job_id =
    build_subject tenant_id (validate_job_id job_id)
      (codes "pipeline" ∷ tenant_id ∷ job_id ∷ codes "state" ∷ [])

unfoldable pub work_subject : Str → Str → Str → Result SubjectError Str
unfolding build_subject
work_subject tenant_id task_type job_id =
    build_subject tenant_id (validate_job_id job_id)
      (codes "work" ∷ tenant_id ∷ task_type ∷ job_id ∷ [])

unfoldable pub result_subject : Str → Str → Str → Result SubjectError Str
unfolding build_subject
result_subject tenant_id task_type job_id =
    build_subject tenant_id (validate_job_id job_id)
      (codes "results" ∷ tenant_id ∷ task_type ∷ job_id ∷ [])

unfoldable pub audit_subject : Str → Str → Str → Result SubjectError Str
unfolding build_subject
audit_subject tenant_id audit_type job_id =
    build_subject tenant_id (validate_job_id job_id)
      (codes "audit" ∷ tenant_id ∷ audit_type ∷ job_id ∷ [])

unfoldable pub feedback_subject : Str → Str → Result SubjectError Str
unfolding build_subject
feedback_subject tenant_id edge_id =
    build_subject tenant_id (validate_token edge_id (codes "edge ID"))
      (codes "feedback" ∷ tenant_id ∷ edge_id ∷ [])

unfoldable pub catalog_parsed_subject : Str → Str → Result SubjectError Str
unfolding build_subject
catalog_parsed_subject tenant_id catalog_id =
    build_subject tenant_id (validate_token catalog_id (codes "catalog ID"))
      (codes "catalog" ∷ tenant_id ∷ catalog_id ∷ codes "parsed" ∷ [])

pub record AbandonedCollection : Type 0 where
  pub tenant_id : Str
  pub task_type : Str
  pub job_id : Str
  pub collection_id : Str

abbrev pub wrap_abandoned :
    AbandonedCollection → Result SubjectError Str → Result SubjectError AbandonedCollection
wrap_abandoned c (ok s) = ok c
wrap_abandoned c (err e) = err (abandoned_control e)

module _ (is_canonical_uuid : Str → Bool) where
  unfoldable pub abandoned_subject : AbandonedCollection → Result SubjectError Str
  unfolding contains
  abandoned_subject c = do
    validate_token c.task_type (codes "task type")
    if contains task_types c.task_type then none else some (unknown_task_type c.task_type)
    validate_token c.collection_id (codes "collection ID")
    if is_canonical_uuid c.collection_id then none else some (not_canonical_uuid c.collection_id)
    build_subject c.tenant_id (validate_job_id c.job_id) (
        codes "control"
        ∷ c.tenant_id
        ∷ c.task_type
        ∷ c.job_id
        ∷ c.collection_id
        ∷ codes "abandoned"
        ∷ [])

  -- The seven parts of a split subject; any other number is no abandon subject.
  unfoldable pub parse_parts : Str → List Str → Result SubjectError AbandonedCollection
  parse_parts subject (p ∷ k ∷ tenant_id ∷ task_type ∷ job_id ∷ collection_id ∷ end ∷ []) =
      let c : AbandonedCollection = record {
        tenant_id = tenant_id;
        task_type = task_type;
        job_id = job_id;
        collection_id = collection_id;
      } in
      if eqs p subject_prefix && eqs k (codes "control") && eqs end (codes "abandoned")
      then wrap_abandoned c (abandoned_subject c)
      else err (not_abandoned_subject subject)
  parse_parts subject _ = err (not_abandoned_subject subject)

  unfoldable pub parse_abandoned_subject : Str → Result SubjectError AbandonedCollection
  unfolding parse_parts
  parse_abandoned_subject subject = parse_parts subject (split b'.' subject)
