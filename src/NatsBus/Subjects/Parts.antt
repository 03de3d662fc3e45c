-- ===== src/NatsBus/Subjects/Parts.antt =====
-- The validations of pkg/natsbus/subjects.go, as to the dots in the parts of a subject.
use crosscodex.Prelude.{
  ℕ, ◌≡◌, ◌≢◌, refl, ap, ◌∙◌, true, false, List, [], ◌∷◌, ◌++◌, Option, none, All, arith, ◌==◌,
}
use crosscodex.Prelude.Str.{Str, codes}
use crosscodex.Prelude.Join.{join, split, has_byte, split-join}
use crosscodex.Prelude.Regexp.{all_bytes}
use crosscodex.Prelude.Result.{ok}
use crosscodex.Tenant.{middle_class}
use crosscodex.Tenant.Rule.{validate_tenant_id_iff}
use crosscodex.NatsBus.Subjects.{
  SubjectError, subject_prefix, validate_token, validate_job_id, validate_tenant, build_subject,
}

middle-ne-dot : (c : ℕ) → middle_class c ≡ true → (c == b'.') ≡ false
unfolding middle_class
middle-ne-dot c h = ground arith

all_bytes-has_byte : (s : Str) → all_bytes middle_class s ≡ true → has_byte b'.' s ≡ false
unfolding all_bytes has_byte
all_bytes-has_byte [] h = refl
all_bytes-has_byte (c ∷ s) h = ground (arith, middle-ne-dot c, all_bytes-has_byte s)

pub tenant_no_dot : (t : Str) → validate_tenant t ≡ none → has_byte b'.' t ≡ false
unfolding validate_tenant
tenant_no_dot t h = all_bytes-has_byte t ((validate_tenant_id_iff t).0 (ground arith)).bytes

pub token_no_dot : (t label : Str) → validate_token t label ≡ none → has_byte b'.' t ≡ false
unfolding validate_token
token_no_dot t label h = ground arith

pub token_named : (t label : Str) → validate_token t label ≡ none → t ≢ []
unfolding validate_token
token_named t label h = ground arith

pub job_id_token_valid :
    (j : Str) → validate_job_id j ≡ none → validate_token j (codes "job ID") ≡ none
unfolding validate_job_id
job_id_token_valid j h = ground arith

pub job_id_no_dot : (j : Str) → validate_job_id j ≡ none → has_byte b'.' j ≡ false
job_id_no_dot j h = token_no_dot j (codes "job ID") (job_id_token_valid j h)

-- A subject that was built: both checks passed, and it is the prefix and the parts, joined.
pub build_subject-eq-ok :
    (t : Str) (e : Option SubjectError) (parts : List Str) {s : Str}
    → build_subject t e parts ≡ ok s
    → (validate_tenant t ≡ none) × (e ≡ none) × (s ≡ subject_prefix ++ b'.' ∷ join b'.' parts)
unfolding build_subject
build_subject-eq-ok t e parts h = ground arith

pub prefix_no_dot : has_byte b'.' subject_prefix ≡ false
unfolding has_byte
prefix_no_dot = refl

prefix_join :
    (p : Str) (ps : List Str)
    → subject_prefix ++ b'.' ∷ join b'.' (p ∷ ps) ≡ join b'.' (subject_prefix ∷ p ∷ ps)
unfolding join
prefix_join p ps = refl

-- A subject of parts without a dot splits into the prefix and its parts.
pub split-subject :
    (p : Str) (ps : List Str)
    → All (λ q. has_byte b'.' q ≡ false) (p ∷ ps)
    → split b'.' (subject_prefix ++ b'.' ∷ join b'.' (p ∷ ps)) ≡ subject_prefix ∷ p ∷ ps
split-subject p ps h =
    ap (split b'.') (prefix_join p ps) ∙ split-join b'.' subject_prefix (p ∷ ps) (prefix_no_dot, h)
