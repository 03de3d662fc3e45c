-- ===== src/NatsBus/Subjects/Tenancy.antt =====
-- The tenant in a subject: pkg/natsbus/subjects.go.
use crosscodex.Prelude.{◌≡◌, refl, sym, ap, ◌∙◌, Bool, false, List, ◌∷◌, ◌++◌, Option, none, some}
use crosscodex.Prelude.Str.{Str, codes}
use crosscodex.Prelude.Join.{join, split, has_byte, split-append}
use crosscodex.Prelude.Result.{Result, ok}
use crosscodex.NatsBus.Subjects.{
  SubjectError, AbandonedCollection, abandoned_subject, subject_prefix, build_subject,
  pipeline_stage_subject, pipeline_state_subject, work_subject, result_subject, audit_subject,
  feedback_subject, catalog_parsed_subject,
}
use crosscodex.NatsBus.Subjects.Roundtrip.{abandoned_subject-IsBuilt}
use crosscodex.NatsBus.Subjects.Parts.{
  split-subject, tenant_no_dot, build_subject-eq-ok, prefix_no_dot,
}

-- A call of one of the builders, with its arguments.
pub data Request : Type 0 where
  pipeline_stage work result audit : Str → Str → Str → Request
  pipeline_state feedback catalog_parsed : Str → Str → Request
  abandoned : AbandonedCollection → Request

abbrev pub subject_of : (Str → Bool) → Request → Result SubjectError Str
subject_of u (pipeline_stage t j stage) = pipeline_stage_subject t j stage
subject_of u (work t y j) = work_subject t y j
subject_of u (result t y j) = result_subject t y j
subject_of u (audit t y j) = audit_subject t y j
subject_of u (pipeline_state t j) = pipeline_state_subject t j
subject_of u (feedback t i) = feedback_subject t i
subject_of u (catalog_parsed t i) = catalog_parsed_subject t i
subject_of u (abandoned c) = abandoned_subject u c

abbrev pub tenant_of : Request → Str
tenant_of (pipeline_stage t j stage) = t
tenant_of (work t y j) = t
tenant_of (result t y j) = t
tenant_of (audit t y j) = t
tenant_of (pipeline_state t j) = t
tenant_of (feedback t i) = t
tenant_of (catalog_parsed t i) = t
tenant_of (abandoned c) = c.tenant_id

abbrev third : List Str → Option Str
third (p ∷ k ∷ t ∷ ps) = some t
third _ = none

module _ (kind t : Str) (kind_no_dot : has_byte b'.' kind ≡ false) where
  -- Whatever stands behind the tenant, also with dots of its own, the third part is the tenant.
  build_subject-third :
      (e : Option SubjectError) (q : Str) (qs : List Str) {s : Str}
      → build_subject t e (kind ∷ t ∷ q ∷ qs) ≡ ok s
      → third (split b'.' s) ≡ some t
  unfolding join
  build_subject-third e q qs h =
      let (valid, _, spelled) = build_subject-eq-ok t e (kind ∷ t ∷ q ∷ qs) h in
      let rest = join b'.' (q ∷ qs) in
      ap third (
        ap (split b'.') spelled
        ∙ split-append b'.' subject_prefix (kind ++ b'.' ∷ (t ++ b'.' ∷ rest)) prefix_no_dot
        ∙ ap (◌∷◌ subject_prefix) (
            split-append b'.' kind (t ++ b'.' ∷ rest) kind_no_dot
            ∙ ap (◌∷◌ kind) (split-append b'.' t rest (tenant_no_dot t valid))))

module _ (is_canonical_uuid : Str → Bool) where
  abandoned_subject-third :
      (c : AbandonedCollection) {s : Str}
      → abandoned_subject is_canonical_uuid c ≡ ok s
      → third (split b'.' s) ≡ some c.tenant_id
  abandoned_subject-third c h =
      let b = abandoned_subject-IsBuilt is_canonical_uuid c h in
      ap third (ap (split b'.') b.spelled ∙ split-subject (codes "control") _ b.no_dots)

  subject_of-third :
      (r : Request) {s : Str}
      → subject_of is_canonical_uuid r ≡ ok s
      → third (split b'.' s) ≡ some (tenant_of r)
  unfolding has_byte pipeline_stage_subject pipeline_state_subject work_subject result_subject
      audit_subject feedback_subject catalog_parsed_subject
  subject_of-third (pipeline_stage t j stage) h =
      build_subject-third (codes "pipeline") t refl _ j _ h
  subject_of-third (work t y j) h = build_subject-third (codes "work") t refl _ y _ h
  subject_of-third (result t y j) h = build_subject-third (codes "results") t refl _ y _ h
  subject_of-third (audit t y j) h = build_subject-third (codes "audit") t refl _ y _ h
  subject_of-third (pipeline_state t j) h = build_subject-third (codes "pipeline") t refl _ j _ h
  subject_of-third (feedback t i) h = build_subject-third (codes "feedback") t refl _ i _ h
  subject_of-third (catalog_parsed t i) h = build_subject-third (codes "catalog") t refl _ i _ h
  subject_of-third (abandoned c) h = abandoned_subject-third c h

  -- Two calls of the eight subject builders that yield one subject are calls for one tenant: no job
  -- ID, task type, stage or other token makes a subject of one tenant into that of another.
  pub subject_of-tenant :
      (r q : Request) {s : Str}
      → subject_of is_canonical_uuid r ≡ ok s
      → subject_of is_canonical_uuid q ≡ ok s
      → tenant_of r ≡ tenant_of q
  subject_of-tenant r q h k = cc (sym (subject_of-third r h) ∙ subject_of-third q k)
