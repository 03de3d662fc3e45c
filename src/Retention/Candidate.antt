-- ===== src/Retention/Candidate.antt =====
-- What retention evaluates: pkg/retention/candidate.go.
use crosscodex.Prelude.{ℕ}
use crosscodex.Prelude.Str.{Str, codes}

-- DataClass and Store are string types; these are their constants.
abbrev pub class_job_results : Str
class_job_results = codes "job_results"

abbrev pub class_catalogs : Str
class_catalogs = codes "catalogs"

abbrev pub class_embeddings : Str
class_embeddings = codes "embeddings"

abbrev pub class_attestation : Str
class_attestation = codes "attestation"

abbrev pub store_postgres : Str
store_postgres = codes "postgres"

abbrev pub store_object : Str
store_object = codes "object"

pub record Candidate : Type 0 where
  pub store : Str
  pub class : Str
  pub id : Str
  pub tenant_id : Str
  pub created_at : ℕ
  pub size : ℕ
  pub object_key : Str
