-- ===== src/Analyzer/Candidates.antt =====
-- The union of candidate pairs: pkg/analyzer/candidate/aggregation.go and types.go. `D` is what else a
-- candidate carries, its scores and its generator, which the union does not read.
pub mod Union
use crosscodex.Prelude.{List, [], ◌∷◌, ◌++◌, Option, none, some}
use crosscodex.Prelude.Str.{Str, codes}
use crosscodex.Prelude.Eq.{str_eq}
use crosscodex.Prelude.Maps.{lookup, insert}

pub record Candidate (D : Type 0) : Type 0 where
  pub source_id : Str
  pub target_id : Str
  pub detail : D

unfoldable pub pair_key : Str → Str → Str
pair_key source_id target_id = source_id ++ codes ":" ++ target_id

module _ {D : Type 0} where
  abbrev pub key_of : Candidate D → Str
  key_of c = pair_key c.source_id c.target_id

  abbrev keep_first :
      Str → Candidate D → List (Str × Candidate D) → Option (Candidate D) → List (Str × Candidate D)
  keep_first key c seen none = insert key c seen
  keep_first key c seen (some d) = seen

  unfoldable pub add_candidates :
      List (Candidate D) → List (Str × Candidate D) → List (Str × Candidate D)
  unfolding pair_key
  add_candidates [] seen = seen
  add_candidates (c ∷ cs) seen =
      add_candidates cs (keep_first (key_of c) c seen (lookup (key_of c) seen))

  unfoldable pub add_sets :
      List (List (Candidate D)) → List (Str × Candidate D) → List (Str × Candidate D)
  unfolding add_candidates
  add_sets [] seen = seen
  add_sets (cs ∷ sets) seen = add_sets sets (add_candidates cs seen)

  abbrev pub values : List (Str × Candidate D) → List (Candidate D)
  values [] = []
  values ((k, c) ∷ seen) = c ∷ values seen

  unfoldable pub aggregate_union : List (List (Candidate D)) → List (Candidate D)
  unfolding add_sets
  aggregate_union sets = values (add_sets sets [])
