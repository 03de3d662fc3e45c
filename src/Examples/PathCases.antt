-- ===== src/Examples/PathCases.antt =====
-- Paths and superseded edges of the in-memory graph driver at concrete inputs:
-- pkg/graphdb/memdriver/client.go.
use crosscodex.Prelude.{ℕ, suc, ◌≡◌, ◌↔◌, refl, false, [], ◌∷◌, none, ◌==◌, length, In, here}
use crosscodex.Prelude.Str.{codes, eqs}
use crosscodex.Prelude.Eq.{str_eq}
use crosscodex.Prelude.Maps.{lookup, insert}
use crosscodex.GraphDb.Types.{TraversalQuery, RelationshipQuery, SupersedeRequest}
use crosscodex.GraphDb.MemDriver.Props.{Formats, Given, text, string_prop}
use crosscodex.GraphDb.MemDriver.Graph.{MemEdge, MemGraph}
use crosscodex.GraphDb.MemDriver.Walk.{walk}
use crosscodex.GraphDb.MemDriver.Walk.Trails.{IsTrail}
use crosscodex.GraphDb.MemDriver.Walk.Complete.{walk_iff}
use crosscodex.GraphDb.MemDriver.Query.{selects}
use crosscodex.GraphDb.MemDriver.Supersede.{superseded, supersede_edges}
use crosscodex.GraphDb.MemDriver.Supersede.Hidden.{supersede_edges-selects}

-- Numbers and times that are natural numbers, in place of Go's formats.
abbrev plain : Formats
plain = record {
  Float = ℕ;
  Float32 = ℕ;
  Int = ℕ;
  zero_float = 0;
  same_float = λ x y. x == y;
  of_int = λ x. x;
  reread = λ x. x;
  format_time = λ t. t ∷ [];
  parse_time = λ s. none;
  format_seq = λ n. n ∷ [];
}

abbrev loop_edge : MemEdge plain
loop_edge = record {
  label = codes "REQUIRES";
  props = (codes "id", text (codes "e1")) ∷ [];
  source = 0;
  target = 0;
  seq = 1;
}

abbrev outbound : TraversalQuery
outbound = record {
  start_node = codes "n1";
  direction = codes "outbound";
  edge_labels = [];
  max_depth = 0;
  as_of = none;
}

walk_iff_example :
    In
      (0 ∷ 0 ∷ [], 0 ∷ [])
      (walk plain (suc (length (loop_edge ∷ []))) outbound (loop_edge ∷ []) 0 (0 ∷ []) [])
    ↔ IsTrail plain outbound (loop_edge ∷ []) 0 (0 ∷ 0 ∷ [], 0 ∷ [])
walk_iff_example = walk_iff plain outbound (loop_edge ∷ []) 0 (0 ∷ 0 ∷ [], 0 ∷ [])

abbrev retire : SupersedeRequest
retire = record { node_id = []; edge_id = codes "e1"; superseded_at = 9; superseded_by_job_id = [] }

abbrev every_edge : RelationshipQuery (Given plain)
every_edge = record { source_label = []; target_label = []; edge_label = []; properties = [] }

abbrev retired : MemEdge plain
retired = record loop_edge {
  props = (codes "id", text (codes "e1")) ∷ (codes "valid_to", text (9 ∷ [])) ∷ [];
}

abbrev graph_with_retired : MemGraph plain
graph_with_retired = record { nodes = []; edges = retired ∷ []; last_seq = 1; label_kinds = [] }

is_there : In retired (supersede_edges plain retire (loop_edge ∷ [])).0
unfolding supersede_edges superseded insert lookup eqs
is_there = here refl

is_named : string_prop plain retired.props (codes "id") ≡ codes "e1"
unfolding lookup eqs
is_named = refl

supersede_edges-selects_example : selects plain every_edge none graph_with_retired retired ≡ false
supersede_edges-selects_example =
    supersede_edges-selects plain retire every_edge graph_with_retired (loop_edge ∷ []) retired
      is_there is_named
