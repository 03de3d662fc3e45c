-- ===== src/GraphDb/Types.antt =====
-- The graph's values: pkg/graphdb/types.go and RequiresEdge of pkg/graphdb/edges.go. `V` is the type
-- of the property values, Go's `any`, and `F` that of float64. A time counts nanoseconds from Go's
-- zero time, which is 0.
use crosscodex.Prelude.{ℕ, ◌||◌, ◌&&◌, Bool, true, not, List, [], ◌∷◌, Option, none, some, ltb}
use crosscodex.Prelude.Str.{Str}
use crosscodex.GraphDb.DerivedId.{requires_edge_id}

pub record Node (V : Type 0) : Type 0 where
  pub id : Str
  pub label : Str
  pub properties : List (Str × V)
  pub valid_from : ℕ
  pub valid_to : Option ℕ
  pub created_by : Str
  pub creation_method : Str

pub record Edge (V F : Type 0) : Type 0 where
  pub id : Str
  pub label : Str
  pub properties : List (Str × V)
  pub valid_from : ℕ
  pub valid_to : Option ℕ
  pub determined_by : Str
  pub determination_type : Str
  pub confidence : F
  pub supersedes : Str

pub record RelationshipQuery (V : Type 0) : Type 0 where
  pub source_label : Str
  pub target_label : Str
  pub edge_label : Str
  pub properties : List (Str × V)

pub record TraversalQuery : Type 0 where
  pub start_node : Str
  pub direction : Str
  pub edge_labels : List Str
  pub max_depth : ℕ
  pub as_of : Option ℕ

pub record BulkEdge (V F : Type 0) : Type 0 where
  pub source_id : Str
  pub target_id : Str
  pub edge : Edge V F

pub record SupersedeRequest : Type 0 where
  pub node_id : Str
  pub edge_id : Str
  pub superseded_at : ℕ
  pub superseded_by_job_id : Str

pub record RequiresEdge (I F : Type 0) : Type 0 where
  pub source_id : Str
  pub target_id : Str
  pub confidence : F
  pub unanimous : Bool
  pub valid_votes : I
  pub total_votes : I
  pub vote_weight : F
  pub samples_per_model : I
  pub models : List Str
  pub prompt_version : Str
  pub analyzed_at : ℕ
  pub job_id : Str

abbrev pub edge_id_of : {I F : Type 0} → RequiresEdge I F → Str
edge_id_of r = requires_edge_id r.job_id r.source_id r.target_id

-- A valid_from and a valid_to, read at a time: not yet valid, or no longer.
abbrev pub outside : ℕ → ℕ → Option ℕ → Bool
outside t from none = ltb t from
outside t from (some to) = ltb t from || not (ltb t to)

pub record GraphPath (V F : Type 0) : Type 0 where
  pub nodes : List (Node V)
  pub edges : List (Edge V F)

abbrev nodes_valid : {V : Type 0} → ℕ → List (Node V) → Bool
nodes_valid t [] = true
nodes_valid t (n ∷ ns) = not (outside t n.valid_from n.valid_to) && nodes_valid t ns

abbrev edges_valid : {V F : Type 0} → ℕ → List (Edge V F) → Bool
edges_valid t [] = true
edges_valid t (e ∷ es) = not (outside t e.valid_from e.valid_to) && edges_valid t es

abbrev pub valid_at : {V F : Type 0} → GraphPath V F → ℕ → Bool
valid_at p t = nodes_valid t p.nodes && edges_valid t p.edges
