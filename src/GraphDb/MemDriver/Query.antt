-- ===== src/GraphDb/MemDriver/Query.antt =====
-- The reading operations of pkg/graphdb/memdriver/client.go.
use crosscodex.Prelude.{
  ℕ, Bool, true, false, ◌&&◌, ◌||◌, List, [], ◌∷◌, Option, none, some, if◌then◌else◌, not,
  get_elem?,
}
use crosscodex.Prelude.Str.{Str, codes, eqs, is_empty}
use crosscodex.Prelude.Eq.{str_eq}
use crosscodex.Prelude.Maps.{lookup}
use crosscodex.Prelude.Result.{Result, ok, err}
use crosscodex.GraphDb.Types.{Node, Edge, RelationshipQuery, valid_at}
use crosscodex.GraphDb.Checks.{CheckError, check_relationship_query}
use crosscodex.GraphDb.MemDriver.Props.{
  Formats, Props, Given, Value, string_prop, deep_equal, normalize_value,
}
use crosscodex.GraphDb.MemDriver.Graph.{
  MemNode, MemEdge, MemGraph, StoreError, refused, node_not_found, edge_not_found, missing,
  not_supported, node_by_id, decode_node, decode_edge,
}
use crosscodex.GraphDb.MemDriver.Client.{MemClient, graph}

module _ (fmt : Formats) where
  pub record Relationship : Type 0 where
    pub source : Node (Value fmt)
    pub edge : Edge (Value fmt) fmt.Float
    pub target : Node (Value fmt)

  abbrev no_node : Option (MemNode fmt) → MemNode fmt
  no_node none = record { label = []; props = [] }
  no_node (some n) = n

  -- The node that an edge points to.
  abbrev pub node_at : MemGraph fmt → ℕ → MemNode fmt
  node_at g i = no_node (get_elem? g.nodes i)

  unfoldable pub matches_props : Props fmt → List (Str × Given fmt) → Bool
  matches_props props [] = true
  matches_props props ((k, v) ∷ want) = has (lookup k props) && matches_props props want
    where
      has : Option (Value fmt) → Bool
      has none = false
      has (some got) = deep_equal fmt got (normalize_value fmt v)

  -- An empty label of a query matches every label.
  abbrev matches_label : Str → Str → Bool
  matches_label want label = is_empty want || eqs label want

  abbrev pub is_some : {A : Type 0} → Option A → Bool
  is_some none = false
  is_some (some a) = true

  -- The validity of an edge in a query, now (none) or at a time.
  abbrev pub edge_in_force : Option ℕ → MemEdge fmt → Bool
  edge_in_force none e = not (is_some (lookup (codes "valid_to") e.props))
  edge_in_force (some t) e = valid_at (record { nodes = []; edges = decode_edge fmt e ∷ [] }) t

  unfoldable pub selects :
      RelationshipQuery (Given fmt) → Option ℕ → MemGraph fmt → MemEdge fmt → Bool
  selects q as_of g e =
      matches_label q.edge_label e.label
      && matches_label q.source_label (node_at g e.source).label
      && matches_label q.target_label (node_at g e.target).label
      && matches_props e.props q.properties
      && edge_in_force as_of e

  abbrev relationship : MemGraph fmt → MemEdge fmt → Relationship
  relationship g e = record {
    source = decode_node fmt (node_at g e.source);
    edge = decode_edge fmt e;
    target = decode_node fmt (node_at g e.target);
  }

  unfoldable pub relationships :
      RelationshipQuery (Given fmt)
      → Option ℕ
      → MemGraph fmt
      → List (MemEdge fmt)
      → List Relationship
  relationships q as_of g [] = []
  relationships q as_of g (e ∷ es) =
      let rest = relationships q as_of g es in
      if selects q as_of g e then relationship g e ∷ rest else rest

  abbrev on_found :
      {A : Type 0}
      → (MemGraph fmt → Result StoreError A)
      → Result StoreError (MemGraph fmt)
      → Result StoreError A
  on_found f (err e) = err e
  on_found f (ok g) = f g

  -- A reading operation, once its check has passed and the graph is found.
  abbrev pub reading :
      {A : Type 0}
      → Option CheckError
      → MemClient fmt
      → Str
      → (MemGraph fmt → Result StoreError A)
      → Result StoreError A
  reading (some e) c tenant f = err (refused e)
  reading none c tenant f = on_found f (graph fmt c tenant)

  unfoldable pub query_relationships :
      MemClient fmt → Str → RelationshipQuery (Given fmt) → Result StoreError (List Relationship)
  query_relationships c tenant q =
      reading (check_relationship_query q) c tenant λ g. ok (relationships q none g g.edges)

  unfoldable pub query_as_of :
      MemClient fmt
      → Str
      → RelationshipQuery (Given fmt)
      → ℕ
      → Result StoreError (List Relationship)
  query_as_of c tenant q t =
      reading (check_relationship_query q) c tenant λ g. ok (relationships q (some t) g g.edges)

  unfoldable pub get_node : MemClient fmt → Str → Str → Result StoreError (Node (Value fmt))
  get_node c tenant id =
      if is_empty id
      then err (missing (codes "node_id"))
      else on_found (λ g. found (node_by_id fmt g id)) (graph fmt c tenant)
    where
      found : Option (ℕ × MemNode fmt) → Result StoreError (Node (Value fmt))
      found none = err (node_not_found id)
      found (some (i, n)) = ok (decode_node fmt n)

  pub record EdgeWithEndpoints : Type 0 where
    pub edge : Edge (Value fmt) fmt.Float
    pub source_id : Str
    pub target_id : Str

  unfoldable pub find_edge : Str → List (MemEdge fmt) → Option (MemEdge fmt)
  find_edge id [] = none
  find_edge id (e ∷ es) =
      if eqs (string_prop fmt e.props (codes "id")) id then some e else find_edge id es

  unfoldable pub get_edge : MemClient fmt → Str → Str → Result StoreError EdgeWithEndpoints
  get_edge c tenant id =
      if is_empty id
      then err (missing (codes "edge_id"))
      else on_found (λ g. found g (find_edge id g.edges)) (graph fmt c tenant)
    where
      found : MemGraph fmt → Option (MemEdge fmt) → Result StoreError EdgeWithEndpoints
      found g none = err (edge_not_found id)
      found g (some e) = ok (record {
        edge = decode_edge fmt e;
        source_id = string_prop fmt (node_at g e.source).props (codes "id");
        target_id = string_prop fmt (node_at g e.target).props (codes "id");
      })

  -- The openCypher text is never run.
  unfoldable pub execute_query : MemClient fmt → Str → Str → StoreError
  execute_query c tenant cypher =
      if is_empty cypher then missing (codes "cypher") else refusal (graph fmt c tenant)
    where
      refusal : Result StoreError (MemGraph fmt) → StoreError
      refusal (err e) = e
      refusal (ok g) = not_supported
