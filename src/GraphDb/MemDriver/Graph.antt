-- ===== src/GraphDb/MemDriver/Graph.antt =====
-- A tenant's graph: the types and the methods of memGraph in pkg/graphdb/memdriver/client.go. Nodes
-- are never removed nor moved, so the place of a node in the list stands for its pointer.
use crosscodex.Prelude.{
  ℕ, suc, ◌+◌, Bool, true, false, List, [], ◌∷◌, ◌++◌, Option, none, some, if◌then◌else◌, not,
}
use crosscodex.Prelude.Str.{Str, codes, eqs, is_empty}
use crosscodex.Prelude.Eq.{str_eq}
use crosscodex.Prelude.Maps.{lookup, insert}
use crosscodex.Prelude.Result.{Result, ok, err}
use crosscodex.GraphDb.Types.{Node, Edge}
use crosscodex.GraphDb.Checks.{CheckError, TenantError}
use crosscodex.GraphDb.MemDriver.Props.{
  Formats, Props, Value, string_prop, float_prop, time_prop, time_ptr_prop,
}

pub record MemNode (fmt : Formats) : Type 0 where
  pub label : Str
  pub props : Props fmt

pub record MemEdge (fmt : Formats) : Type 0 where
  pub label : Str
  pub props : Props fmt
  pub source : ℕ
  pub target : ℕ
  pub seq : ℕ

-- "node" and "edge".
pub data Kind : Type 0 where
  node_kind edge_kind : Kind

abbrev pub same_kind : Kind → Kind → Bool
same_kind node_kind node_kind = true
same_kind edge_kind edge_kind = true
same_kind node_kind edge_kind = false
same_kind edge_kind node_kind = false

pub record MemGraph (fmt : Formats) : Type 0 where
  pub nodes : List (MemNode fmt)
  pub edges : List (MemEdge fmt)
  pub last_seq : ℕ
  pub label_kinds : List (Str × Kind)

pub data StoreError : Type 0 where
  refused : CheckError → StoreError
  bad_tenant : TenantError → StoreError
  graph_not_found not_supported : StoreError
  label_kind_conflict : (label : Str) (kind stored : Kind) → StoreError
  node_id_conflict : (id label stored : Str) → StoreError
  node_not_found node_exists edge_exists edge_not_found : Str → StoreError
  at_source at_target : StoreError → StoreError
  bulk_edge : (index : ℕ) → StoreError → StoreError
  missing : (field : Str) → StoreError

module _ (fmt : Formats) where
  unfoldable pub use_label : Str → Kind → MemGraph fmt → MemGraph fmt × Option StoreError
  use_label label kind g = elim (lookup label g.label_kinds) [
    | none ↦ (record g { label_kinds = insert label kind g.label_kinds }, none)
    | some stored ↦
        (g, if same_kind stored kind then none else some (label_kind_conflict label kind stored))
  ]

  -- The first node with the ID among those behind the first `i`, and its place.
  unfoldable pub find_node : Str → ℕ → List (MemNode fmt) → Option (ℕ × MemNode fmt)
  find_node id i [] = none
  find_node id i (n ∷ ns) =
      if eqs (string_prop fmt n.props (codes "id")) id then some (i, n) else find_node id (suc i) ns

  abbrev pub node_by_id : MemGraph fmt → Str → Option (ℕ × MemNode fmt)
  node_by_id g id = find_node id 0 g.nodes

  abbrev pub resolve_node : MemGraph fmt → Str → Result StoreError ℕ
  resolve_node g id = elim (node_by_id g id) [ some (i, n) ↦ ok i | none ↦ err (node_not_found id) ]

  unfoldable pub has_edge_id : Str → List (MemEdge fmt) → Bool
  has_edge_id id [] = false
  has_edge_id id (e ∷ es) =
      if eqs (string_prop fmt e.props (codes "id")) id then true else has_edge_id id es

  abbrev pub id_free : Str → List (MemEdge fmt) → Bool
  id_free id es = if is_empty id then true else not (has_edge_id id es)

  abbrev pub append_edge : ℕ → ℕ → Str → Props fmt → MemGraph fmt → MemGraph fmt
  append_edge src tgt label props g = record g {
    last_seq = g.last_seq + 1;
    edges =
        g.edges
        ++ record { label = label; props = props; source = src; target = tgt; seq = g.last_seq + 1 }
          ∷ [];
  }

  unfoldable pub add_edge :
      Str → Str → Str → Props fmt → MemGraph fmt → MemGraph fmt × Option StoreError
  add_edge source_id target_id label props g = elim (resolve_node g source_id) [
    | err e ↦ (g, some (at_source e))
    | ok src ↦ elim (resolve_node g target_id) [
      | err e ↦ (g, some (at_target e))
      | ok tgt ↦
          let id = string_prop fmt props (codes "id") in
          if id_free id g.edges
          then (append_edge src tgt label props g, none)
          else (g, some (edge_exists id))
    ]
  ]

  abbrev pub decode_node : MemNode fmt → Node (Value fmt)
  decode_node n = record {
    id = string_prop fmt n.props (codes "id");
    label = n.label;
    properties = n.props;
    valid_from = time_prop fmt n.props (codes "valid_from");
    valid_to = time_ptr_prop fmt n.props (codes "valid_to");
    created_by = string_prop fmt n.props (codes "created_by");
    creation_method = string_prop fmt n.props (codes "creation_method");
  }

  abbrev pub decode_edge : MemEdge fmt → Edge (Value fmt) fmt.Float
  decode_edge e =
      let id = string_prop fmt e.props (codes "id") in
      record {
        id = if is_empty id then fmt.format_seq e.seq else id;
        label = e.label;
        properties = e.props;
        valid_from = time_prop fmt e.props (codes "valid_from");
        valid_to = time_ptr_prop fmt e.props (codes "valid_to");
        determined_by = string_prop fmt e.props (codes "determined_by");
        determination_type = string_prop fmt e.props (codes "determination_type");
        confidence = float_prop fmt e.props (codes "confidence");
        supersedes = string_prop fmt e.props (codes "supersedes");
      }
