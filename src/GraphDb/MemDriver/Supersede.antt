-- ===== src/GraphDb/MemDriver/Supersede.antt =====
-- SupersedeFact of pkg/graphdb/memdriver/client.go.
pub mod Hidden
use crosscodex.Prelude.{Bool, true, false, List, [], ◌∷◌, none, some, if◌then◌else◌}
use crosscodex.Prelude.Str.{Str, codes, eqs, is_empty}
use crosscodex.Prelude.Eq.{str_eq}
use crosscodex.Prelude.Maps.{insert}
use crosscodex.Prelude.Result.{Result, ok}
use crosscodex.GraphDb.Types.{SupersedeRequest}
use crosscodex.GraphDb.Checks.{check_supersede_request}
use crosscodex.GraphDb.MemDriver.Props.{Formats, Props, text, string_prop, put_text}
use crosscodex.GraphDb.MemDriver.Graph.{MemEdge, MemGraph, StoreError, node_by_id}
use crosscodex.GraphDb.MemDriver.Client.{MemClient, on_graph}
use crosscodex.GraphDb.MemDriver.Nodes.{set_props}

module _ (fmt : Formats) where
  unfoldable pub superseded : SupersedeRequest → Props fmt → Props fmt
  superseded req props =
      put_text fmt (codes "superseded_by") req.superseded_by_job_id
        (insert (codes "valid_to") (text (fmt.format_time req.superseded_at)) props)

  unfoldable pub supersede_edges : SupersedeRequest → List (MemEdge fmt) → List (MemEdge fmt) × Bool
  supersede_edges req [] = ([], false)
  supersede_edges req (e ∷ es) =
      let rest = supersede_edges req es in
      if eqs (string_prop fmt e.props (codes "id")) req.edge_id
      then (record e { props = superseded req e.props } ∷ rest.0, true)
      else (e ∷ rest.0, rest.1)

  unfoldable pub supersede_node :
      SupersedeRequest → MemGraph fmt → MemGraph fmt × Result StoreError Bool
  supersede_node req g = elim (node_by_id fmt g req.node_id) [
    | none ↦ (g, ok false)
    | some (i, n) ↦ (record g { nodes = set_props fmt i (superseded req n.props) g.nodes }, ok true)
  ]

  unfoldable pub supersede_in :
      SupersedeRequest → MemGraph fmt → MemGraph fmt × Result StoreError Bool
  supersede_in req g =
      if is_empty req.node_id
      then (
        record g { edges = (supersede_edges req g.edges).0 },
        ok (supersede_edges req g.edges).1,
      )
      else supersede_node req g

  -- The result says whether the fact was found.
  unfoldable pub supersede_fact :
      MemClient fmt → Str → SupersedeRequest → MemClient fmt × Result StoreError Bool
  supersede_fact c tenant req =
      on_graph fmt (check_supersede_request req) c tenant (supersede_in req)
