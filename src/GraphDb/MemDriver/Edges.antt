-- ===== src/GraphDb/MemDriver/Edges.antt =====
-- CreateEdge, CreateRequiresEdge and BulkCreateEdges of pkg/graphdb/memdriver/client.go.
use crosscodex.Prelude.{ℕ, suc, List, [], ◌∷◌, Option, none, some}
use crosscodex.Prelude.Str.{Str, codes}
use crosscodex.Prelude.Eq.{str_eq}
use crosscodex.Prelude.Result.{Result, ok, err}
use crosscodex.GraphDb.Types.{Edge, BulkEdge, RequiresEdge}
use crosscodex.GraphDb.Checks.{TenantError, check_tenant, check_edge, check_requires_edge}
use crosscodex.GraphDb.MemDriver.Props.{Formats, Given, edge_props, requires_props}
use crosscodex.GraphDb.MemDriver.Graph.{
  MemGraph, edge_kind, StoreError, refused, bad_tenant, bulk_edge, use_label, add_edge,
}
use crosscodex.GraphDb.MemDriver.Client.{MemClient, on_graph, with_label, done}

module _ (fmt : Formats) where
  abbrev pub link_in :
      Str
      → Str
      → Edge (Given fmt) fmt.Float
      → MemGraph fmt
      → MemGraph fmt × Result StoreError (Unit {0})
  link_in source_id target_id e g =
      with_label fmt e.label edge_kind g
        λ h. done fmt (add_edge fmt source_id target_id e.label (edge_props fmt e) h)

  abbrev pub require_in :
      RequiresEdge fmt.Int fmt.Float → MemGraph fmt → MemGraph fmt × Result StoreError (Unit {0})
  require_in r g = with_label fmt (codes "REQUIRES") edge_kind g λ h.
      done fmt (add_edge fmt r.source_id r.target_id (codes "REQUIRES") (requires_props fmt r) h)

  unfoldable pub create_edge :
      MemClient fmt
      → Str
      → Str
      → Str
      → Edge (Given fmt) fmt.Float
      → MemClient fmt × Result StoreError (Unit {0})
  create_edge c tenant source_id target_id e =
      on_graph fmt (check_edge source_id target_id e) c tenant (link_in source_id target_id e)

  unfoldable pub create_requires_edge :
      MemClient fmt
      → Str
      → RequiresEdge fmt.Int fmt.Float
      → MemClient fmt × Result StoreError (Unit {0})
  create_requires_edge c tenant r = on_graph fmt (check_requires_edge r) c tenant (require_in r)

  abbrev pub then_labels :
      (MemGraph fmt → MemGraph fmt × Option StoreError)
      → MemGraph fmt × Option StoreError
      → MemGraph fmt × Option StoreError
  then_labels k (g, some e) = (g, some e)
  then_labels k (g, none) = k g

  unfoldable pub use_labels :
      List (BulkEdge (Given fmt) fmt.Float) → MemGraph fmt → MemGraph fmt × Option StoreError
  use_labels [] g = (g, none)
  use_labels (b ∷ bs) g = then_labels (use_labels bs) (use_label fmt b.edge.label edge_kind g)

  abbrev pub add_id :
      Str
      → MemGraph fmt × Result StoreError (List Str)
      → MemGraph fmt × Result StoreError (List Str)
  add_id id (g, ok ids) = (g, ok (id ∷ ids))
  add_id id (g, err e) = (g, err e)

  abbrev pub rolled_back : MemGraph fmt → MemGraph fmt → MemGraph fmt
  rolled_back before g = record g { edges = before.edges; last_seq = before.last_seq }

  abbrev pub then_edges :
      (before : MemGraph fmt) (i : ℕ)
      → (MemGraph fmt → MemGraph fmt × Result StoreError (List Str))
      → MemGraph fmt × Option StoreError
      → MemGraph fmt × Result StoreError (List Str)
  then_edges before i k (g, some e) = (rolled_back before g, err (bulk_edge i e))
  then_edges before i k (g, none) = k g

  -- The loop that adds the edges from index `i` on; on an error the edges and the sequence number
  -- are those of `before`.
  unfoldable pub add_edges :
      MemGraph fmt
      → ℕ
      → List (BulkEdge (Given fmt) fmt.Float)
      → MemGraph fmt
      → MemGraph fmt × Result StoreError (List Str)
  add_edges before i [] g = (g, ok [])
  add_edges before i (b ∷ bs) g =
      then_edges before i (λ h. add_id b.edge.id (add_edges before (suc i) bs h))
        (add_edge fmt b.source_id b.target_id b.edge.label (edge_props fmt b.edge) g)

  unfoldable pub check_edges : ℕ → List (BulkEdge (Given fmt) fmt.Float) → Option StoreError
  check_edges i [] = none
  check_edges i (b ∷ bs) = elim (check_edge b.source_id b.target_id b.edge) [
    | some e ↦ some (bulk_edge i (refused e))
    | none ↦ check_edges (suc i) bs
  ]

  abbrev pub bulk_labelled :
      List (BulkEdge (Given fmt) fmt.Float)
      → MemGraph fmt × Option StoreError
      → MemGraph fmt × Result StoreError (List Str)
  bulk_labelled bs (g, some e) = (g, err e)
  bulk_labelled bs (g, none) = add_edges g 0 bs g

  unfoldable pub bulk_into :
      List (BulkEdge (Given fmt) fmt.Float)
      → MemGraph fmt
      → MemGraph fmt × Result StoreError (List Str)
  bulk_into bs g = bulk_labelled bs (use_labels bs g)

  abbrev pub bulk_checked :
      MemClient fmt
      → Str
      → List (BulkEdge (Given fmt) fmt.Float)
      → Option StoreError
      → MemClient fmt × Result StoreError (List Str)
  bulk_checked c tenant bs (some e) = (c, err e)
  bulk_checked c tenant bs none = on_graph fmt none c tenant (bulk_into bs)

  abbrev pub only_tenant : Option TenantError → Result StoreError (List Str)
  only_tenant none = ok []
  only_tenant (some e) = err (bad_tenant e)

  -- The nil slice that an empty batch returns is the empty list.
  unfoldable pub bulk_create_edges :
      MemClient fmt
      → Str
      → List (BulkEdge (Given fmt) fmt.Float)
      → MemClient fmt × Result StoreError (List Str)
  bulk_create_edges c tenant [] = (c, only_tenant (check_tenant tenant))
  bulk_create_edges c tenant (b ∷ bs) = bulk_checked c tenant (b ∷ bs) (check_edges 0 (b ∷ bs))
