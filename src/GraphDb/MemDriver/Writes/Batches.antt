-- ===== src/GraphDb/MemDriver/Writes/Batches.antt =====
-- Edges, batches of edges and supersession on a graph: pkg/graphdb/memdriver/client.go.
use crosscodex.Prelude.{
  ℕ, suc, ◌≡◌, refl, sym, subst, ◌∙◌, List, [], ◌∷◌, Option, none, some, Option-cases, Bool-cases,
  inl, inr, length, All,
}
use crosscodex.Prelude.Str.{Str, eqs, codes, is_empty}
use crosscodex.Prelude.Eq.{str_eq}
use crosscodex.Prelude.Result.{Result, ok, err}
use crosscodex.GraphDb.Types.{BulkEdge, SupersedeRequest}
use crosscodex.GraphDb.MemDriver.Props.{Formats, Given, Props, edge_props, string_prop}
use crosscodex.GraphDb.MemDriver.Graph.{
  MemEdge, MemGraph, edge_kind, StoreError, use_label, add_edge, find_node,
}
use crosscodex.GraphDb.MemDriver.Client.{with_label, done}
use crosscodex.GraphDb.MemDriver.Edges.{
  use_labels, then_labels, add_edges, add_id, bulk_into, bulk_labelled,
}
use crosscodex.GraphDb.MemDriver.Supersede.{
  supersede_in, supersede_node, supersede_edges, superseded,
}
use crosscodex.GraphDb.MemDriver.Writes.WellFormed.{
  Joins, WellFormed, find_node-some, insert-id, put_text-id,
}
use crosscodex.GraphDb.MemDriver.Writes.Atomic.{add_edge-cases}
use crosscodex.GraphDb.MemDriver.Writes.Invariant.{
  Keeps, use_label-Keeps, with_label-Keeps, set_props-keeps, add_edge-Keeps,
}

module _ (fmt : Formats) where
  pub edge-Keeps :
      (s t name label : Str) (props : Props fmt)
      → Keeps fmt
          (λ g. with_label fmt name edge_kind g λ h. done fmt (add_edge fmt s t label props h))
  edge-Keeps s t name label props =
      with_label-Keeps fmt name edge_kind (λ h. done fmt (add_edge fmt s t label props h))
        λ g w. of (add_edge fmt s t label props g) (add_edge-Keeps fmt s t label props g w)
    where
      of :
          (r : MemGraph fmt × Option StoreError)
          → WellFormed fmt r.0
          → WellFormed fmt (done fmt r).0
      of (g', some e) v = v
      of (g', none) v = v

  use_labels-Keeps : (bs : List (BulkEdge (Given fmt) fmt.Float)) → Keeps fmt (use_labels fmt bs)
  unfolding use_labels
  use_labels-Keeps [] g w = w
  use_labels-Keeps (b ∷ bs) g w =
      of (use_label fmt b.edge.label edge_kind g) (use_label-Keeps fmt b.edge.label edge_kind g w)
        (λ h v. use_labels-Keeps bs h v)
    where
      of :
          (r : MemGraph fmt × Option StoreError)
          → WellFormed fmt r.0
          → Keeps fmt (use_labels fmt bs)
          → WellFormed fmt (then_labels fmt (use_labels fmt bs) r).0
      of (g', some e) v k = v
      of (g', none) v k = k g' v

  add_edges-keeps :
      (before : MemGraph fmt) (i : ℕ) (bs : List (BulkEdge (Given fmt) fmt.Float))
      (g : MemGraph fmt)
      → WellFormed fmt before
      → g.nodes ≡ before.nodes
      → WellFormed fmt g
      → WellFormed fmt (add_edges fmt before i bs g).0
  unfolding add_edges
  add_edges-keeps before i [] g wb same w = w
  add_edges-keeps before i (b ∷ bs) g wb same w =
      elim (add_edge-cases fmt b.source_id b.target_id b.edge.label (edge_props fmt b.edge) g) [
        | inl (d, q) ↦
            rw (q, add_edges)
              (record {
                unique = w.unique;
                joined =
                    subst (λ ns. All (Joins fmt (length ns)) before.edges) (sym same) wb.joined;
              })
        | inr (g', q, kept) ↦
            let w' =
              subst (λ r. WellFormed fmt r.0) q
                (add_edge-Keeps fmt b.source_id b.target_id b.edge.label (edge_props fmt b.edge) g
                  w) in
            rw (q, add_edges)
              (of (add_edges fmt before (suc i) bs g')
                (add_edges-keeps before (suc i) bs g' wb (kept ∙ same) w'))
      ]
    where
      of :
          (r : MemGraph fmt × Result StoreError (List Str))
          → WellFormed fmt r.0
          → WellFormed fmt (add_id fmt b.edge.id r).0
      of (g', ok x) v = v
      of (g', err d) v = v

  pub bulk_into-Keeps : (bs : List (BulkEdge (Given fmt) fmt.Float)) → Keeps fmt (bulk_into fmt bs)
  unfolding bulk_into
  bulk_into-Keeps bs g w = of (use_labels fmt bs g) (use_labels-Keeps bs g w)
    where
      of :
          (r : MemGraph fmt × Option StoreError)
          → WellFormed fmt r.0
          → WellFormed fmt (bulk_labelled fmt bs r).0
      of (g', some e) v = v
      of (g', none) v = add_edges-keeps g' 0 bs g' v refl v

  superseded-id :
      (req : SupersedeRequest) (props : Props fmt)
      → string_prop fmt (superseded fmt req props) (codes "id") ≡ string_prop fmt props (codes "id")
  unfolding superseded eqs
  superseded-id req props =
      put_text-id fmt (codes "superseded_by") req.superseded_by_job_id _ refl
      ∙ insert-id fmt (codes "valid_to") _ props refl

  supersede_edges-Joins :
      (n : ℕ) (req : SupersedeRequest) (es : List (MemEdge fmt))
      → All (Joins fmt n) es
      → All (Joins fmt n) (supersede_edges fmt req es).0
  unfolding supersede_edges
  supersede_edges-Joins n req [] h = tt
  supersede_edges-Joins n req (e ∷ es) h =
      elim (Bool-cases (eqs (string_prop fmt e.props (codes "id")) req.edge_id)) [
        | inl q ↦ rw (q, supersede_edges) (h.0, supersede_edges-Joins n req es h.1)
        | inr q ↦ rw (q, supersede_edges) (h.0, supersede_edges-Joins n req es h.1)
      ]

  pub supersede_in-Keeps : (req : SupersedeRequest) → Keeps fmt (supersede_in fmt req)
  unfolding supersede_in supersede_node
  supersede_in-Keeps req g w = elim (Bool-cases (is_empty req.node_id)) [
    | inl q ↦ rw q (record {
      unique = w.unique;
      joined = supersede_edges-Joins (length g.nodes) req g.edges w.joined;
    })
    | inr q ↦ elim (Option-cases (find_node fmt req.node_id 0 g.nodes)) [
      | inl f ↦ rw q (rw (f, supersede_node) w)
      | inr (i, f) ↦
          let named = (find_node-some fmt req.node_id 0 g.nodes f).named in
          rw q (
            rw (f, supersede_node)
              (set_props-keeps fmt req.node_id i.0 i.1 (superseded fmt req i.1.props) g f
                (superseded-id req i.1.props ∙ named) w))
    ]
  ]
