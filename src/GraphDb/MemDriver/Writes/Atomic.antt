-- ===== src/GraphDb/MemDriver/Writes/Atomic.antt =====
-- Writes that are refused: pkg/graphdb/memdriver/client.go.
use crosscodex.Prelude.{
  ℕ, suc, ◌≡◌, refl, ap, ◌∙◌, List, [], ◌∷◌, Option, none, some, Option-cases, Bool-cases, inl, inr,
  ◌⊎◌, arith,
}
use crosscodex.Prelude.Str.{Str, eqs, codes, is_empty}
use crosscodex.Prelude.Eq.{str_eq}
use crosscodex.Prelude.Maps.{lookup}
use crosscodex.Prelude.Result.{Result, ok, err}
use crosscodex.GraphDb.Types.{Node, BulkEdge, SupersedeRequest}
use crosscodex.GraphDb.Checks.{check_node, check_edge, check_requires_edge, check_supersede_request}
use crosscodex.GraphDb.MemDriver.Props.{
  Formats, Given, Props, edge_props, requires_props, string_prop,
}
use crosscodex.GraphDb.MemDriver.Graph.{
  MemNode, MemEdge, MemGraph, Kind, node_kind, edge_kind, StoreError, use_label, add_edge, id_free,
  append_edge, at_source, at_target, node_not_found, edge_exists, find_node,
}
use crosscodex.GraphDb.MemDriver.Client.{MemClient, on_graph, labelled, with_label, done}
use crosscodex.GraphDb.MemDriver.Nodes.{
  create_in, upsert_in, create_node, upsert_node, put_new, put_or_merge,
}
use crosscodex.GraphDb.MemDriver.Edges.{
  link_in, require_in, create_edge, create_requires_edge, bulk_create_edges, use_labels,
  then_labels, add_edges, add_id, bulk_into, bulk_labelled, check_edges,
}
use crosscodex.GraphDb.MemDriver.Supersede.{supersede_fact, supersede_in, supersede_node}
use crosscodex.GraphDb.MemDriver.Writes.{
  Write, create, upsert, link, require, bulk, supersede, perform, facts, outcome, on_graph-atomic,
}

module _ (fmt : Formats) where
  abbrev held : MemGraph fmt → Option (List (MemNode fmt) × List (MemEdge fmt) × ℕ)
  held g = facts fmt (some g)

  use_label-held :
      (label : Str) (kind : Kind) (g : MemGraph fmt) → held (use_label fmt label kind g).0 ≡ held g
  unfolding use_label
  use_label-held label kind g = elim (Option-cases (lookup label g.label_kinds)) [
    | inl e ↦ rw (e, use_label) refl
    | inr (k, e) ↦ rw (e, use_label) refl
  ]

  -- An operation of a graph that leaves its facts alone when it fails.
  abbrev Atomic : {A : Type 0} → (MemGraph fmt → MemGraph fmt × Result StoreError A) → Type 0
  Atomic f = (g : MemGraph fmt) (e : StoreError) → (f g).1 ≡ err e → held (f g).0 ≡ held g

  with_label-Atomic :
      {A : Type 0} (label : Str) (kind : Kind)
      (k : MemGraph fmt → MemGraph fmt × Result StoreError A)
      → Atomic k
      → Atomic (λ g. with_label fmt label kind g k)
  with_label-Atomic label kind k atomic g e h =
      of (use_label fmt label kind g) (use_label-held label kind g) h
    where
      of :
          (r : MemGraph fmt × Option StoreError)
          → held r.0 ≡ held g
          → (labelled fmt k r).1 ≡ err e
          → held (labelled fmt k r).0 ≡ held g
      of (g', some d) kept h = kept
      of (g', none) kept h = atomic g' e h ∙ kept

  done-Atomic :
      (f : MemGraph fmt → MemGraph fmt × Option StoreError)
      → ((g : MemGraph fmt) (e : StoreError) → (f g).1 ≡ some e → held (f g).0 ≡ held g)
      → Atomic (λ g. done fmt (f g))
  done-Atomic f kept g e h = of (f g) (kept g) h
    where
      of :
          (r : MemGraph fmt × Option StoreError)
          → ((d : StoreError) → r.1 ≡ some d → held r.0 ≡ held g)
          → (done fmt r).1 ≡ err e
          → held (done fmt r).0 ≡ held g
      of (g', none) k h = cc
      of (g', some d) k h = k d refl

  put_new-Atomic : (n : Node (Given fmt)) → Atomic (put_new fmt n)
  unfolding put_new
  put_new-Atomic n g e h = elim (Option-cases (find_node fmt n.id 0 g.nodes)) [
    | inl f ↦ cc (rw (f, put_new) at h)
    | inr (i, f) ↦ rw (f, put_new) refl
  ]

  put_or_merge-Atomic : (n : Node (Given fmt)) → Atomic (put_or_merge fmt n)
  unfolding put_or_merge
  put_or_merge-Atomic n g e h = elim (Option-cases (find_node fmt n.id 0 g.nodes)) [
    | inl f ↦ cc (rw (f, put_or_merge) at h)
    | inr (i, f) ↦ elim (Bool-cases (eqs i.1.label n.label)) [
      | inl q ↦ cc (rw (f, put_or_merge, q) at h)
      | inr q ↦ rw (f, put_or_merge, q) refl
    ]
  ]

  pub add_edge-cases :
      (s t label : Str) (props : Props fmt) (g : MemGraph fmt)
      → ((e : StoreError) × (add_edge fmt s t label props g ≡ (g, some e)))
        ⊎ ((g' : MemGraph fmt) × (add_edge fmt s t label props g ≡ (g', none))
            × (g'.nodes ≡ g.nodes))
  unfolding add_edge
  add_edge-cases s t label props g = elim (Option-cases (find_node fmt s 0 g.nodes)) [
    | inl f ↦ inl (at_source (node_not_found s), rw (f, add_edge) refl)
    | inr (i, f) ↦ elim (Option-cases (find_node fmt t 0 g.nodes)) [
      | inl f' ↦ inl (at_target (node_not_found t), rw (f, f', add_edge) refl)
      | inr (j, f') ↦ elim (Bool-cases (id_free fmt (string_prop fmt props (codes "id")) g.edges)) [
        | inl q ↦ inr (append_edge fmt i.0 j.0 label props g, rw (f, f', q, add_edge) refl, refl)
        | inr q ↦
            inl (edge_exists (string_prop fmt props (codes "id")), rw (f, f', q, add_edge) refl)
      ]
    ]
  ]

  add_edge-atomic :
      (s t label : Str) (props : Props fmt) (g : MemGraph fmt) (e : StoreError)
      → (add_edge fmt s t label props g).1 ≡ some e
      → held (add_edge fmt s t label props g).0 ≡ held g
  add_edge-atomic s t label props g e h = elim (add_edge-cases s t label props g) [
    | inl (d, q) ↦ ap (λ r. held r.0) q
    | inr (g', q, _) ↦ cc (ap (λ r. r.1) q)
  ]

  use_labels-held :
      (bs : List (BulkEdge (Given fmt) fmt.Float)) (g : MemGraph fmt)
      → held (use_labels fmt bs g).0 ≡ held g
  unfolding use_labels
  use_labels-held [] g = refl
  use_labels-held (b ∷ bs) g =
      of (use_label fmt b.edge.label edge_kind g) (λ h. use_labels-held bs h)
      ∙ use_label-held b.edge.label edge_kind g
    where
      of :
          (r : MemGraph fmt × Option StoreError)
          → ((h : MemGraph fmt) → held (use_labels fmt bs h).0 ≡ held h)
          → held (then_labels fmt (use_labels fmt bs) r).0 ≡ held r.0
      of (g', some e) k = refl
      of (g', none) k = k g'

  -- The loop of a batch that fails takes back the edges that it has added.
  add_edges-atomic :
      (before : MemGraph fmt) (i : ℕ) (bs : List (BulkEdge (Given fmt) fmt.Float))
      (g : MemGraph fmt) (e : StoreError)
      → g.nodes ≡ before.nodes
      → (add_edges fmt before i bs g).1 ≡ err e
      → held (add_edges fmt before i bs g).0 ≡ held before
  unfolding add_edges
  add_edges-atomic before i [] g e same h = cc
  add_edges-atomic before i (b ∷ bs) g e same h =
      elim (add_edge-cases b.source_id b.target_id b.edge.label (edge_props fmt b.edge) g) [
        | inl (d, q) ↦ rw (q, add_edges) (ap (λ n. some (n, before.edges, before.last_seq)) same)
        | inr (g', q, kept) ↦
            rw (q, add_edges)
              (ids (add_edges fmt before (suc i) bs g')
                (add_edges-atomic before (suc i) bs g' e (kept ∙ same)) (rw (q, add_edges) at h))
      ]
    where
      ids :
          (r : MemGraph fmt × Result StoreError (List Str))
          → (r.1 ≡ err e → held r.0 ≡ held before)
          → (add_id fmt b.edge.id r).1 ≡ err e
          → held (add_id fmt b.edge.id r).0 ≡ held before
      ids (g', ok x) k h = cc
      ids (g', err d) k h = k h

  bulk_into-Atomic : (bs : List (BulkEdge (Given fmt) fmt.Float)) → Atomic (bulk_into fmt bs)
  unfolding bulk_into
  bulk_into-Atomic bs g e h = of (use_labels fmt bs g) (use_labels-held bs g) h
    where
      of :
          (r : MemGraph fmt × Option StoreError)
          → held r.0 ≡ held g
          → (bulk_labelled fmt bs r).1 ≡ err e
          → held (bulk_labelled fmt bs r).0 ≡ held g
      of (g', some d) kept h = kept
      of (g', none) kept h = add_edges-atomic g' 0 bs g' e refl h ∙ kept

  supersede_in-Atomic : (req : SupersedeRequest) → Atomic (supersede_in fmt req)
  unfolding supersede_in supersede_node
  supersede_in-Atomic req g e h = elim (Bool-cases (is_empty req.node_id)) [
    | inl q ↦ cc (rw q at h)
    | inr q ↦ elim (Option-cases (find_node fmt req.node_id 0 g.nodes)) [
      | inl f ↦ rw q (rw (f, supersede_node) refl)
      | inr (i, f) ↦ cc (rw (f, supersede_node) at (rw q at h))
    ]
  ]

  edge-Atomic :
      (s t name label : Str) (props : Props fmt)
      → Atomic (λ g. with_label fmt name edge_kind g λ h. done fmt (add_edge fmt s t label props h))
  edge-Atomic s t name label props =
      with_label-Atomic name edge_kind (λ h. done fmt (add_edge fmt s t label props h))
        (done-Atomic (add_edge fmt s t label props) (add_edge-atomic s t label props))

  failed :
      {A : Type 0} (r : MemClient fmt × Result StoreError A) {e : StoreError}
      → (outcome fmt r).1 ≡ some e
      → r.1 ≡ err e
  failed (c, ok a) h = cc
  failed (c, err d) h = ground arith

  -- A write that is refused, a batch of edges at any of its positions included, leaves the nodes,
  -- the edges and the sequence number of every tenant's graph as they were: only the kind of a label
  -- may stay recorded.
  pub perform-atomic :
      (c : MemClient fmt) (tenant : Str) (w : Write fmt) (e : StoreError)
      → (perform fmt c tenant w).1 ≡ some e
      → (t : Str) → facts fmt (lookup t (perform fmt c tenant w).0) ≡ facts fmt (lookup t c)
  unfolding perform create_node upsert_node create_edge create_requires_edge bulk_create_edges
      supersede_fact
  perform-atomic c tenant (create n) e h t =
      on_graph-atomic fmt c tenant (create_in fmt n) (check_node n)
        (with_label-Atomic n.label node_kind (put_new fmt n) (put_new-Atomic n))
        (failed (create_node fmt c tenant n) h) t
  perform-atomic c tenant (upsert n) e h t =
      on_graph-atomic fmt c tenant (upsert_in fmt n) (check_node n)
        (with_label-Atomic n.label node_kind (put_or_merge fmt n) (put_or_merge-Atomic n))
        (failed (upsert_node fmt c tenant n) h) t
  perform-atomic c tenant (link a b x) e h t =
      on_graph-atomic fmt c tenant (link_in fmt a b x) (check_edge a b x)
        (edge-Atomic a b x.label x.label (edge_props fmt x))
        (failed (create_edge fmt c tenant a b x) h) t
  perform-atomic c tenant (require r) e h t =
      on_graph-atomic fmt c tenant (require_in fmt r) (check_requires_edge r)
        (edge-Atomic r.source_id r.target_id (codes "REQUIRES") (codes "REQUIRES")
          (requires_props fmt r))
        (failed (create_requires_edge fmt c tenant r) h) t
  perform-atomic c tenant (bulk []) e h t = refl
  perform-atomic c tenant (bulk (b ∷ bs)) e h t = elim (Option-cases (check_edges fmt 0 (b ∷ bs))) [
    | inl passed ↦ rw passed (
        on_graph-atomic fmt c tenant (bulk_into fmt (b ∷ bs)) none (bulk_into-Atomic (b ∷ bs))
          (failed (on_graph fmt none c tenant (bulk_into fmt (b ∷ bs))) (rw passed at h)) t)
    | inr (d, refused) ↦ rw refused refl
  ]
  perform-atomic c tenant (supersede req) e h t =
      on_graph-atomic fmt c tenant (supersede_in fmt req) (check_supersede_request req)
        (supersede_in-Atomic req) (failed (supersede_fact fmt c tenant req) h) t
