-- ===== src/GraphDb/MemDriver/Writes/History.antt =====
-- Sequences of calls of the in-memory driver: pkg/graphdb/memdriver/client.go.
use crosscodex.Prelude.{
  ◌≡◌, sym, subst, ◌∙◌, List, [], ◌∷◌, none, some, Option-cases, Bool-cases, inl, inr,
}
use crosscodex.Prelude.Str.{Str, eqs, codes}
use crosscodex.Prelude.Eq.{str_eq}
use crosscodex.Prelude.Maps.{lookup, lookup-insert}
use crosscodex.GraphDb.Checks.{
  check_node, check_edge, check_requires_edge, check_supersede_request, check_tenant,
}
use crosscodex.GraphDb.MemDriver.Props.{Formats, edge_props, requires_props}
use crosscodex.GraphDb.MemDriver.Graph.{MemGraph, node_kind}
use crosscodex.GraphDb.MemDriver.Client.{MemClient, create_graph, empty_graph, new}
use crosscodex.GraphDb.MemDriver.Nodes.{
  create_in, upsert_in, create_node, upsert_node, put_new, put_or_merge,
}
use crosscodex.GraphDb.MemDriver.Edges.{
  link_in, require_in, create_edge, create_requires_edge, bulk_create_edges, bulk_into, check_edges,
}
use crosscodex.GraphDb.MemDriver.Supersede.{supersede_fact, supersede_in}
use crosscodex.GraphDb.MemDriver.Writes.{
  Write, create, upsert, link, require, bulk, supersede, perform, on_graph-holds,
}
use crosscodex.GraphDb.MemDriver.Writes.WellFormed.{WellFormed}
use crosscodex.GraphDb.MemDriver.Writes.Invariant.{
  with_label-Keeps, put_new-Keeps, put_or_merge-Keeps,
}
use crosscodex.GraphDb.MemDriver.Writes.Batches.{edge-Keeps, bulk_into-Keeps, supersede_in-Keeps}

module _ (fmt : Formats) where
  abbrev pub AllWellFormed : MemClient fmt → Type 0
  AllWellFormed c = (t : Str) (g : MemGraph fmt) → lookup t c ≡ some g → WellFormed fmt g

  perform-keeps :
      (c : MemClient fmt) (tenant : Str) (w : Write fmt)
      → AllWellFormed c
      → AllWellFormed (perform fmt c tenant w).0
  unfolding perform create_node upsert_node create_edge create_requires_edge bulk_create_edges
      supersede_fact
  perform-keeps c tenant (create n) all =
      on_graph-holds fmt c tenant (create_in fmt n) (WellFormed fmt) (check_node n)
        (λ passed.
          with_label-Keeps fmt n.label node_kind (put_new fmt n) (put_new-Keeps fmt n passed))
        all
  perform-keeps c tenant (upsert n) all =
      on_graph-holds fmt c tenant (upsert_in fmt n) (WellFormed fmt) (check_node n)
        (λ passed.
          with_label-Keeps fmt n.label node_kind (put_or_merge fmt n)
            (put_or_merge-Keeps fmt n passed))
        all
  perform-keeps c tenant (link a b x) all =
      on_graph-holds fmt c tenant (link_in fmt a b x) (WellFormed fmt) (check_edge a b x)
        (λ passed. edge-Keeps fmt a b x.label x.label (edge_props fmt x)) all
  perform-keeps c tenant (require r) all =
      on_graph-holds fmt c tenant (require_in fmt r) (WellFormed fmt) (check_requires_edge r)
        (λ passed.
          edge-Keeps fmt r.source_id r.target_id (codes "REQUIRES") (codes "REQUIRES")
            (requires_props fmt r))
        all
  perform-keeps c tenant (bulk []) all = all
  perform-keeps c tenant (bulk (b ∷ bs)) all = elim (Option-cases (check_edges fmt 0 (b ∷ bs))) [
    | inl passed ↦ rw passed (
        on_graph-holds fmt c tenant (bulk_into fmt (b ∷ bs)) (WellFormed fmt) none
          (λ _. bulk_into-Keeps fmt (b ∷ bs)) all)
    | inr (d, refused) ↦ rw refused all
  ]
  perform-keeps c tenant (supersede req) all =
      on_graph-holds fmt c tenant (supersede_in fmt req) (WellFormed fmt)
        (check_supersede_request req) (λ _. supersede_in-Keeps fmt req) all

  -- A call for a tenant: CreateGraph, or a writing operation.
  pub data Action : Type 0 where
    opens : Str → Action
    writes : Str → Write fmt → Action

  abbrev pub act : Action → MemClient fmt → MemClient fmt
  act (opens tenant) c = (create_graph fmt c tenant).0
  act (writes tenant w) c = (perform fmt c tenant w).0

  abbrev pub act_all : List Action → MemClient fmt → MemClient fmt
  act_all [] c = c
  act_all (a ∷ xs) c = act_all xs (act a c)

  create_graph-keeps :
      (c : MemClient fmt) (tenant : Str)
      → AllWellFormed c
      → AllWellFormed (create_graph fmt c tenant).0
  unfolding create_graph
  create_graph-keeps c tenant all t g h = elim (Option-cases (check_tenant tenant)) [
    | inr (e, q) ↦ all t g (rw (q, create_graph) at h)
    | inl q ↦ elim (Option-cases (lookup tenant c)) [
      | inr (g', q') ↦ all t g (rw (q, q', create_graph) at h)
      | inl q' ↦
          let read =
            sym (lookup-insert tenant t (empty_graph fmt) c) ∙ (rw (q, q', create_graph) at h) in
          elim (Bool-cases (eqs tenant t)) [
            | inl s ↦
                let e : empty_graph fmt ≡ g = cc (rw s at read) in
                subst (WellFormed fmt) e (record { unique = tt; joined = tt })
            | inr s ↦ all t g (rw s at read)
          ]
    ]
  ]

  act_all-keeps :
      (xs : List Action) (c : MemClient fmt) → AllWellFormed c → AllWellFormed (act_all xs c)
  act_all-keeps [] c all = all
  act_all-keeps (opens t ∷ xs) c all = act_all-keeps xs _ (create_graph-keeps c t all)
  act_all-keeps (writes t w ∷ xs) c all = act_all-keeps xs _ (perform-keeps c t w all)

  -- After any calls of the writing operations, refused ones included, on a new client, the IDs of
  -- the nodes of each tenant's graph are distinct and each of its edges joins two of its nodes.
  pub act_all-WellFormed : (xs : List Action) → AllWellFormed (act_all xs (new fmt))
  unfolding lookup
  act_all-WellFormed xs = act_all-keeps xs (new fmt) λ t g h. cc
