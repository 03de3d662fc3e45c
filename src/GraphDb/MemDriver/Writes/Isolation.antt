-- ===== src/GraphDb/MemDriver/Writes/Isolation.antt =====
-- The tenants of the in-memory driver beside each other: pkg/graphdb/memdriver/client.go.
use crosscodex.Prelude.{◌≡◌, ◌≢◌, refl, [], ◌∷◌, none, Option-cases, inl, inr}
use crosscodex.Prelude.Str.{Str}
use crosscodex.Prelude.Eq.{str_eq}
use crosscodex.Prelude.Maps.{lookup}
use crosscodex.GraphDb.Checks.{check_node, check_edge, check_requires_edge, check_supersede_request}
use crosscodex.GraphDb.MemDriver.Props.{Formats}
use crosscodex.GraphDb.MemDriver.Client.{MemClient}
use crosscodex.GraphDb.MemDriver.Nodes.{create_in, upsert_in, create_node, upsert_node}
use crosscodex.GraphDb.MemDriver.Edges.{
  link_in, require_in, create_edge, create_requires_edge, bulk_create_edges, bulk_into, check_edges,
}
use crosscodex.GraphDb.MemDriver.Supersede.{supersede_fact, supersede_in}
use crosscodex.GraphDb.MemDriver.Writes.{
  Write, create, upsert, link, require, bulk, supersede, perform, Agree, on_graph-Agree,
  on_graph-others,
}

module _ (fmt : Formats) where
  perform-Agree :
      (c d : MemClient fmt) (tenant : Str) (w : Write fmt)
      → lookup tenant c ≡ lookup tenant d
      → Agree fmt tenant (perform fmt c tenant w) (perform fmt d tenant w)
  unfolding perform create_node upsert_node create_edge create_requires_edge bulk_create_edges
      supersede_fact
  perform-Agree c d tenant (create n) same =
      on_graph-Agree fmt c d tenant (create_in fmt n) (check_node n) same
  perform-Agree c d tenant (upsert n) same =
      on_graph-Agree fmt c d tenant (upsert_in fmt n) (check_node n) same
  perform-Agree c d tenant (link a b x) same =
      on_graph-Agree fmt c d tenant (link_in fmt a b x) (check_edge a b x) same
  perform-Agree c d tenant (require r) same =
      on_graph-Agree fmt c d tenant (require_in fmt r) (check_requires_edge r) same
  perform-Agree c d tenant (bulk []) same = (refl, same)
  perform-Agree c d tenant (bulk (b ∷ bs)) same = elim (Option-cases (check_edges fmt 0 (b ∷ bs))) [
    | inl passed ↦ rw passed (on_graph-Agree fmt c d tenant (bulk_into fmt (b ∷ bs)) none same)
    | inr (e, refused) ↦ rw refused (refl, same)
  ]
  perform-Agree c d tenant (supersede req) same =
      on_graph-Agree fmt c d tenant (supersede_in fmt req) (check_supersede_request req) same

  perform-others :
      (c : MemClient fmt) (tenant t : Str) (w : Write fmt)
      → t ≢ tenant
      → lookup t (perform fmt c tenant w).0 ≡ lookup t c
  unfolding perform create_node upsert_node create_edge create_requires_edge bulk_create_edges
      supersede_fact
  perform-others c tenant t (create n) ne =
      on_graph-others fmt c tenant (create_in fmt n) (check_node n) t ne
  perform-others c tenant t (upsert n) ne =
      on_graph-others fmt c tenant (upsert_in fmt n) (check_node n) t ne
  perform-others c tenant t (link a b x) ne =
      on_graph-others fmt c tenant (link_in fmt a b x) (check_edge a b x) t ne
  perform-others c tenant t (require r) ne =
      on_graph-others fmt c tenant (require_in fmt r) (check_requires_edge r) t ne
  perform-others c tenant t (bulk []) ne = refl
  perform-others c tenant t (bulk (b ∷ bs)) ne = elim (Option-cases (check_edges fmt 0 (b ∷ bs))) [
    | inl passed ↦ rw passed (on_graph-others fmt c tenant (bulk_into fmt (b ∷ bs)) none t ne)
    | inr (d, refused) ↦ rw refused refl
  ]
  perform-others c tenant t (supersede req) ne =
      on_graph-others fmt c tenant (supersede_in fmt req) (check_supersede_request req) t ne

  -- A writing operation for one tenant depends on no other tenant and changes none: on two maps
  -- that hold the same graph of the tenant, whatever the graphs of the others, it ends with the
  -- same error, or without one, and leaves the same graph of the tenant, while the graph of every
  -- other tenant stays as it is.
  pub perform-isolated :
      (c d : MemClient fmt) (tenant t : Str) (w : Write fmt)
      → lookup tenant c ≡ lookup tenant d
      → t ≢ tenant
      → ((perform fmt c tenant w).1 ≡ (perform fmt d tenant w).1)
        × (lookup tenant (perform fmt c tenant w).0 ≡ lookup tenant (perform fmt d tenant w).0)
        × (lookup t (perform fmt c tenant w).0 ≡ lookup t c)
  perform-isolated c d tenant t w same other =
      let (errors, graphs) = perform-Agree c d tenant w same in
      (errors, graphs, perform-others c tenant t w other)
