-- ===== src/GraphDb/MemDriver/Client.antt =====
-- The map of graphs, and what the writing operations share: the methods of memClient in
-- pkg/graphdb/memdriver/client.go. Each runs under the client's one lock, so it is one step on the
-- map.
use crosscodex.Prelude.{List, [], Option, none, some}
use crosscodex.Prelude.Str.{Str}
use crosscodex.Prelude.Eq.{str_eq}
use crosscodex.Prelude.Maps.{lookup, insert}
use crosscodex.Prelude.Result.{Result, ok, err}
use crosscodex.GraphDb.Checks.{CheckError, TenantError, check_tenant}
use crosscodex.GraphDb.MemDriver.Props.{Formats}
use crosscodex.GraphDb.MemDriver.Graph.{
  MemGraph, Kind, StoreError, refused, bad_tenant, graph_not_found, use_label,
}

abbrev pub MemClient : Formats → Type 0
MemClient fmt = List (Str × MemGraph fmt)

module _ (fmt : Formats) where
  abbrev pub new : MemClient fmt
  new = []

  abbrev pub graph_of :
      Option TenantError → Option (MemGraph fmt) → Result StoreError (MemGraph fmt)
  graph_of (some e) g = err (bad_tenant e)
  graph_of none none = err graph_not_found
  graph_of none (some g) = ok g

  unfoldable pub graph : MemClient fmt → Str → Result StoreError (MemGraph fmt)
  graph c tenant = graph_of (check_tenant tenant) (lookup tenant c)

  abbrev pub empty_graph : MemGraph fmt
  empty_graph = record { nodes = []; edges = []; last_seq = 0; label_kinds = [] }

  unfoldable pub create_graph : MemClient fmt → Str → MemClient fmt × Option StoreError
  create_graph c tenant = elim (check_tenant tenant) [
    | some e ↦ (c, some (bad_tenant e))
    | none ↦ elim (lookup tenant c) [
      | none ↦ (insert tenant empty_graph c, none)
      | some g ↦ (c, none)
    ]
  ]

  abbrev pub stored :
      {A : Type 0}
      → MemClient fmt
      → Str
      → (MemGraph fmt → MemGraph fmt × Result StoreError A)
      → Result StoreError (MemGraph fmt)
      → MemClient fmt × Result StoreError A
  stored c tenant f (err e) = (c, err e)
  stored c tenant f (ok g) = (insert tenant (f g).0 c, (f g).1)

  -- What an operation does with a graph, once a check has passed and the graph is found.
  abbrev pub on_graph :
      {A : Type 0}
      → Option CheckError
      → MemClient fmt
      → Str
      → (MemGraph fmt → MemGraph fmt × Result StoreError A)
      → MemClient fmt × Result StoreError A
  on_graph (some e) c tenant f = (c, err (refused e))
  on_graph none c tenant f = stored c tenant f (graph c tenant)

  abbrev pub labelled :
      {A : Type 0}
      → (MemGraph fmt → MemGraph fmt × Result StoreError A)
      → MemGraph fmt × Option StoreError
      → MemGraph fmt × Result StoreError A
  labelled k (g, some e) = (g, err e)
  labelled k (g, none) = k g

  -- The operation's own checks behind useLabel.
  abbrev pub with_label :
      {A : Type 0}
      → Str
      → Kind
      → MemGraph fmt
      → (MemGraph fmt → MemGraph fmt × Result StoreError A)
      → MemGraph fmt × Result StoreError A
  with_label label kind g k = labelled k (use_label fmt label kind g)

  abbrev pub done : MemGraph fmt × Option StoreError → MemGraph fmt × Result StoreError (Unit {0})
  done (g, none) = (g, ok tt)
  done (g, some e) = (g, err e)
