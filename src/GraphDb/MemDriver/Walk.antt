-- ===== src/GraphDb/MemDriver/Walk.antt =====
-- Traverse, walk and neighbor of pkg/graphdb/memdriver/client.go. A path is the list of the places
-- of its nodes and that of the places of its edges; a negative MaxDepth acts as 0.
pub mod Trails
pub mod Complete
use crosscodex.Prelude.{
  ℕ, zero, suc, ◌≡◌, refl, Bool, true, false, not, ◌&&◌, ◌||◌, List, [], ◌∷◌, ◌++◌, map, Option,
  none, some, ltb, leb, ◌==◌, if◌then◌else◌, length,
}
use crosscodex.Prelude.Str.{Str, codes, eqs}
use crosscodex.Prelude.Result.{Result, ok, err}
use crosscodex.GraphDb.Types.{TraversalQuery, GraphPath, valid_at}
use crosscodex.GraphDb.Checks.{CheckError, check_label, then_check}
use crosscodex.GraphDb.MemDriver.Props.{Formats, Value}
use crosscodex.GraphDb.MemDriver.Graph.{
  MemNode, MemEdge, MemGraph, StoreError, node_by_id, decode_node, decode_edge,
}
use crosscodex.GraphDb.MemDriver.Client.{MemClient}
use crosscodex.GraphDb.MemDriver.Query.{node_at, reading}

-- slices.Contains on labels, and on the pointers of a path's edges.
unfoldable pub has_label : List Str → Str → Bool
has_label [] s = false
has_label (t ∷ ts) s = eqs t s || has_label ts s

unfoldable pub uses : List ℕ → ℕ → Bool
uses [] i = false
uses (j ∷ js) i = j == i || uses js i

abbrev pub Trace : Type 0
Trace = List ℕ × List ℕ

module _ (fmt : Formats) where
  abbrev from_source : MemEdge fmt → ℕ → Option ℕ → Option ℕ
  from_source e from next = if e.source == from then some e.target else next

  abbrev from_target : MemEdge fmt → ℕ → Option ℕ
  from_target e from = if e.target == from then some e.source else none

  unfoldable pub neighbor : MemEdge fmt → ℕ → Str → Option ℕ
  neighbor e from direction =
      if eqs direction (codes "inbound")
      then from_target e from
      else if eqs direction (codes "both")
      then from_source e from (from_target e from)
      else from_source e from none

  -- The edges from place `i` on, with their places.
  abbrev pub placed : ℕ → List (MemEdge fmt) → List (ℕ × MemEdge fmt)
  placed i [] = []
  placed i (e ∷ es) = (i, e) ∷ placed (suc i) es

  abbrev no_labels : List Str → Bool
  no_labels [] = true
  no_labels (l ∷ ls) = false

  -- Where the edge at place `i` leads, if the path may go on with it.
  unfoldable pub onward : TraversalQuery → ℕ → List ℕ → ℕ → MemEdge fmt → Option ℕ
  onward q current used i e =
      if not (no_labels q.edge_labels) && not (has_label q.edge_labels e.label)
      then none
      else if uses used i
      then none
      else neighbor e current q.direction

  -- The loop over the edges; `deeper` is the recursive call.
  unfoldable pub extensions :
      TraversalQuery
      → (ℕ → List ℕ → List ℕ → List Trace)
      → ℕ
      → List ℕ
      → List ℕ
      → List (ℕ × MemEdge fmt)
      → List Trace
  extensions q deeper current nodes used [] = []
  extensions q deeper current nodes used ((i, e) ∷ es) =
      let rest = extensions q deeper current nodes used es in
      elim (onward q current used i e) [
        | none ↦ rest
        | some n ↦
            (nodes ++ n ∷ [], used ++ i ∷ [])
            ∷ (deeper n (nodes ++ n ∷ []) (used ++ i ∷ []) ++ rest)
      ]

  abbrev pub deep : TraversalQuery → List ℕ → Bool
  deep q used = ltb 0 q.max_depth && leb q.max_depth (length used)

  -- The recursion is on fuel; walk_from gives one more than there are edges.
  unfoldable pub walk : ℕ → TraversalQuery → List (MemEdge fmt) → ℕ → List ℕ → List ℕ → List Trace
  walk zero q es current nodes used = []
  walk (suc fuel) q es current nodes used =
      let found = extensions q (walk fuel q es) current nodes used (placed 0 es) in
      if deep q used then [] else found

  abbrev edge_at : List (ℕ × MemEdge fmt) → ℕ → List (MemEdge fmt)
  edge_at [] i = []
  edge_at ((j, e) ∷ es) i = if j == i then e ∷ [] else edge_at es i

  abbrev edges_at : List (ℕ × MemEdge fmt) → List ℕ → List (MemEdge fmt)
  edges_at es [] = []
  edges_at es (i ∷ is) = edge_at es i ++ edges_at es is

  abbrev pub decode_path : MemGraph fmt → Trace → GraphPath (Value fmt) fmt.Float
  decode_path g (nodes, used) = record {
    nodes = map (λ i. decode_node fmt (node_at fmt g i)) nodes;
    edges = map (decode_edge fmt) (edges_at (placed 0 g.edges) used);
  }

  unfoldable pub walk_from : TraversalQuery → MemGraph fmt → Option (ℕ × MemNode fmt) → List Trace
  walk_from q g none = []
  walk_from q g (some (start, n)) = walk (suc (length g.edges)) q g.edges start (start ∷ []) []

  abbrev valid_paths :
      Option ℕ → List (GraphPath (Value fmt) fmt.Float) → List (GraphPath (Value fmt) fmt.Float)
  valid_paths none ps = ps
  valid_paths (some t) [] = []
  valid_paths (some t) (p ∷ ps) =
      let rest = valid_paths (some t) ps in if valid_at p t then p ∷ rest else rest

  unfoldable pub check_edge_labels : List Str → Option CheckError
  check_edge_labels [] = none
  check_edge_labels (l ∷ ls) =
      then_check (check_label (codes "edge label") l) (check_edge_labels ls)

  unfoldable pub traverse :
      MemClient fmt
      → Str
      → TraversalQuery
      → Result StoreError (List (GraphPath (Value fmt) fmt.Float))
  traverse c tenant q = reading fmt (check_edge_labels q.edge_labels) c tenant λ g.
      ok (valid_paths q.as_of (map (decode_path g) (walk_from q g (node_by_id fmt g q.start_node))))
