-- ===== src/GraphDb/MemDriver/Nodes.antt =====
-- CreateNode and UpsertNode of pkg/graphdb/memdriver/client.go.
pub mod Merge
use crosscodex.Prelude.{
  ℕ, zero, suc, Bool, true, false, List, [], ◌∷◌, ◌++◌, Option, none, some, if◌then◌else◌,
}
use crosscodex.Prelude.Str.{Str, codes, eqs}
use crosscodex.Prelude.Eq.{str_eq}
use crosscodex.Prelude.Maps.{lookup, insert}
use crosscodex.Prelude.Result.{Result, ok, err}
use crosscodex.GraphDb.Types.{Node}
use crosscodex.GraphDb.Checks.{check_node}
use crosscodex.GraphDb.MemDriver.Props.{Formats, Props, Given, Value, null, node_props}
use crosscodex.GraphDb.MemDriver.Graph.{
  MemNode, MemGraph, node_kind, StoreError, node_id_conflict, node_exists, node_by_id,
}
use crosscodex.GraphDb.MemDriver.Client.{MemClient, on_graph, with_label}

module _ (fmt : Formats) where
  abbrev pub append_node : Str → Props fmt → MemGraph fmt → MemGraph fmt
  append_node label props g = record g {
    nodes = g.nodes ++ record { label = label; props = props } ∷ [];
  }

  unfoldable pub put_new :
      Node (Given fmt) → MemGraph fmt → MemGraph fmt × Result StoreError (Unit {0})
  put_new node g = elim (node_by_id fmt g node.id) [
    | none ↦ (append_node node.label (node_props fmt node) g, ok tt)
    | some (i, n) ↦ (
      g,
      err (
          if eqs n.label node.label
          then node_exists node.id
          else node_id_conflict node.id node.label n.label),
    )
  ]

  abbrev pub create_in :
      Node (Given fmt) → MemGraph fmt → MemGraph fmt × Result StoreError (Unit {0})
  create_in node g = with_label fmt node.label node_kind g (put_new node)

  unfoldable pub create_node :
      MemClient fmt → Str → Node (Given fmt) → MemClient fmt × Result StoreError (Unit {0})
  create_node c tenant node =
      on_graph fmt (check_node node) c tenant
        λ g. with_label fmt node.label node_kind g (put_new node)

  -- existing.props = props, at the place of the node.
  unfoldable pub set_props : ℕ → Props fmt → List (MemNode fmt) → List (MemNode fmt)
  set_props i props [] = []
  set_props zero props (n ∷ ns) = record n { props = props } ∷ ns
  set_props (suc i) props (n ∷ ns) = n ∷ set_props i props ns

  -- props[k] = old[k], which is nil where old has no k.
  abbrev pub value_or_null : Option (Value fmt) → Value fmt
  value_or_null none = null
  value_or_null (some v) = v

  -- if v, ok := old[k]; ok { props[k] = v }
  abbrev pub keep_if_set : Str → Option (Value fmt) → Props fmt → Props fmt
  keep_if_set k none props = props
  keep_if_set k (some v) props = insert k v props

  abbrev pub keep_supersession : Option ℕ → Props fmt → Props fmt → Props fmt
  keep_supersession (some t) old props = props
  keep_supersession none old props =
      keep_if_set (codes "superseded_by") (lookup (codes "superseded_by") old)
        (keep_if_set (codes "valid_to") (lookup (codes "valid_to") old) props)

  unfoldable pub merged_props : Node (Given fmt) → Props fmt → Props fmt
  merged_props node old = keep_supersession node.valid_to old (
      insert (codes "valid_from") (value_or_null (lookup (codes "valid_from") old))
        (node_props fmt node))

  unfoldable pub put_or_merge :
      Node (Given fmt) → MemGraph fmt → MemGraph fmt × Result StoreError Bool
  put_or_merge node g = elim (node_by_id fmt g node.id) [
    | none ↦ (append_node node.label (node_props fmt node) g, ok true)
    | some (i, n) ↦
        if eqs n.label node.label
        then (record g { nodes = set_props i (merged_props node n.props) g.nodes }, ok false)
        else (g, err (node_id_conflict node.id node.label n.label))
  ]

  abbrev pub upsert_in : Node (Given fmt) → MemGraph fmt → MemGraph fmt × Result StoreError Bool
  upsert_in node g = with_label fmt node.label node_kind g (put_or_merge node)

  -- The result says whether the node was created.
  unfoldable pub upsert_node :
      MemClient fmt → Str → Node (Given fmt) → MemClient fmt × Result StoreError Bool
  upsert_node c tenant node =
      on_graph fmt (check_node node) c tenant
        λ g. with_label fmt node.label node_kind g (put_or_merge node)
