-- ===== src/GraphDb/MemDriver/Writes/Upserts.antt =====
-- What UpsertNode of pkg/graphdb/memdriver/client.go leaves of a node that is stored already.
use crosscodex.Prelude.{
  ℕ, suc, ◌+◌, ◌≡◌, refl, ap, subst, ◌∙◌, false, List, [], ◌∷◌, Option, none, some, Bool-cases, inl,
  inr, arith,
}
use crosscodex.Prelude.Str.{Str, codes, eqs, eqs_iff, eqs_refl}
use crosscodex.Prelude.Eq.{str_eq}
use crosscodex.Prelude.Maps.{lookup, insert, lookup-insert}
use crosscodex.Prelude.Result.{Result, ok}
use crosscodex.GraphDb.Types.{Node}
use crosscodex.GraphDb.Checks.{CheckError, check_node, check_tenant}
use crosscodex.GraphDb.MemDriver.Props.{Formats, Given, Value, Props, string_prop}
use crosscodex.GraphDb.MemDriver.Graph.{
  MemNode, MemGraph, node_kind, StoreError, use_label, find_node,
}
use crosscodex.GraphDb.MemDriver.Client.{MemClient, graph, on_graph, labelled}
use crosscodex.GraphDb.MemDriver.Nodes.{
  value_or_null, set_props, merged_props, put_or_merge, upsert_in, upsert_node,
}
use crosscodex.GraphDb.MemDriver.Nodes.Merge.{merged_props_history}
use crosscodex.GraphDb.MemDriver.Writes.Invariant.{merged_props-id}

module _ (fmt : Formats) where
  -- A node that is found is found at its place with its new properties, if they keep the ID.
  find_node-set_props :
      (id : Str) (i : ℕ) (props : Props fmt) (ns : List (MemNode fmt)) {j : ℕ} {n : MemNode fmt}
      → find_node fmt id i ns ≡ some (j, n)
      → string_prop fmt props (codes "id") ≡ id
      → (place : ℕ) × (j ≡ i + place)
        × (find_node fmt id i (set_props fmt place props ns) ≡ some (j, record n { props = props }))
  unfolding find_node set_props
  find_node-set_props id i props [] h same = cc
  find_node-set_props id i props (m ∷ ns) {j} {n} h same =
      elim (Bool-cases (eqs (string_prop fmt m.props (codes "id")) id)) [
        | inl e ↦
            let at_i : i ≡ j = cc (rw e at h) in
            let here : m ≡ n = cc (rw e at h) in
            (
              0,
              omega (arith, at_i),
              rw ((eqs_iff (string_prop fmt props (codes "id")) id).1 same)
                  (cc (at_i, ap (λ (x : MemNode fmt). record x { props = props }) here)),
            )
        | inr e ↦
            let (place, placed, found) = find_node-set_props id (suc i) props ns (rw e at h) same in
            (suc place, omega (arith, placed), rw e found)
      ]

  on_graph-ok :
      {A : Type 0} (c : MemClient fmt) (tenant : Str) (g : MemGraph fmt)
      (f : MemGraph fmt → MemGraph fmt × Result StoreError A) (chk : Option CheckError)
      → chk ≡ none
      → check_tenant tenant ≡ none
      → lookup tenant c ≡ some g
      → on_graph fmt chk c tenant f ≡ (insert tenant (f g).0 c, (f g).1)
  unfolding graph
  on_graph-ok c tenant g f chk passed valid found = rw (passed, valid, found) refl

  use_label-known :
      (label : Str) (g : MemGraph fmt)
      → lookup label g.label_kinds ≡ some node_kind
      → use_label fmt label node_kind g ≡ (g, none)
  unfolding use_label
  use_label-known label g h = rw (h, use_label) refl

  put_or_merge-known :
      (n : Node (Given fmt)) (g : MemGraph fmt) (i : ℕ) (old : MemNode fmt)
      → find_node fmt n.id 0 g.nodes ≡ some (i, old)
      → old.label ≡ n.label
      → put_or_merge fmt n g
        ≡ (record g { nodes = set_props fmt i (merged_props fmt n old.props) g.nodes }, ok false)
  unfolding put_or_merge
  put_or_merge-known n g i old found label =
      rw (found, put_or_merge, (eqs_iff old.label n.label).1 label) refl

  module _ (c : MemClient fmt) (tenant : Str) (g : MemGraph fmt) (n : Node (Given fmt)) (i : ℕ)
      (old : MemNode fmt) (passed : check_node n ≡ none) (valid : check_tenant tenant ≡ none)
      (held : lookup tenant c ≡ some g) (known : lookup n.label g.label_kinds ≡ some node_kind)
      (found : find_node fmt n.id 0 g.nodes ≡ some (i, old)) (label : old.label ≡ n.label) where
    upsert_node-known : upsert_node fmt c tenant n ≡ (
      insert tenant (record g { nodes = set_props fmt i (merged_props fmt n old.props) g.nodes }) c,
      ok false,
    )
    unfolding upsert_node
    upsert_node-known =
        let in_graph : upsert_in fmt n g ≡ (
          record g { nodes = set_props fmt i (merged_props fmt n old.props) g.nodes },
          ok false,
        ) =
          ap (labelled fmt (put_or_merge fmt n)) (use_label-known n.label g known)
          ∙ put_or_merge-known n g i old found label in
        on_graph-ok c tenant g (upsert_in fmt n) (check_node n) passed valid held
        ∙ ap (λ r. (insert tenant r.0 c, r.1)) in_graph

    -- Let a node without a valid_to pass its check, for a valid tenant ID that has a graph, and let
    -- this graph store a node of the same ID and label, a label of nodes, that has a valid_to and a
    -- valid_from. Then UpsertNode succeeds without creating a node, and the node that is found by
    -- the ID afterwards still has the stored valid_to and valid_from: the upsert neither brings a
    -- superseded node back into force nor changes since when it was.
    pub upsert_node-keeps_history :
        (end start : Value fmt)
        → n.valid_to ≡ none
        → lookup (codes "valid_to") old.props ≡ some end
        → lookup (codes "valid_from") old.props ≡ some start
        → ((upsert_node fmt c tenant n).1 ≡ ok false)
          × (g' : MemGraph fmt) × (new : MemNode fmt) × (lookup tenant
                (upsert_node fmt c tenant n).0
              ≡ some g')
          × (find_node fmt n.id 0 g'.nodes ≡ some (i, new))
          × (lookup (codes "valid_to") new.props ≡ some end)
          × (lookup (codes "valid_from") new.props ≡ some start)
    upsert_node-keeps_history end start unset ended started =
        let props = merged_props fmt n old.props in
        let done = upsert_node-known in
        let (place, placed, again) =
          find_node-set_props n.id 0 props g.nodes found (merged_props-id fmt n old.props passed) in
        let at : place ≡ i = omega (arith, placed) in
        let (to, from) = merged_props_history fmt n old.props end unset ended in
        (
          ap (λ r. r.1) done,
          record g { nodes = set_props fmt i props g.nodes },
          record old { props = props },
          ap (λ r. lookup tenant r.0) done
              ∙ lookup-insert tenant tenant _ c
              ∙ rw (eqs_refl tenant) refl,
          subst
              (λ (k : ℕ).
                find_node fmt n.id 0 (set_props fmt k props g.nodes)
                ≡ some (i, record old { props = props }))
              at again,
          to,
          from ∙ ap (λ o. some (value_or_null fmt o)) started,
        )
