-- ===== src/GraphDb/MemDriver/Writes/Invariant.antt =====
-- Every writing operation on a graph, and on the map of graphs: pkg/graphdb/memdriver/client.go.
use crosscodex.Prelude.{
  ℕ, ◌≡◌, refl, sym, subst, ◌∙◌, false, [], ◌∷◌, ◌++◌, map-append, Option, none, some, Option-cases,
  Bool-cases, inl, inr, arith, length, length-append, All, All-append, All-mono,
}
use crosscodex.Prelude.Str.{Str, eqs, codes}
use crosscodex.Prelude.Eq.{str_eq}
use crosscodex.Prelude.Maps.{lookup}
use crosscodex.Prelude.Result.{Result}
use crosscodex.GraphDb.Types.{Node}
use crosscodex.GraphDb.Checks.{check_node}
use crosscodex.GraphDb.MemDriver.Props.{Formats, Given, Value, Props, node_props, string_prop}
use crosscodex.GraphDb.MemDriver.Graph.{
  MemNode, MemGraph, Kind, StoreError, use_label, add_edge, find_node, id_free,
}
use crosscodex.GraphDb.MemDriver.Client.{labelled, with_label}
use crosscodex.GraphDb.MemDriver.Nodes.{
  put_new, put_or_merge, append_node, set_props, merged_props, keep_supersession, keep_if_set,
}
use crosscodex.GraphDb.MemDriver.Writes.WellFormed.{
  id_of, ids, mem, Distinct, Joins, WellFormed, Distinct-append, find_node-none, find_node-some,
  length-set_props, insert-id, node_props-id,
}

module _ (fmt : Formats) where
  -- An operation of a graph that keeps it well-formed.
  abbrev pub Keeps : {A : Type 0} → (MemGraph fmt → MemGraph fmt × A) → Type 0
  Keeps f = (g : MemGraph fmt) → WellFormed fmt g → WellFormed fmt (f g).0

  pub use_label-Keeps : (label : Str) (kind : Kind) → Keeps (use_label fmt label kind)
  unfolding use_label
  use_label-Keeps label kind g w = elim (Option-cases (lookup label g.label_kinds)) [
    | inl e ↦ rw (e, use_label) (record { unique = w.unique; joined = w.joined })
    | inr (k, e) ↦ rw (e, use_label) w
  ]

  pub with_label-Keeps :
      {A : Type 0} (label : Str) (kind : Kind)
      (k : MemGraph fmt → MemGraph fmt × Result StoreError A)
      → Keeps k
      → Keeps (λ g. with_label fmt label kind g k)
  with_label-Keeps label kind k keeps g w =
      of (use_label fmt label kind g) (use_label-Keeps label kind g w)
    where
      of :
          (r : MemGraph fmt × Option StoreError)
          → WellFormed fmt r.0
          → WellFormed fmt (labelled fmt k r).0
      of (g', some e) v = v
      of (g', none) v = keeps g' v

  append_node-keeps :
      (label id : Str) (props : Props fmt) (g : MemGraph fmt)
      → find_node fmt id 0 g.nodes ≡ none
      → string_prop fmt props (codes "id") ≡ id
      → WellFormed fmt g
      → WellFormed fmt (append_node fmt label props g)
  append_node-keeps label id props g new_id named w =
      let n : MemNode fmt = record { label = label; props = props } in
      record {
        unique = subst (Distinct fmt) (sym (map-append (id_of fmt) g.nodes (n ∷ []))) (
            Distinct-append fmt (id_of fmt n) (ids fmt g.nodes) w.unique (
              subst (λ x. mem fmt x (ids fmt g.nodes) ≡ false) (sym named)
                (find_node-none fmt id 0 g.nodes new_id)));
        joined =
            All-mono (Joins fmt (length g.nodes)) (Joins fmt (length (g.nodes ++ n ∷ []))) g.edges
              (λ e h. (
                omega (arith, h.0, length-append g.nodes (n ∷ [])),
                omega (arith, h.1, length-append g.nodes (n ∷ [])),
              ))
              w.joined;
      }

  pub set_props-keeps :
      (id : Str) (j : ℕ) (n : MemNode fmt) (props : Props fmt) (g : MemGraph fmt)
      → find_node fmt id 0 g.nodes ≡ some (j, n)
      → string_prop fmt props (codes "id") ≡ id
      → WellFormed fmt g
      → WellFormed fmt (record g { nodes = set_props fmt j props g.nodes })
  set_props-keeps id j n props g found named w =
      let f = find_node-some fmt id 0 g.nodes found in
      let at_j : f.place ≡ j = omega (arith, f.placed) in
      record {
        unique =
            subst (λ i. Distinct fmt (ids fmt (set_props fmt i props g.nodes))) at_j
              (subst (Distinct fmt) (sym (f.kept props named)) w.unique);
        joined =
            subst (λ k. All (Joins fmt k) g.edges) (sym (length-set_props fmt j props g.nodes))
              w.joined;
      }

  pub put_new-Keeps : (n : Node (Given fmt)) → check_node n ≡ none → Keeps (put_new fmt n)
  unfolding put_new
  put_new-Keeps n passed g w = elim (Option-cases (find_node fmt n.id 0 g.nodes)) [
    | inl f ↦
        rw (f, put_new)
          (append_node-keeps n.label n.id (node_props fmt n) g f (node_props-id fmt n passed) w)
    | inr (i, f) ↦ rw (f, put_new) w
  ]

  keep_if_set-id :
      (k : Str) (o : Option (Value fmt)) (props : Props fmt)
      → eqs k (codes "id") ≡ false
      → string_prop fmt (keep_if_set fmt k o props) (codes "id")
        ≡ string_prop fmt props (codes "id")
  keep_if_set-id k none props h = refl
  keep_if_set-id k (some v) props h = insert-id fmt k v props h

  keep_supersession-id :
      (t : Option ℕ) (old props : Props fmt)
      → string_prop fmt (keep_supersession fmt t old props) (codes "id")
        ≡ string_prop fmt props (codes "id")
  unfolding eqs
  keep_supersession-id (some t) old props = refl
  keep_supersession-id none old props =
      keep_if_set-id (codes "superseded_by") (lookup (codes "superseded_by") old) _ refl
      ∙ keep_if_set-id (codes "valid_to") (lookup (codes "valid_to") old) props refl

  pub merged_props-id :
      (n : Node (Given fmt)) (old : Props fmt)
      → check_node n ≡ none
      → string_prop fmt (merged_props fmt n old) (codes "id") ≡ n.id
  unfolding merged_props eqs
  merged_props-id n old passed =
      keep_supersession-id n.valid_to old _
      ∙ insert-id fmt (codes "valid_from") _ (node_props fmt n) refl
      ∙ node_props-id fmt n passed

  pub put_or_merge-Keeps : (n : Node (Given fmt)) → check_node n ≡ none → Keeps (put_or_merge fmt n)
  unfolding put_or_merge
  put_or_merge-Keeps n passed g w = elim (Option-cases (find_node fmt n.id 0 g.nodes)) [
    | inl f ↦
        rw (f, put_or_merge)
          (append_node-keeps n.label n.id (node_props fmt n) g f (node_props-id fmt n passed) w)
    | inr (i, f) ↦ elim (Bool-cases (eqs i.1.label n.label)) [
      | inl q ↦
          rw (f, put_or_merge, q)
            (set_props-keeps n.id i.0 i.1 (merged_props fmt n i.1.props) g f
              (merged_props-id n i.1.props passed) w)
      | inr q ↦ rw (f, put_or_merge, q) w
    ]
  ]

  pub add_edge-Keeps : (s t label : Str) (props : Props fmt) → Keeps (add_edge fmt s t label props)
  unfolding add_edge
  add_edge-Keeps s t label props g w = elim (Option-cases (find_node fmt s 0 g.nodes)) [
    | inl f ↦ rw (f, add_edge) w
    | inr (i, f) ↦ elim (Option-cases (find_node fmt t 0 g.nodes)) [
      | inl f' ↦ rw (f, f', add_edge) w
      | inr (j, f') ↦
          let a = find_node-some fmt s 0 g.nodes f in
          let b = find_node-some fmt t 0 g.nodes f' in
          elim (Bool-cases (id_free fmt (string_prop fmt props (codes "id")) g.edges)) [
            | inl q ↦
                rw (f, f', q, add_edge)
                  (record {
                    unique = w.unique;
                    joined = All-append (Joins fmt (length g.nodes)) g.edges _ w.joined (
                      (omega (arith, a.placed, a.inside), omega (arith, b.placed, b.inside)),
                      tt,
                    );
                  })
            | inr q ↦ rw (f, f', q, add_edge) w
          ]
    ]
  ]
