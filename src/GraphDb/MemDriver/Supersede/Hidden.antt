-- ===== src/GraphDb/MemDriver/Supersede/Hidden.antt =====
-- Superseded edges and the queries for what is in force: pkg/graphdb/memdriver/client.go.
use crosscodex.Prelude.{
  ◌≡◌, sym, subst, ◌∙◌, false, List, [], ◌∷◌, none, some, arith, Bool-cases, inl, inr, In, here,
  there,
}
use crosscodex.Prelude.Str.{codes, eqs, eqs_iff, is_empty}
use crosscodex.Prelude.Eq.{str_eq}
use crosscodex.Prelude.Maps.{lookup, lookup-insert}
use crosscodex.GraphDb.Types.{RelationshipQuery, SupersedeRequest}
use crosscodex.GraphDb.MemDriver.Props.{Formats, Given, Value, Props, text, string_prop}
use crosscodex.GraphDb.MemDriver.Graph.{MemEdge, MemGraph}
use crosscodex.GraphDb.MemDriver.Query.{selects}
use crosscodex.GraphDb.MemDriver.Supersede.{superseded, supersede_edges}

module _ (fmt : Formats) (req : SupersedeRequest) where
  ends :
      (props : Props fmt)
      → lookup (codes "valid_to") (superseded fmt req props)
        ≡ some (text (fmt.format_time req.superseded_at))
  unfolding superseded eqs
  ends props = elim (Bool-cases (is_empty req.superseded_by_job_id)) [
    | inl e ↦ rw e (lookup-insert (codes "valid_to") (codes "valid_to") _ props)
    | inr e ↦ rw e (
        lookup-insert (codes "superseded_by") (codes "valid_to") _ _
        ∙ lookup-insert (codes "valid_to") (codes "valid_to") _ props)
  ]

  ended-selects :
      (q : RelationshipQuery (Given fmt)) (g : MemGraph fmt) (e : MemEdge fmt) {v : Value fmt}
      → lookup (codes "valid_to") e.props ≡ some v
      → selects fmt q none g e ≡ false
  unfolding selects
  ended-selects q g e h = rw h (ground arith)

  -- Once an edge ID has been superseded, a query for the relationships now in force selects no edge
  -- that still has this ID.
  pub supersede_edges-selects :
      (q : RelationshipQuery (Given fmt)) (g : MemGraph fmt) (es : List (MemEdge fmt))
      (e : MemEdge fmt)
      → In e (supersede_edges fmt req es).0
      → string_prop fmt e.props (codes "id") ≡ req.edge_id
      → selects fmt q none g e ≡ false
  unfolding supersede_edges
  supersede_edges-selects q g [] e h named = elim h [ ]
  supersede_edges-selects q g (x ∷ es) e h named =
      elim (Bool-cases (eqs (string_prop fmt x.props (codes "id")) req.edge_id)) [
        | inl m ↦ elim (rw (m, supersede_edges) at h) [
          | here same ↦
              subst (λ y. selects fmt q none g y ≡ false) same
                (ended-selects q g (record x { props = superseded fmt req x.props }) (ends x.props))
          | there i ↦ supersede_edges-selects q g es e i named
        ]
        | inr m ↦ elim (rw (m, supersede_edges) at h) [
          | here same ↦
              let found =
                subst (λ (y : MemEdge fmt). string_prop fmt y.props (codes "id") ≡ req.edge_id)
                  (sym same) named in
              ground (arith, eqs_iff (string_prop fmt x.props (codes "id")) req.edge_id)
          | there i ↦ supersede_edges-selects q g es e i named
        ]
      ]
