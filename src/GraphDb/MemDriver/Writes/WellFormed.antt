-- ===== src/GraphDb/MemDriver/Writes/WellFormed.antt =====
-- The invariant of a tenant's graph: pkg/graphdb/memdriver/client.go.
use crosscodex.Prelude.{
  ℕ, zero, suc, ◌+◌, ◌<◌, ◌≡◌, refl, sym, ap, subst, ◌∙◌, Bool, false, ◌||◌, List, [], ◌∷◌, ◌++◌,
  map, Option, none, some, Bool-cases, inl, inr, arith, if◌then◌else◌, length, All, In, here, there,
}
use crosscodex.Prelude.Str.{Str, eqs, eqs_iff, eqs_refl, codes, is_empty}
use crosscodex.Prelude.Eq.{str_eq}
use crosscodex.Prelude.Maps.{lookup, insert, lookup-insert}
use crosscodex.GraphDb.Types.{Node}
use crosscodex.GraphDb.Checks.{check_node, keys_of, reserved_node_keys}
use crosscodex.GraphDb.Checks.Rule.{check_node_iff}
use crosscodex.GraphDb.MemDriver.Nodes.{set_props}
use crosscodex.GraphDb.MemDriver.Props.{
  Formats, Given, Value, text, text_of, put_time, Props, put_text, put_given, node_props,
  normalize_value, string_prop,
}
use crosscodex.GraphDb.MemDriver.Graph.{MemNode, MemEdge, MemGraph, find_node}

module _ (fmt : Formats) where
  abbrev pub id_of : MemNode fmt → Str
  id_of n = string_prop fmt n.props (codes "id")

  abbrev pub ids : List (MemNode fmt) → List Str
  ids = map id_of

  abbrev pub mem : Str → List Str → Bool
  mem x [] = false
  mem x (y ∷ ys) = eqs y x || mem x ys

  -- No text stands twice.
  abbrev pub Distinct : List Str → Type 0
  Distinct [] = Unit {0}
  Distinct (x ∷ xs) = (mem x xs ≡ false) × Distinct xs

  abbrev pub Joins : ℕ → MemEdge fmt → Type 0
  Joins n e = (e.source < n) × (e.target < n)

  -- The IDs of the nodes are distinct, and each edge joins two nodes of the graph.
  pub record WellFormed (g : MemGraph fmt) : Type 0 where
    pub unique : Distinct (ids g.nodes)
    pub joined : All (Joins (length g.nodes)) g.edges

  mem-append : (x y : Str) (xs : List Str) → mem x (xs ++ y ∷ []) ≡ (mem x xs || eqs y x)
  mem-append x y [] = ground arith
  mem-append x y (z ∷ xs) = ground (arith, mem-append x y xs)

  pub Distinct-append :
      (x : Str) (xs : List Str) → Distinct xs → mem x xs ≡ false → Distinct (xs ++ x ∷ [])
  Distinct-append x [] d h = (refl, tt)
  Distinct-append x (y ∷ xs) d h = (
    ground (arith, mem-append y x xs, eqs_iff x y, eqs_iff y x, eqs_refl y),
    Distinct-append x xs d.1 (ground arith),
  )

  pub find_node-none :
      (id : Str) (i : ℕ) (ns : List (MemNode fmt))
      → find_node fmt id i ns ≡ none
      → mem id (ids ns) ≡ false
  unfolding find_node
  find_node-none id i [] h = refl
  find_node-none id i (n ∷ ns) h = elim (Bool-cases (eqs (id_of n) id)) [
    | inl e ↦ cc (rw e at h)
    | inr e ↦ rw e (find_node-none id (suc i) ns (rw e at h))
  ]

  -- What finding a node says of the place at which it stands.
  pub record Found (id : Str) (i j : ℕ) (n : MemNode fmt) (ns : List (MemNode fmt)) : Type 0 where
    pub place : ℕ
    pub placed : j ≡ i + place
    pub inside : place < length ns
    pub named : id_of n ≡ id
    pub kept :
        (props : Props fmt)
        → string_prop fmt props (codes "id") ≡ id
        → ids (set_props fmt place props ns) ≡ ids ns

  pub find_node-some :
      (id : Str) (i : ℕ) (ns : List (MemNode fmt)) {j : ℕ} {n : MemNode fmt}
      → find_node fmt id i ns ≡ some (j, n)
      → Found id i j n ns
  unfolding find_node set_props
  find_node-some id i [] h = cc
  find_node-some id i (m ∷ ns) {j} {n} h = elim (Bool-cases (eqs (id_of m) id)) [
    | inl e ↦
        let at_i : i ≡ j = cc (rw e at h) in
        let same : m ≡ n = cc (rw e at h) in
        let found = (eqs_iff (id_of m) id).0 e in
        record {
          place = 0;
          placed = omega arith;
          inside = omega arith;
          named = subst (λ (x : MemNode fmt). id_of x ≡ id) same found;
          kept = λ props q. ap (λ x. x ∷ ids ns) (q ∙ sym found);
        }
    | inr e ↦
        let f = find_node-some id (suc i) ns (rw e at h) in
        record {
          place = suc f.place;
          placed = omega (arith, f.placed);
          inside = omega (arith, f.inside);
          named = f.named;
          kept = λ props q. ap (λ xs. id_of m ∷ xs) (f.kept props q);
        }
  ]

  pub length-set_props :
      (i : ℕ) (props : Props fmt) (ns : List (MemNode fmt))
      → length (set_props fmt i props ns) ≡ length ns
  unfolding set_props
  length-set_props i props [] = refl
  length-set_props zero props (n ∷ ns) = refl
  length-set_props (suc i) props (n ∷ ns) = ap suc (length-set_props i props ns)

  -- Writing another key keeps the ID.
  pub insert-id :
      (k : Str) (v : Value fmt) (props : Props fmt)
      → eqs k (codes "id") ≡ false
      → string_prop fmt (insert k v props) (codes "id") ≡ string_prop fmt props (codes "id")
  insert-id k v props h = ap (text_of fmt) (
      lookup-insert k (codes "id") v props
      ∙ ap (λ b. if b then some v else lookup (codes "id") props) h)

  pub put_text-id :
      (k s : Str) (props : Props fmt)
      → eqs k (codes "id") ≡ false
      → string_prop fmt (put_text fmt k s props) (codes "id") ≡ string_prop fmt props (codes "id")
  put_text-id k s props h = elim (Bool-cases (is_empty s)) [
    | inl e ↦ rw e refl
    | inr e ↦ rw e (insert-id k (text s) props h)
  ]

  put_given-id :
      (given : List (Str × Given fmt)) (props : Props fmt)
      → ((k : Str) → In k (keys_of given) → eqs k (codes "id") ≡ false)
      → string_prop fmt (put_given fmt given props) (codes "id")
        ≡ string_prop fmt props (codes "id")
  unfolding put_given
  put_given-id [] props h = refl
  put_given-id ((k, v) ∷ given) props h =
      put_given-id given (insert k (normalize_value fmt v) props) (λ j i. h j (there i))
      ∙ insert-id k (normalize_value fmt v) props (h k (here refl))

  free-other : (k : Str) → lookup k reserved_node_keys ≡ none → eqs k (codes "id") ≡ false
  unfolding lookup
  free-other k h = ground (arith, eqs_iff k (codes "id"), eqs_iff (codes "id") k)

  put_time-id :
      (t : Option ℕ) (props : Props fmt)
      → string_prop fmt (put_time fmt (codes "valid_to") t props) (codes "id")
        ≡ string_prop fmt props (codes "id")
  unfolding eqs
  put_time-id none props = refl
  put_time-id (some t) props = insert-id (codes "valid_to") (text (fmt.format_time t)) props refl

  stored_first :
      (id from : Str)
      → string_prop fmt ((codes "id", text id) ∷ (codes "valid_from", text from) ∷ []) (codes "id")
        ≡ id
  unfolding lookup eqs
  stored_first id from = refl

  -- A node that passes its check is stored under its ID.
  pub node_props-id :
      (n : Node (Given fmt))
      → check_node n ≡ none
      → string_prop fmt (node_props fmt n) (codes "id") ≡ n.id
  unfolding node_props eqs
  node_props-id n passed =
      let w = (check_node_iff n).0 passed in
      put_given-id n.properties _ (λ k i. free-other k (w.keys k i).1)
      ∙ put_text-id (codes "creation_method") n.creation_method _ refl
      ∙ put_text-id (codes "created_by") n.created_by _ refl
      ∙ put_time-id n.valid_to _
      ∙ stored_first n.id (fmt.format_time n.valid_from)
