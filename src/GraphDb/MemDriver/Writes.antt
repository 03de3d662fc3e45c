-- ===== src/GraphDb/MemDriver/Writes.antt =====
-- The writing operations as one type, and what they do to the map of graphs:
-- pkg/graphdb/memdriver/client.go.
pub mod Atomic
pub mod WellFormed
pub mod Invariant
pub mod Batches
pub mod History
pub mod Isolation
pub mod Upserts
use crosscodex.Prelude.{
  ℕ, zero, suc, ◌≡◌, ◌≢◌, refl, sym, ap, subst, ◌∙◌, Bool, true, false, List, [], ◌∷◌, ◌++◌, Option,
  none, some, Option-cases, some-injective, Bool-cases, inl, inr, ◌⊎◌, arith, if◌then◌else◌,
}
use crosscodex.Prelude.Str.{Str, eqs, eqs_iff, eqs_refl, codes}
use crosscodex.Prelude.Eq.{str_eq}
use crosscodex.Prelude.Maps.{lookup, insert, lookup-insert}
use crosscodex.Prelude.Result.{Result, ok, err}
use crosscodex.GraphDb.Types.{Node, Edge, BulkEdge, RequiresEdge, SupersedeRequest}
use crosscodex.GraphDb.Checks.{CheckError, TenantError, check_tenant}
use crosscodex.GraphDb.MemDriver.Props.{Formats, Given, Props}
use crosscodex.GraphDb.MemDriver.Graph.{
  MemNode, MemEdge, MemGraph, Kind, StoreError, use_label, bad_tenant,
}
use crosscodex.GraphDb.MemDriver.Client.{
  MemClient, graph, graph_of, stored, on_graph, labelled, with_label, done, create_graph,
  empty_graph,
}
use crosscodex.GraphDb.MemDriver.Nodes.{create_node, upsert_node}
use crosscodex.GraphDb.MemDriver.Edges.{create_edge, create_requires_edge, bulk_create_edges}
use crosscodex.GraphDb.MemDriver.Supersede.{supersede_fact}

-- A call of a writing operation.
pub data Write (fmt : Formats) : Type 0 where
  create upsert : Node (Given fmt) → Write fmt
  link : (source_id target_id : Str) → Edge (Given fmt) fmt.Float → Write fmt
  require : RequiresEdge fmt.Int fmt.Float → Write fmt
  bulk : List (BulkEdge (Given fmt) fmt.Float) → Write fmt
  supersede : SupersedeRequest → Write fmt

module _ (fmt : Formats) where
  abbrev failure : {A : Type 0} → Result StoreError A → Option StoreError
  failure (ok a) = none
  failure (err e) = some e

  abbrev pub outcome :
      {A : Type 0} → MemClient fmt × Result StoreError A → MemClient fmt × Option StoreError
  outcome (c, r) = (c, failure r)

  unfoldable pub perform : MemClient fmt → Str → Write fmt → MemClient fmt × Option StoreError
  perform c tenant (create n) = outcome (create_node fmt c tenant n)
  perform c tenant (upsert n) = outcome (upsert_node fmt c tenant n)
  perform c tenant (link s t e) = outcome (create_edge fmt c tenant s t e)
  perform c tenant (require r) = outcome (create_requires_edge fmt c tenant r)
  perform c tenant (bulk bs) = outcome (bulk_create_edges fmt c tenant bs)
  perform c tenant (supersede req) = outcome (supersede_fact fmt c tenant req)

  -- All that a graph holds but the kinds of its labels.
  abbrev pub facts : Option (MemGraph fmt) → Option (List (MemNode fmt) × List (MemEdge fmt) × ℕ)
  facts none = none
  facts (some g) = some (g.nodes, g.edges, g.last_seq)

  graph-eq-ok :
      (c : MemClient fmt) (tenant : Str) {g : MemGraph fmt}
      → graph fmt c tenant ≡ ok g
      → lookup tenant c ≡ some g
  unfolding graph
  graph-eq-ok c tenant h = of (check_tenant tenant) (lookup tenant c) h
    where
      of :
          (e : Option TenantError) (o : Option (MemGraph fmt)) {g : MemGraph fmt}
          → graph_of fmt e o ≡ ok g
          → o ≡ some g
      of (some e) o h = cc
      of none none h = cc
      of none (some g) h = cc

  Result-cases :
      {A : Type 0} (r : Result StoreError A)
      → ((a : A) × (r ≡ ok a)) ⊎ ((e : StoreError) × (r ≡ err e))
  Result-cases (ok a) = inl (a, refl)
  Result-cases (err e) = inr (e, refl)

  -- Two outcomes that agree for a tenant: one error, or none, and one graph of the tenant.
  abbrev pub Agree :
      Str → MemClient fmt × Option StoreError → MemClient fmt × Option StoreError → Type 0
  Agree tenant a b = (a.1 ≡ b.1) × (lookup tenant a.0 ≡ lookup tenant b.0)

  graph-reads :
      (c d : MemClient fmt) (tenant : Str)
      → lookup tenant c ≡ lookup tenant d
      → graph fmt c tenant ≡ graph fmt d tenant
  unfolding graph
  graph-reads c d tenant same = ap (graph_of fmt (check_tenant tenant)) same

  stored-Agree :
      {A : Type 0} (c d : MemClient fmt) (tenant : Str)
      (f : MemGraph fmt → MemGraph fmt × Result StoreError A) (r : Result StoreError (MemGraph fmt))
      → lookup tenant c ≡ lookup tenant d
      → Agree tenant (outcome (stored fmt c tenant f r)) (outcome (stored fmt d tenant f r))
  stored-Agree c d tenant f (err e) same = (refl, same)
  stored-Agree c d tenant f (ok g) same = (
    refl,
    lookup-insert tenant tenant (f g).0 c
        ∙ rw (eqs_refl tenant) refl
        ∙ sym (lookup-insert tenant tenant (f g).0 d),
  )

  -- An operation on a tenant's graph reads no other graph of the map.
  pub on_graph-Agree :
      {A : Type 0} (c d : MemClient fmt) (tenant : Str)
      (f : MemGraph fmt → MemGraph fmt × Result StoreError A) (chk : Option CheckError)
      → lookup tenant c ≡ lookup tenant d
      → Agree tenant (outcome (on_graph fmt chk c tenant f)) (outcome (on_graph fmt chk d tenant f))
  on_graph-Agree c d tenant f (some e) same = (refl, same)
  on_graph-Agree c d tenant f none same =
      subst
        (λ r.
          Agree tenant (outcome (stored fmt c tenant f (graph fmt c tenant)))
            (outcome (stored fmt d tenant f r)))
        (graph-reads c d tenant same) (stored-Agree c d tenant f (graph fmt c tenant) same)

  module _ {A : Type 0} (c : MemClient fmt) (tenant : Str)
      (f : MemGraph fmt → MemGraph fmt × Result StoreError A) where
    -- An operation leaves the map as it is, or stores what it makes of the tenant's graph.
    pub on_graph-cases :
        (chk : Option CheckError)
        → ((e : StoreError) × (on_graph fmt chk c tenant f ≡ (c, err e)))
          ⊎ ((g : MemGraph fmt) × (chk ≡ none)
              × (lookup tenant c ≡ some g)
              × (on_graph fmt chk c tenant f ≡ (insert tenant (f g).0 c, (f g).1)))
    on_graph-cases (some e) = inl (_, refl)
    on_graph-cases none = elim (Result-cases (graph fmt c tenant)) [
      | inl (g, h) ↦ inr (g, refl, graph-eq-ok c tenant h, ap (stored fmt c tenant f) h)
      | inr (e, h) ↦ inl (e, ap (stored fmt c tenant f) h)
    ]

    pub on_graph-others :
        (chk : Option CheckError) (t : Str)
        → t ≢ tenant
        → lookup t (on_graph fmt chk c tenant f).0 ≡ lookup t c
    on_graph-others chk t ne = elim (on_graph-cases chk) [
      | inl (e, h) ↦ ap (λ r. lookup t r.0) h
      | inr (g, _, _, h) ↦
          ap (λ r. lookup t r.0) h
          ∙ ground (arith, lookup-insert tenant t (f g).0 c, eqs_iff tenant t)
    ]

    pub on_graph-atomic :
        (chk : Option CheckError)
        → ((g : MemGraph fmt) (e : StoreError)
            → (f g).1 ≡ err e
            → facts (some (f g).0) ≡ facts (some g))
        → {e : StoreError} → (on_graph fmt chk c tenant f).1 ≡ err e
        → (t : Str) → facts (lookup t (on_graph fmt chk c tenant f).0) ≡ facts (lookup t c)
    on_graph-atomic chk atomic failed t = elim (on_graph-cases chk) [
      | inl (e, h) ↦ ap (λ r. facts (lookup t r.0)) h
      | inr (g, _, found, h) ↦
          let kept = atomic g _ (sym (ap (λ r. r.1) h) ∙ failed) in
          ap (λ r. facts (lookup t r.0)) h
          ∙ ap facts (lookup-insert tenant t (f g).0 c)
          ∙ elim (Bool-cases (eqs tenant t)) [
            | inl same ↦ rw same (
                kept
                ∙ ap facts
                    (sym (subst (λ x. lookup x c ≡ some g) ((eqs_iff tenant t).0 same) found)))
            | inr other ↦ rw other refl
          ]
    ]

    pub on_graph-holds :
        (P : MemGraph fmt → Type 0) (chk : Option CheckError)
        → (chk ≡ none → (g : MemGraph fmt) → P g → P (f g).0)
        → ((t : Str) (g : MemGraph fmt) → lookup t c ≡ some g → P g)
        → (t : Str) (g : MemGraph fmt) → lookup t (on_graph fmt chk c tenant f).0 ≡ some g
        → P g
    on_graph-holds P chk keeps all t g' out = elim (on_graph-cases chk) [
      | inl (e, h) ↦ all t g' (sym (ap (λ r. lookup t r.0) h) ∙ out)
      | inr (g, passed, found, h) ↦
          let read =
            sym (lookup-insert tenant t (f g).0 c) ∙ sym (ap (λ r. lookup t r.0) h) ∙ out in
          elim (Bool-cases (eqs tenant t)) [
            | inl same ↦
                let e : (f g).0 ≡ g' = cc (rw same at read) in
                subst P e (keeps passed g (all tenant g found))
            | inr other ↦ all t g' (rw other at read)
          ]
    ]
