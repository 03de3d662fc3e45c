-- ===== src/Examples/GraphCases.antt =====
-- The graph database's checks and the in-memory driver's writes at concrete inputs: pkg/graphdb.
use crosscodex.Prelude.{ℕ, ◌≡◌, ◌≢◌, refl, Bool, false, ◌↔◌, List, [], ◌∷◌, none, some, ◌==◌}
use crosscodex.Prelude.Str.{codes, eqs, eqs_ne_rev}
use crosscodex.Prelude.Eq.{str_eq}
use crosscodex.Prelude.Maps.{lookup, insert}
use crosscodex.Prelude.Regexp.{match_string, reps, is_lower, is_upper, is_digit}
use crosscodex.Prelude.Sort.{sort}
use crosscodex.Tenant.{validate_tenant_id, middle_class, end_class}
use crosscodex.GraphDb.Types.{Node}
use crosscodex.GraphDb.MemDriver.Props.{Formats, Given, text, node_props, put_given}
use crosscodex.GraphDb.MemDriver.Graph.{
  MemNode, MemGraph, node_kind, node_exists, use_label, find_node,
}
use crosscodex.GraphDb.MemDriver.Client.{MemClient, new, create_graph, graph}
use crosscodex.GraphDb.MemDriver.Nodes.{create_node, put_new, upsert_node}
use crosscodex.GraphDb.MemDriver.Writes.{create, perform, facts}
use crosscodex.GraphDb.MemDriver.Writes.Atomic.{perform-atomic}
use crosscodex.GraphDb.MemDriver.Writes.History.{
  Action, opens, writes, act_all, AllWellFormed, act_all-WellFormed,
}
use crosscodex.GraphDb.MemDriver.Writes.Isolation.{perform-isolated}
use crosscodex.GraphDb.MemDriver.Writes.Upserts.{upsert_node-keeps_history}
use crosscodex.Prelude.Result.{ok}
use crosscodex.GraphDb.DerivedId.{derived_id-injective}
use crosscodex.GraphDb.Checks.{
  check_label, check_node, check_tenant, check_identifier, check_node_properties,
  check_written_properties, check_property_keys, check_keys, find_reserved, start_class, word_class,
}
use crosscodex.GraphDb.Checks.Rule.{IsWritable, check_node_iff}

derived_id-injective_example :
    codes "requires" ∷ codes "a_b" ∷ [] ≡ codes "requires" ∷ codes "a_b" ∷ []
derived_id-injective_example =
    derived_id-injective (codes "requires") (codes "a_b" ∷ []) (codes "requires") (codes "a_b" ∷ [])
      refl

abbrev control : Node Bool
control = record {
  id = codes "n1";
  label = codes "Control";
  properties = [];
  valid_from = 3;
  valid_to = none;
  created_by = [];
  creation_method = [];
}

check_node_iff_example : (check_node control ≡ none) ↔ IsWritable control
check_node_iff_example = check_node_iff control

-- Numbers and times that are natural numbers, in place of Go's formats.
abbrev plain : Formats
plain = record {
  Float = ℕ;
  Float32 = ℕ;
  Int = ℕ;
  zero_float = 0;
  same_float = λ x y. x == y;
  of_int = λ x. x;
  reread = λ x. x;
  format_time = λ t. t ∷ [];
  parse_time = λ s. none;
  format_seq = λ n. n ∷ [];
}

abbrev policy : Node (Given plain)
policy = record {
  id = codes "n1";
  label = codes "Policy";
  properties = [];
  valid_from = 3;
  valid_to = none;
  created_by = [];
  creation_method = [];
}

abbrev session : List (Action plain)
session = opens (codes "acme") ∷ writes (codes "acme") (create policy) ∷ []

abbrev client : MemClient plain
client = act_all plain session (new plain)

act_all-WellFormed_example : AllWellFormed plain (act_all plain session (new plain))
act_all-WellFormed_example = act_all-WellFormed plain session

again : (perform plain client (codes "acme") (create policy)).1 ≡ some (node_exists (codes "n1"))
unfolding perform create_node create_graph graph put_new use_label find_node node_props put_given
    lookup insert eqs check_tenant check_node check_label check_identifier check_node_properties
    check_written_properties check_property_keys check_keys find_reserved sort match_string reps
    is_lower is_upper is_digit validate_tenant_id middle_class end_class start_class word_class
again = refl

perform-atomic_example :
    facts plain (lookup (codes "acme") (perform plain client (codes "acme") (create policy)).0)
    ≡ facts plain (lookup (codes "acme") client)
perform-atomic_example =
    perform-atomic plain client (codes "acme") (create policy) (node_exists (codes "n1")) again
      (codes "acme")

differ : codes "zeta" ≢ codes "acme"
unfolding eqs
differ = eqs_ne_rev (codes "zeta") (codes "acme") refl

-- The same graph of the tenant beside one of another tenant.
abbrev beside : MemClient plain
beside = act_all plain (opens (codes "zeta") ∷ []) client

same_graph : lookup (codes "acme") client ≡ lookup (codes "acme") beside
unfolding perform create_node create_graph graph put_new use_label find_node node_props put_given
    lookup insert eqs check_tenant check_node check_label check_identifier check_node_properties
    check_written_properties check_property_keys check_keys find_reserved sort match_string reps
    is_lower is_upper is_digit validate_tenant_id middle_class end_class start_class word_class
same_graph = refl

perform-isolated_example :
    ((perform plain client (codes "acme") (create policy)).1
      ≡ (perform plain beside (codes "acme") (create policy)).1)
    × (lookup (codes "acme") (perform plain client (codes "acme") (create policy)).0
        ≡ lookup (codes "acme") (perform plain beside (codes "acme") (create policy)).0)
    × (lookup (codes "zeta") (perform plain client (codes "acme") (create policy)).0
        ≡ lookup (codes "zeta") client)
perform-isolated_example =
    perform-isolated plain client beside (codes "acme") (codes "zeta") (create policy) same_graph
      differ

abbrev superseded_policy : MemNode plain
superseded_policy = record {
  label = codes "Policy";
  props =
      (codes "id", text (codes "n1"))
      ∷ (codes "valid_from", text (2 ∷ []))
      ∷ (codes "valid_to", text (9 ∷ []))
      ∷ [];
}

abbrev superseded_graph : MemGraph plain
superseded_graph = record {
  nodes = superseded_policy ∷ [];
  edges = [];
  last_seq = 0;
  label_kinds = (codes "Policy", node_kind) ∷ [];
}

abbrev superseded_client : MemClient plain
superseded_client = (codes "acme", superseded_graph) ∷ []

policy_passes : check_node policy ≡ none
unfolding eqs check_node check_label check_identifier check_node_properties check_written_properties
    check_property_keys check_keys find_reserved sort match_string reps is_lower is_upper is_digit
    start_class word_class
policy_passes = refl

acme_valid : check_tenant (codes "acme") ≡ none
unfolding check_tenant validate_tenant_id match_string reps is_lower is_digit middle_class end_class
acme_valid = refl

has_graph : lookup (codes "acme") superseded_client ≡ some superseded_graph
unfolding lookup eqs
has_graph = refl

is_node_label : lookup (codes "Policy") superseded_graph.label_kinds ≡ some node_kind
unfolding lookup eqs
is_node_label = refl

is_stored : find_node plain (codes "n1") 0 superseded_graph.nodes ≡ some (0, superseded_policy)
unfolding find_node lookup eqs
is_stored = refl

has_end : lookup (codes "valid_to") superseded_policy.props ≡ some (text (9 ∷ []))
unfolding lookup eqs
has_end = refl

has_start : lookup (codes "valid_from") superseded_policy.props ≡ some (text (2 ∷ []))
unfolding lookup eqs
has_start = refl

upsert_node-keeps_history_example :
    ((upsert_node plain superseded_client (codes "acme") policy).1 ≡ ok false)
    × (g : MemGraph plain) × (new : MemNode plain) × (lookup
          (codes "acme")
          (upsert_node plain superseded_client (codes "acme") policy).0
        ≡ some g)
    × (find_node plain (codes "n1") 0 g.nodes ≡ some (0, new))
    × (lookup (codes "valid_to") new.props ≡ some (text (9 ∷ [])))
    × (lookup (codes "valid_from") new.props ≡ some (text (2 ∷ [])))
upsert_node-keeps_history_example =
    upsert_node-keeps_history plain superseded_client (codes "acme") superseded_graph policy 0
      superseded_policy policy_passes acme_valid has_graph is_node_label is_stored refl
      (text (9 ∷ [])) (text (2 ∷ [])) refl has_end has_start
