-- ===== src/GraphDb/Checks.antt =====
-- The checks that every driver of the graph database makes: pkg/graphdb/identifier.go.
pub mod Rule
use crosscodex.Prelude.{
  ℕ, ◌≡◌, refl, Bool, true, false, ◌&&◌, ◌||◌, List, [], ◌∷◌, Option, none, some, ltb, ◌==◌,
  if◌then◌else◌, take, length,
}
use crosscodex.Prelude.Str.{Str, codes, eqs, is_empty}
use crosscodex.Prelude.Eq.{str_eq}
use crosscodex.Prelude.Maps.{lookup}
use crosscodex.Prelude.Sort.{sort}
use crosscodex.Prelude.Regexp.{Item, once, is_lower, is_upper, is_digit, match_string}
use crosscodex.GraphDb.Types.{Node, Edge, RelationshipQuery, RequiresEdge, SupersedeRequest}
use crosscodex.Tenant.{InvalidTenant, validate_tenant_id}

-- The first three and reserved_property wrap ErrInvalidCypher.
pub data CheckError : Type 0 where
  not_identifier reserved_prefix : (kind s : Str) → CheckError
  too_long : (kind s : Str) → ℕ → CheckError
  reserved_property : (key field : Str) → CheckError
  required : (what : Str) → CheckError
  both_set : CheckError

unfoldable pub start_class : ℕ → Bool
start_class c = is_upper c || is_lower c || c == b'_'

unfoldable pub word_class : ℕ → Bool
word_class c = start_class c || is_digit c

-- ^[A-Za-z_][A-Za-z0-9_]*$
abbrev pub identifier_pattern : List Item
identifier_pattern = once start_class ∷ record { class = word_class; least = 0; most = none } ∷ []

unfoldable pub check_identifier : Str → Str → Option CheckError
check_identifier kind s =
    if match_string identifier_pattern s then none else some (not_identifier kind s)

abbrev pub max_label_bytes : ℕ
max_label_bytes = 63

abbrev pub reserved_label_prefix : Str
reserved_label_prefix = codes "_ag_"

abbrev pub check_label_rest : Str → Str → Option CheckError
check_label_rest kind s =
    if eqs (take 4 s) reserved_label_prefix
    then some (reserved_prefix kind s)
    else if ltb max_label_bytes (length s)
    then some (too_long kind s (length s))
    else none

-- `if err := first; err != nil { return err }` in front of other checks.
abbrev pub then_check : Option CheckError → Option CheckError → Option CheckError
then_check none next = next
then_check (some e) next = some e

unfoldable pub check_label : Str → Str → Option CheckError
check_label kind s = then_check (check_identifier kind s) (check_label_rest kind s)

unfoldable pub check_keys : List Str → Option CheckError
check_keys [] = none
check_keys (k ∷ ks) = then_check (check_identifier (codes "property key") k) (check_keys ks)

abbrev pub keys_of : {V : Type 0} → List (Str × V) → List Str
keys_of [] = []
keys_of ((k, v) ∷ m) = k ∷ keys_of m

unfoldable pub check_property_keys : {V : Type 0} → List (Str × V) → Option CheckError
check_property_keys props = check_keys (sort (keys_of props))

-- The labels of a query may be left empty.
abbrev pub check_label_set : Str → Str → Option CheckError
check_label_set kind s = if is_empty s then none else check_label kind s

unfoldable pub check_relationship_query : {V : Type 0} → RelationshipQuery V → Option CheckError
check_relationship_query q = then_check (check_label_set (codes "source label") q.source_label) (
    then_check (check_label_set (codes "target label") q.target_label) (
      then_check (check_label_set (codes "edge label") q.edge_label)
        (check_property_keys q.properties)))

abbrev supersede_field : Str
supersede_field = codes "SupersedeRequest.SupersededByJobID (via SupersedeFact)"

abbrev pub reserved_node_keys : List (Str × Str)
reserved_node_keys =
    (codes "id", codes "Node.ID")
    ∷ (codes "valid_from", codes "Node.ValidFrom")
    ∷ (codes "valid_to", codes "Node.ValidTo")
    ∷ (codes "created_by", codes "Node.CreatedBy")
    ∷ (codes "creation_method", codes "Node.CreationMethod")
    ∷ (codes "superseded_by", supersede_field)
    ∷ []

abbrev pub reserved_edge_keys : List (Str × Str)
reserved_edge_keys =
    (codes "id", codes "Edge.ID")
    ∷ (codes "valid_from", codes "Edge.ValidFrom")
    ∷ (codes "valid_to", codes "Edge.ValidTo")
    ∷ (codes "determined_by", codes "Edge.DeterminedBy")
    ∷ (codes "determination_type", codes "Edge.DeterminationType")
    ∷ (codes "confidence", codes "Edge.Confidence")
    ∷ (codes "supersedes", codes "Edge.Supersedes")
    ∷ (codes "superseded_by", supersede_field)
    ∷ []

unfoldable pub find_reserved : List (Str × Str) → List Str → Option CheckError
find_reserved reserved [] = none
find_reserved reserved (k ∷ ks) = elim (lookup k reserved) [
  | some field ↦ some (reserved_property k field)
  | none ↦ find_reserved reserved ks
]

unfoldable pub check_written_properties :
    {V : Type 0} → List (Str × V) → List (Str × Str) → Option CheckError
check_written_properties props reserved =
    then_check (check_property_keys props) (find_reserved reserved (sort (keys_of props)))

unfoldable pub check_node_properties : {V : Type 0} → List (Str × V) → Option CheckError
check_node_properties props = check_written_properties props reserved_node_keys

unfoldable pub check_edge_properties : {V : Type 0} → List (Str × V) → Option CheckError
check_edge_properties props = check_written_properties props reserved_edge_keys

abbrev pub require : Bool → Str → Option CheckError
require missing what = if missing then some (required what) else none

unfoldable pub check_node : {V : Type 0} → Node V → Option CheckError
check_node n = then_check (require (is_empty n.id) (codes "id")) (
    then_check (require (is_empty n.label) (codes "label")) (
      then_check (check_label (codes "label") n.label) (
        then_check (check_node_properties n.properties)
          (require (n.valid_from == 0) (codes "valid_from")))))

unfoldable pub check_edge : {V F : Type 0} → Str → Str → Edge V F → Option CheckError
check_edge source_id target_id e = then_check (require (is_empty e.label) (codes "label")) (
    then_check (check_label (codes "label") e.label) (
      then_check (check_edge_properties e.properties) (
        then_check (require (is_empty source_id || is_empty target_id) (codes "source and target"))
          (require (e.valid_from == 0) (codes "valid_from")))))

unfoldable pub check_supersede_request : SupersedeRequest → Option CheckError
check_supersede_request req =
    then_check (require (is_empty req.node_id && is_empty req.edge_id) (codes "node_id or edge_id"))
      (if is_empty req.node_id || is_empty req.edge_id
        then require (req.superseded_at == 0) (codes "superseded_at")
        else some both_set)

unfoldable pub check_requires_edge : {I F : Type 0} → RequiresEdge I F → Option CheckError
check_requires_edge e = then_check (require (is_empty e.source_id) (codes "source_id")) (
    then_check (require (is_empty e.target_id) (codes "target_id"))
      (require (e.analyzed_at == 0) (codes "analyzed_at")))

-- ErrTenantRequired alone, or invalidTenantError with its cause.
pub data TenantError : Type 0 where
  tenant_required : TenantError
  invalid_tenant : InvalidTenant → TenantError

abbrev invalid_of : Option InvalidTenant → Option TenantError
invalid_of none = none
invalid_of (some cause) = some (invalid_tenant cause)

unfoldable pub check_tenant : Str → Option TenantError
check_tenant id = if is_empty id then some tenant_required else invalid_of (validate_tenant_id id)
