-- ===== src/GraphDb/Checks/Rule.antt =====
-- What the checks of pkg/graphdb/identifier.go accept, in the words of their error messages.
use crosscodex.Prelude.{
  ℕ, ◌≤◌, ◌≡◌, ◌≢◌, refl, subst, Option-cases, ◌↔◌, inl, inr, Bool, true, false, ◌&&◌, List, [],
  ◌∷◌, Option, none, some, ◌==◌, length, take, arith, In, here, there,
}
use crosscodex.Prelude.Str.{Str, codes, eqs_iff, is_empty}
use crosscodex.Prelude.Regexp.{match_string, reps, reps_once, all_bytes, last_is}
use crosscodex.Prelude.Sort.{sort, sort-In, In-sort}
use crosscodex.Prelude.Eq.{str_eq}
use crosscodex.Prelude.Maps.{lookup}
use crosscodex.GraphDb.Types.{Node}
use crosscodex.GraphDb.Checks.{
  start_class, word_class, identifier_pattern, check_identifier, check_label, then_check,
  check_keys, keys_of, check_property_keys, find_reserved, check_written_properties,
  reserved_node_keys, check_node_properties, check_node, reserved_label_prefix, require, CheckError,
}

-- Letters, digits and underscores, not starting with a digit.
pub record IsIdentifier (s : Str) : Type 0 where
  pub first : last_is start_class (take 1 s) ≡ true
  pub bytes : all_bytes word_class s ≡ true

-- An identifier that PostgreSQL keeps whole and that names no internal table of Apache AGE.
pub record IsLabel (s : Str) : Type 0 where
  pub identifier : IsIdentifier s
  pub free : take 4 s ≢ reserved_label_prefix
  pub fits : length s ≤ 63

start-word : (c : ℕ) → start_class c ≡ true → word_class c ≡ true
unfolding word_class
start-word c h = ground arith

abbrev at_end : Str → Bool
at_end = match_string []

words_nil : reps word_class 0 none at_end [] ≡ true
unfolding reps match_string
words_nil = refl

words_cons :
    (c : ℕ) (s : Str)
    → reps word_class 0 none at_end (c ∷ s) ≡ (word_class c && reps word_class 0 none at_end s)
unfolding reps match_string
words_cons c s = ground arith

words_bytes : (s : Str) → reps word_class 0 none at_end s ≡ all_bytes word_class s
unfolding all_bytes
words_bytes [] = words_nil
words_bytes (c ∷ s) = ground (arith, words_cons c s, words_bytes s)

pattern-cons :
    (c : ℕ) (s : Str)
    → match_string identifier_pattern (c ∷ s) ≡ (start_class c && all_bytes word_class s)
unfolding match_string
pattern-cons c s =
    ground (arith, reps_once start_class (reps word_class 0 none at_end) c s, words_bytes s)

pattern-nil : match_string identifier_pattern [] ≡ false
unfolding match_string reps
pattern-nil = refl

check_identifier_iff : (kind s : Str) → (check_identifier kind s ≡ none) ↔ IsIdentifier s
unfolding check_identifier last_is all_bytes
check_identifier_iff kind [] = ground (arith, pattern-nil)
check_identifier_iff kind (c ∷ s) = ground (arith, pattern-cons c s, start-word c)

-- A label is accepted exactly when it is an identifier of at most 63 bytes that does not start with
-- "_ag_", whatever field it is given in.
pub check_label_iff : (kind s : Str) → (check_label kind s ≡ none) ↔ IsLabel s
unfolding check_label
check_label_iff kind s =
    ground (arith, check_identifier_iff kind s, eqs_iff (take 4 s) reserved_label_prefix)

then_check_iff : (c d : Option CheckError) → (then_check c d ≡ none) ↔ ((c ≡ none) × (d ≡ none))
then_check_iff none d = ground arith
then_check_iff (some e) d = ground arith

require_iff : (b : Bool) (what : Str) → (require b what ≡ none) ↔ (b ≡ false)
require_iff true what = ground arith
require_iff false what = ground arith

check_keys_sound : (ks : List Str) → check_keys ks ≡ none → (k : Str) → In k ks → IsIdentifier k
unfolding check_keys
check_keys_sound [] h k i = elim i [ ]
check_keys_sound (j ∷ ks) h k (here e) = (check_identifier_iff (codes "property key") k).0 (
    subst (λ x. check_identifier (codes "property key") x ≡ none) e
      ((then_check_iff (check_identifier (codes "property key") j) (check_keys ks)).0 h).0)
check_keys_sound (j ∷ ks) h k (there i) =
    check_keys_sound ks
      ((then_check_iff (check_identifier (codes "property key") j) (check_keys ks)).0 h).1 k i

check_keys_complete :
    (ks : List Str) → ((k : Str) → In k ks → IsIdentifier k) → check_keys ks ≡ none
unfolding check_keys
check_keys_complete [] h = refl
check_keys_complete (j ∷ ks) h =
    (then_check_iff (check_identifier (codes "property key") j) (check_keys ks)).1 (
      (check_identifier_iff (codes "property key") j).1 (h j (here refl)),
      check_keys_complete ks (λ k i. h k (there i)),
    )

none-some : {A B : Type 0} {a : A} → some a ≡ none → B
none-some h = cc

find_reserved_sound :
    (res : List (Str × Str)) (ks : List Str)
    → find_reserved res ks ≡ none
    → (k : Str) → In k ks
    → lookup k res ≡ none
unfolding find_reserved
find_reserved_sound res [] h k i = elim i [ ]
find_reserved_sound res (j ∷ ks) h k i = elim (Option-cases (lookup j res)) [
  | inl e ↦ elim i [
    | here q ↦ subst (λ x. lookup x res ≡ none) q e
    | there i' ↦ find_reserved_sound res ks (rw (e, find_reserved) at h) k i'
  ]
  | inr (f, e) ↦ none-some (rw (e, find_reserved) at h)
]

find_reserved_complete :
    (res : List (Str × Str)) (ks : List Str)
    → ((k : Str) → In k ks → lookup k res ≡ none)
    → find_reserved res ks ≡ none
unfolding find_reserved
find_reserved_complete res [] h = refl
find_reserved_complete res (j ∷ ks) h =
    rw (h j (here refl), find_reserved) (find_reserved_complete res ks (λ k i. h k (there i)))

-- Each property key is an identifier that the driver does not write itself.
abbrev pub KeysFree : {V : Type 0} → List (Str × Str) → List (Str × V) → Type 0
KeysFree reserved props =
    (k : Str) → In k (keys_of props) → IsIdentifier k × (lookup k reserved ≡ none)

label-nonempty : (s : Str) → IsLabel s → is_empty s ≡ false
unfolding last_is
label-nonempty [] h = absurd (cc (h.identifier.first))
label-nonempty (c ∷ s) h = refl

module _ {V : Type 0} where
  check_written_properties_iff :
      (props : List (Str × V)) (reserved : List (Str × Str))
      → (check_written_properties props reserved ≡ none) ↔ KeysFree reserved props
  unfolding check_written_properties check_property_keys
  check_written_properties_iff props reserved =
      let ks = sort (keys_of props) in
      let both = then_check_iff (check_keys ks) (find_reserved reserved ks) in
      (
        λ h k i. (
          check_keys_sound ks (both.0 h).0 k (sort-In (keys_of props) i),
          find_reserved_sound reserved ks (both.0 h).1 k (sort-In (keys_of props) i),
        ),
        λ h. both.1 (
          check_keys_complete ks (λ k i. (h k (In-sort (keys_of props) i)).0),
          find_reserved_complete reserved ks (λ k i. (h k (In-sort (keys_of props) i)).1),
        ),
      )

  -- What a node needs to be written.
  pub record IsWritable (n : Node V) : Type 0 where
    pub named : is_empty n.id ≡ false
    pub labelled : IsLabel n.label
    pub keys : KeysFree reserved_node_keys n.properties
    pub dated : (n.valid_from == 0) ≡ false

  -- A node passes the check of the writing operations exactly when it has an ID, a label of the
  -- accepted form and a valid_from, and all its property keys are identifiers that the driver does
  -- not write itself.
  pub check_node_iff : (n : Node V) → (check_node n ≡ none) ↔ IsWritable n
  unfolding check_node check_node_properties
  check_node_iff n = ground (
    arith,
    check_written_properties_iff n.properties reserved_node_keys,
    check_label_iff (codes "label") n.label,
    label-nonempty n.label,
  )
