-- ===== src/GraphDb/MemDriver/Nodes/Merge.antt =====
-- The history of a node that UpsertNode of pkg/graphdb/memdriver/client.go writes again.
use crosscodex.Prelude.{ℕ, ◌≡◌, refl, ap, ◌∙◌, true, false, Option, none, some, if◌then◌else◌}
use crosscodex.Prelude.Str.{Str, codes, eqs}
use crosscodex.Prelude.Eq.{str_eq}
use crosscodex.Prelude.Maps.{lookup, insert, lookup-insert}
use crosscodex.GraphDb.Types.{Node}
use crosscodex.GraphDb.MemDriver.Props.{Formats, Given, Value, Props, node_props}
use crosscodex.GraphDb.MemDriver.Nodes.{merged_props, keep_supersession, keep_if_set, value_or_null}

module _ (fmt : Formats) where
  insert-other :
      (k j : Str) (v : Value fmt) (props : Props fmt)
      → eqs k j ≡ false
      → lookup j (insert k v props) ≡ lookup j props
  insert-other k j v props h =
      lookup-insert k j v props ∙ ap (λ b. if b then some v else lookup j props) h

  insert-same :
      (k : Str) (v : Value fmt) (props : Props fmt)
      → eqs k k ≡ true
      → lookup k (insert k v props) ≡ some v
  insert-same k v props h =
      lookup-insert k k v props ∙ ap (λ b. if b then some v else lookup k props) h

  keep_if_set-other :
      (k j : Str) (o : Option (Value fmt)) (props : Props fmt)
      → eqs k j ≡ false
      → lookup j (keep_if_set fmt k o props) ≡ lookup j props
  keep_if_set-other k j none props h = refl
  keep_if_set-other k j (some v) props h = insert-other k j v props h

  keep_if_set-same :
      (k : Str) (o : Option (Value fmt)) {v : Value fmt} (props : Props fmt)
      → eqs k k ≡ true
      → o ≡ some v
      → lookup k (keep_if_set fmt k o props) ≡ some v
  keep_if_set-same k none props h e = cc
  keep_if_set-same k (some w) props h e = insert-same k w props h ∙ e

  keep_supersession-from :
      (t : Option ℕ) (old props : Props fmt)
      → lookup (codes "valid_from") (keep_supersession fmt t old props)
        ≡ lookup (codes "valid_from") props
  unfolding eqs
  keep_supersession-from (some t) old props = refl
  keep_supersession-from none old props =
      keep_if_set-other (codes "superseded_by") (codes "valid_from") _ _ refl
      ∙ keep_if_set-other (codes "valid_to") (codes "valid_from") _ props refl

  -- An upsert without a valid_to, of a stored node that has one, keeps the stored valid_to and the
  -- stored valid_from, which may be nil: it never brings a superseded node back into force, nor
  -- changes since when it was.
  pub merged_props_history :
      (n : Node (Given fmt)) (old : Props fmt) (v : Value fmt)
      → n.valid_to ≡ none
      → lookup (codes "valid_to") old ≡ some v
      → (lookup (codes "valid_to") (merged_props fmt n old) ≡ some v)
        × (lookup (codes "valid_from") (merged_props fmt n old)
            ≡ some (value_or_null fmt (lookup (codes "valid_from") old)))
  unfolding merged_props eqs
  merged_props_history n old v unset stored = (
    rw unset (
        keep_if_set-other (codes "superseded_by") (codes "valid_to") _ _ refl
        ∙ keep_if_set-same (codes "valid_to") _ _ refl stored),
    keep_supersession-from n.valid_to old _
        ∙ insert-same (codes "valid_from") _ (node_props fmt n) refl,
  )
