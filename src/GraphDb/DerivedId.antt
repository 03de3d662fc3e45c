-- ===== src/GraphDb/DerivedId.antt =====
-- Derived graph IDs: pkg/graphdb/edges.go.
use crosscodex.Prelude.{
  ℕ, ◌≡◌, refl, sym, ap, ◌∙◌, false, List, [], ◌∷◌, ◌++◌, map, All, arith, ◌==◌, if◌then◌else◌,
}
use crosscodex.Prelude.Str.{Str, codes}
use crosscodex.Prelude.Join.{join, split, has_byte, split-join}

-- derivedIDEscaper on one byte: "%" to "%25", "_" to "%5F".
unfoldable pub escape_byte : ℕ → Str
escape_byte c = if c == b'%' then codes "%25" else if c == b'_' then codes "%5F" else c ∷ []

-- strings.NewReplacer("%", "%25", "_", "%5F").Replace
unfoldable pub escape : Str → Str
unfolding escape_byte
escape [] = []
escape (c ∷ s) = escape_byte c ++ escape s

unfoldable pub derived_id : List Str → Str
unfolding escape
derived_id parts = join b'_' (map escape parts)

-- The fields of RequiresEdge that its ID is made of, and EdgeID.
unfoldable pub requires_edge_id : Str → Str → Str → Str
unfolding derived_id
requires_edge_id job_id source_id target_id =
    derived_id (codes "requires" ∷ job_id ∷ source_id ∷ target_id ∷ [])

escape-has_byte : (s : Str) → has_byte b'_' (escape s) ≡ false
unfolding escape has_byte
escape-has_byte [] = refl
escape-has_byte (c ∷ s) = ground (arith, escape-has_byte s)

escape-injective : (s t : Str) → escape s ≡ escape t → s ≡ t
unfolding escape
escape-injective [] [] h = refl
escape-injective [] (d ∷ t) h = ground arith
escape-injective (c ∷ s) [] h = ground arith
escape-injective (c ∷ s) (d ∷ t) h = ground (arith, escape-injective s t)

map-escape-All : (ps : List Str) → All (λ q. has_byte b'_' q ≡ false) (map escape ps)
map-escape-All [] = tt
map-escape-All (p ∷ ps) = (escape-has_byte p, map-escape-All ps)

map-escape_injective : (ps qs : List Str) → map escape ps ≡ map escape qs → ps ≡ qs
map-escape_injective [] [] h = refl
map-escape_injective [] (q ∷ qs) h = cc
map-escape_injective (p ∷ ps) [] h = cc
map-escape_injective (p ∷ ps) (q ∷ qs) h =
    ground (arith, escape-injective p q, map-escape_injective ps qs)

split-derived_id :
    (p : Str) (ps : List Str) → split b'_' (derived_id (p ∷ ps)) ≡ map escape (p ∷ ps)
unfolding derived_id
split-derived_id p ps = split-join b'_' (escape p) (map escape ps) (map-escape-All (p ∷ ps))

-- Two lists of parts, neither empty, with the same derived ID are the same list: distinct parts,
-- also a different number of them, never share an ID, whatever bytes the parts hold.
pub derived_id-injective :
    (p : Str) (ps : List Str) (q : Str) (qs : List Str)
    → derived_id (p ∷ ps) ≡ derived_id (q ∷ qs)
    → p ∷ ps ≡ q ∷ qs
derived_id-injective p ps q qs h =
    map-escape_injective (p ∷ ps) (q ∷ qs)
      (sym (split-derived_id p ps) ∙ ap (split b'_') h ∙ split-derived_id q qs)

-- The same ID is derived from the empty list and from the list of one empty part, which is why the
-- first part of an ID is always a kind.
pub derived_id_empty : derived_id [] ≡ derived_id ([] ∷ [])
unfolding derived_id join
derived_id_empty = refl
