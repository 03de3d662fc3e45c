-- ===== src/Tenant.antt =====
-- Tenant IDs: pkg/tenant/validate.go.
pub mod Rule
use crosscodex.Prelude.{
  ℕ, ◌≡◌, refl, Bool, ◌&&◌, ◌||◌, List, [], ◌∷◌, Option, none, some, ◌==◌, if◌then◌else◌,
}
use crosscodex.Prelude.Str.{Str, codes, is_empty}
use crosscodex.Prelude.Regexp.{Item, once, is_lower, is_digit, match_string}

unfoldable pub middle_class : ℕ → Bool
unfolding is_lower is_digit
middle_class c = is_lower c || is_digit c || c == b'-'

unfoldable pub end_class : ℕ → Bool
unfolding is_lower is_digit
end_class c = is_lower c || is_digit c

-- ^[a-z][a-z0-9-]{1,50}[a-z0-9]$
abbrev pub tenant_id_pattern : List Item
tenant_id_pattern =
    once is_lower ∷ record { class = middle_class; least = 1; most = some 50 } ∷ once end_class ∷ []

-- The errors all wrap ErrInvalidTenant.
pub data InvalidTenant : Type 0 where
  empty_id malformed_id : InvalidTenant

unfoldable pub validate_tenant_id : Str → Option InvalidTenant
unfolding match_string middle_class end_class
validate_tenant_id id =
    if is_empty id
    then some empty_id
    else if match_string tenant_id_pattern id
    then none
    else some malformed_id
