-- ===== src/Analyzer/Registry.antt =====
-- The registry of analyzers: pkg/analyzer/registry.go. Its lock makes each call one step; counters
-- and gauges are left out.
pub mod Names
pub mod Plans
use crosscodex.Prelude.{
  ℕ, ◌+◌, ◌≤◌, ◌≡◌, refl, Bool, true, false, ◌&&◌, ◌||◌, List, [], ◌∷◌, ◌++◌, Option, none, some,
  ◌==◌, if◌then◌else◌, All, All-append, Bool-cases, Option-cases, inl, inr, arith, length,
}
use crosscodex.Prelude.Str.{Str, is_empty, eqs, eqs_iff}
use crosscodex.Prelude.Eq.{str_eq}
use crosscodex.Prelude.Maps.{lookup, insert}
use crosscodex.Prelude.Regexp.{Item, once, is_lower, is_digit, match_string}
use crosscodex.Prelude.Result.{Result, ok, err}
use crosscodex.Prelude.Counting.{count, count-append}
use crosscodex.Analyzer.Dag.{Analyzer, keys}

unfoldable pub name_class : ℕ → Bool
unfolding is_lower is_digit
name_class c = is_lower c || is_digit c || c == b'_' || c == b'-'

unfoldable pub last_class : ℕ → Bool
unfolding is_lower is_digit
last_class c = is_lower c || is_digit c

-- ^[a-z](?:[a-z0-9_-]{0,62}[a-z0-9])?$, without the group and with it.
abbrev pub short_pattern : List Item
short_pattern = once is_lower ∷ []

abbrev pub long_pattern : List Item
long_pattern =
    once is_lower ∷ record { class = name_class; least = 0; most = some 62 } ∷ once last_class ∷ []

pub data RegistryError : Type 0 where
  empty_name malformed_name already_registered not_registered : RegistryError

unfoldable pub validate_name : Str → Option RegistryError
unfolding match_string name_class last_class
validate_name name =
    if is_empty name
    then some empty_name
    else if match_string short_pattern name || match_string long_pattern name
    then none
    else some malformed_name

abbrev pub Registry : Type 0
Registry = List (Str × Analyzer)

abbrev put_new : Analyzer → Registry → Option Analyzer → Result RegistryError Registry
put_new a r none = ok (insert a.name a r)
put_new a r (some b) = err already_registered

abbrev check_and_put : Analyzer → Registry → Option RegistryError → Result RegistryError Registry
check_and_put a r (some e) = err e
check_and_put a r none = put_new a r (lookup a.name r)

-- Register
unfoldable pub register : Analyzer → Registry → Result RegistryError Registry
unfolding validate_name
register a r = check_and_put a r (validate_name a.name)

abbrev found_or_error : Option Analyzer → Result RegistryError Analyzer
found_or_error none = err not_registered
found_or_error (some a) = ok a

unfoldable pub get : Str → Registry → Result RegistryError Analyzer
get name r = found_or_error (lookup name r)

-- All
abbrev pub all {ℓ} : {A : Type ℓ} → List (Str × A) → List A
all [] = []
all ((n, a) ∷ r) = a ∷ all r

-- The registry after a call of Register that may fail.
abbrev pub after_register : Registry → Result RegistryError Registry → Registry
after_register r (ok s) = s
after_register r (err e) = r

-- The registry after calls of Register, whose errors leave it as it is.
unfoldable pub register_all : List Analyzer → Registry → Registry
unfolding register
register_all [] r = r
register_all (a ∷ more) r = register_all more (after_register r (register a r))
