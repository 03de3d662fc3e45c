-- ===== src/Retention/Duration.antt =====
-- ParseRetention: pkg/config/types.go. A time.Duration is an int64, held as its two's complement
-- pattern, a number below 2 ^ 64. time.ParseDuration is the parameter `parse_duration`.
pub mod Exact
use crosscodex.Prelude.{
  ℕ, zero, suc, ◌+◌, ◌-◌, ◌*◌, ◌%◌, ◌^◌, ◌≡◌, refl, Bool, true, false, ◌&&◌, List, [], ◌∷◌, ◌++◌,
  Option, none, some, ltb, leb, ◌==◌, if◌then◌else◌,
}
use crosscodex.Prelude.Str.{Str, codes, eqs}
use crosscodex.Prelude.Result.{Result, ok, err}

-- Every error wraps ErrInvalidConfig.
pub data RetentionError : Type 0 where
  not_a_number negative_duration not_a_duration : RetentionError

-- An int64 is negative when its top bit is set.
unfoldable pub is_negative : ℕ → Bool
is_negative d = leb (2 ^ 63) d

abbrev pub hour : ℕ
hour = 3600000000000

-- strings.CutSuffix with a suffix of one byte
unfoldable pub cut_suffix : ℕ → Str → Option Str
cut_suffix b [] = none
cut_suffix b (c ∷ []) = if c == b then some [] else none
cut_suffix b (c ∷ d ∷ s) = elim (cut_suffix b (d ∷ s)) [ none ↦ none | some r ↦ some (c ∷ r) ]

is_decimal : ℕ → Bool
is_decimal c = leb b'0' c && leb c b'9'

-- The value of decimal digits, and none if another byte is among them.
unfoldable pub digits_value : ℕ → Str → Option ℕ
unfolding is_decimal
digits_value acc [] = some acc
digits_value acc (c ∷ s) =
    let rest = digits_value (acc * 10 + (c - b'0')) s in if is_decimal c then rest else none

abbrev nonempty_digits : Str → Option ℕ
nonempty_digits [] = none
nonempty_digits (c ∷ s) = digits_value 0 (c ∷ s)

abbrev in_range_pos : Option ℕ → Option ℕ
in_range_pos none = none
in_range_pos (some n) = if ltb n (2 ^ 63) then some n else none

abbrev in_range_neg : Option ℕ → Option ℕ
in_range_neg none = none
in_range_neg (some n) = if leb n (2 ^ 63) then some ((2 ^ 64 - n) % 2 ^ 64) else none

-- strconv.Atoi: an optional sign and decimal digits, refused outside the int64 range.
unfoldable pub atoi : Str → Option ℕ
unfolding digits_value
atoi [] = none
atoi (c ∷ s) =
    if c == b'+'
    then in_range_pos (nonempty_digits s)
    else if c == b'-'
    then in_range_neg (nonempty_digits s)
    else in_range_pos (digits_value 0 (c ∷ s))

-- The product wraps around after each factor.
unfoldable pub scaled : ℕ → List ℕ → ℕ
scaled n [] = n
scaled n (k ∷ ks) = scaled (n * k % 2 ^ 64) ks

-- A non-negative duration, not indefinite.
unfoldable pub checked : ℕ → Result RetentionError (ℕ × Bool)
unfolding is_negative
checked d = if is_negative d then err negative_duration else ok (d, false)

abbrev pub parse_units : List ℕ → Option ℕ → Result RetentionError (ℕ × Bool)
parse_units factors none = err not_a_number
parse_units factors (some n) = checked (scaled n factors)

module _ (parse_duration : Str → Option ℕ) where
  abbrev parse_go_duration : Option ℕ → Result RetentionError (ℕ × Bool)
  parse_go_duration none = err not_a_duration
  parse_go_duration (some d) = checked d

  abbrev parse_days : Str → Option Str → Result RetentionError (ℕ × Bool)
  parse_days s none = parse_go_duration (parse_duration s)
  parse_days s (some rest) = parse_units (24 ∷ hour ∷ []) (atoi rest)

  abbrev parse_years : Str → Option Str → Result RetentionError (ℕ × Bool)
  parse_years s none = parse_days s (cut_suffix b'd' s)
  parse_years s (some rest) = parse_units (365 ∷ 24 ∷ hour ∷ []) (atoi rest)

  -- The duration, and whether the retention is indefinite.
  unfoldable pub parse_retention : Str → Result RetentionError (ℕ × Bool)
  unfolding cut_suffix atoi scaled checked
  parse_retention s =
      if eqs s (codes "indefinite") then ok (0, true) else parse_years s (cut_suffix b'y' s)
