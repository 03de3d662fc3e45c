-- ===== src/Retention/Duration/Exact.antt =====
-- Counts of years and days in ParseRetention: pkg/config/types.go.
use crosscodex.Prelude.{
  ℕ, ◌*◌, ◌%◌, ◌^◌, ◌≡◌, ◌≤◌, ◌<◌, refl, sym, ap, ◌∙◌, Bool, false, List, [], ◌∷◌, ◌++◌, Option,
  none, some, ◌==◌, arith,
}
use crosscodex.Prelude.Str.{Str, codes, eqs, eqs_ne}
use crosscodex.Prelude.Result.{ok}
use crosscodex.Retention.Duration.{
  hour, cut_suffix, atoi, scaled, checked, parse_units, parse_retention,
}

-- The two units that the program counts in.
pub data Span : Type 0 where
  years days : Span

abbrev pub suffix : Span → ℕ
suffix years = b'y'
suffix days = b'd'

abbrev pub span_length : Span → ℕ
span_length years = 365 * 24 * hour
span_length days = 24 * hour

abbrev factors : Span → List ℕ
factors years = 365 ∷ 24 ∷ hour ∷ []
factors days = 24 ∷ hour ∷ []

scaled-span : (u : Span) (n : ℕ) → scaled n (factors u) ≡ n * span_length u % 2 ^ 64
unfolding scaled
scaled-span years n = omega arith
scaled-span days n = omega arith

cut_suffix-append : (b : ℕ) (s : Str) → cut_suffix b (s ++ b ∷ []) ≡ some s
unfolding cut_suffix
cut_suffix-append b [] = ground arith
cut_suffix-append b (c ∷ []) = ground arith
cut_suffix-append b (c ∷ d ∷ s) = ground (arith, cut_suffix-append b (d ∷ s))

cut_suffix-other : (b e : ℕ) (s : Str) → (e == b) ≡ false → cut_suffix b (s ++ e ∷ []) ≡ none
unfolding cut_suffix
cut_suffix-other b e [] h = ground arith
cut_suffix-other b e (c ∷ []) h = ground arith
cut_suffix-other b e (c ∷ d ∷ s) h = ground (arith, cut_suffix-other b e (d ∷ s))

not_indefinite : (u : Span) (s : Str) → eqs (s ++ suffix u ∷ []) (codes "indefinite") ≡ false
unfolding cut_suffix
not_indefinite u s = eqs_ne _ _ λ e.
    let found = sym (cut_suffix-append (suffix u) s) ∙ ap (cut_suffix (suffix u)) e in
    no_suffix u s found
  where
    no_suffix : (u : Span) (s : Str) → some s ≡ cut_suffix (suffix u) (codes "indefinite") → ⊥
    no_suffix years s h = cc
    no_suffix days s h = cc

parse_retention-span :
    (p : Str → Option ℕ) (u : Span) (s : Str)
    → parse_retention p (s ++ suffix u ∷ []) ≡ parse_units (factors u) (atoi s)
unfolding parse_retention
parse_retention-span p years s = rw (not_indefinite years s, cut_suffix-append b'y' s)
parse_retention-span p days s =
    rw (not_indefinite days s, cut_suffix-other b'y' b'd' s (refl), cut_suffix-append b'd' s)

checked-wraps :
    (u : Span) (n : ℕ) → parse_units (factors u) (some n) ≡ checked (n * span_length u % 2 ^ 64)
checked-wraps u n = ap checked (scaled-span u n)

-- A count of years or days whose length in nanoseconds fits an int64 is parsed to that length.
pub parse_retention_exact :
    (p : Str → Option ℕ) (u : Span) (s : Str) (n : ℕ)
    → atoi s ≡ some n
    → n * span_length u < 2 ^ 63
    → parse_retention p (s ++ suffix u ∷ []) ≡ ok (n * span_length u, false)
unfolding checked
parse_retention_exact p u s n h fits =
    parse_retention-span p u s ∙ ap (parse_units (factors u)) h ∙ checked-wraps u n ∙ ground arith

checked-lt : (n d : ℕ) (b : Bool) → checked n ≡ ok (d, b) → (d ≡ n) × (d < 2 ^ 63)
unfolding checked
checked-lt n d b h = ground arith

-- A count, itself an int64, of years or days whose length does not fit an int64 wraps around: when it is accepted,
-- the retention is shorter than asked for.
pub parse_retention_overflow :
    (p : Str → Option ℕ) (u : Span) (s : Str) (n d : ℕ) (b : Bool)
    → atoi s ≡ some n
    → n < 2 ^ 63
    → 2 ^ 63 ≤ n * span_length u
    → parse_retention p (s ++ suffix u ∷ []) ≡ ok (d, b)
    → (d < n * span_length u) × (d ≡ n * span_length u % 2 ^ 64)
parse_retention_overflow p u s n d b h count large out =
    let wrapped : checked (n * span_length u % 2 ^ 64) ≡ ok (d, b) =
      sym (parse_retention-span p u s ∙ ap (parse_units (factors u)) h ∙ checked-wraps u n) ∙ out in
    let (e, small) = checked-lt (n * span_length u % 2 ^ 64) d b wrapped in (omega arith, e)
