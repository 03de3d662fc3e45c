-- ===== src/Retention/Policy/Expiry.antt =====
-- Expired of pkg/retention/tier.go, as to the age of a candidate.
use crosscodex.Prelude.{ℕ, ◌≤◌, ◌<◌, ◌≡◌, refl, Bool, true, false, Option, arith}
use crosscodex.Prelude.Str.{Str}
use crosscodex.Prelude.Result.{Result, ok, err}
use crosscodex.Retention.Duration.{RetentionError, parse_retention}
use crosscodex.Retention.Policy.{RetentionConfig, tiers_for, tier_field, age, outlives, expired}

pub outlives-true :
    (a : ℕ) (r : Result RetentionError (ℕ × Bool))
    → outlives a r ≡ true
    → (d : ℕ) × (r ≡ ok (d, false)) × (d < a)
outlives-true a (err e) h = cc
outlives-true a (ok (d, true)) h = cc
outlives-true a (ok (d, false)) h = (d, refl, ground arith)

age_mono : (now later created : ℕ) → now ≤ later → age now created ≤ age later created
unfolding age
age_mono now later created h = ground arith

outlives_mono :
    (a b : ℕ) (r : Result RetentionError (ℕ × Bool))
    → a ≤ b
    → outlives a r ≡ true
    → outlives b r ≡ true
outlives_mono a b (err e) le h = cc
outlives_mono a b (ok (d, true)) le h = cc
outlives_mono a b (ok (d, false)) le h = ground arith

module _ (p : Str → Option ℕ) (cfg : RetentionConfig) (class tenant_id : Str) where
  pub expired-outlives :
      (created now : ℕ)
      → expired p cfg class tenant_id created now ≡ true
      → outlives (age now created) (parse_retention p (tier_field (tiers_for cfg tenant_id) class))
        ≡ true
  unfolding expired
  expired-outlives created now h = ground arith

  -- Once expired, a candidate stays expired.
  expired_monotone :
      (created now later : ℕ)
      → now ≤ later
      → expired p cfg class tenant_id created now ≡ true
      → expired p cfg class tenant_id created later ≡ true
  unfolding expired
  expired_monotone created now later le h = ground (
    arith,
    outlives_mono (age now created) (age later created)
        (parse_retention p (tier_field (tiers_for cfg tenant_id) class)),
    age_mono now later created,
  )
