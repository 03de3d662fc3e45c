-- ===== src/Tenant/Rule.antt =====
-- What validate_tenant_id accepts, in the words of IDRule in pkg/tenant/validate.go.
use crosscodex.Prelude.{
  ℕ, zero, suc, ◌+◌, ◌-◌, ◌≤◌, ◌≡◌, refl, ◌↔◌, Bool, true, false, ◌&&◌, ◌||◌, [], ◌∷◌, none, some,
  length, take, arith, ◌==◌,
}
use crosscodex.Prelude.Str.{Str}
use crosscodex.Prelude.Regexp.{once, is_lower, match_string, reps, reps_once, all_bytes, last_is}
use crosscodex.Tenant.{middle_class, end_class, tenant_id_pattern, validate_tenant_id}

end-middle : (c : ℕ) → end_class c ≡ true → middle_class c ≡ true
unfolding end_class middle_class
end-middle c h = ground arith

lower-middle : (c : ℕ) → is_lower c ≡ true → middle_class c ≡ true
unfolding middle_class
lower-middle c h = ground arith

abbrev match_end : Str → Bool
match_end = match_string (once end_class ∷ [])

match_end_nil : match_end [] ≡ false
unfolding match_string
match_end_nil = refl

match_end_one : (c : ℕ) → match_end (c ∷ []) ≡ end_class c
unfolding match_string
match_end_one c = ground arith

match_end_more : (c d : ℕ) (s : Str) → match_end (c ∷ d ∷ s) ≡ false
unfolding match_string
match_end_more c d s = ground arith

module _ (least : ℕ) (k : Str → Bool) where
  reps-nil : (most : ℕ) → reps middle_class least (some most) k [] ≡ (least == 0 && k [])
  unfolding reps
  reps-nil most = refl

  reps_full :
      (c : ℕ) (s : Str) → reps middle_class least (some zero) k (c ∷ s) ≡ (least == 0 && k (c ∷ s))
  unfolding reps
  reps_full c s = ground arith

  reps_step :
      (most c : ℕ) (s : Str)
      → reps middle_class least (some (suc most)) k (c ∷ s) ≡ (
          (least == 0 && k (c ∷ s))
          || (middle_class c && reps middle_class (least - 1) (some most) k s))
  unfolding reps
  reps_step most c s = refl

-- The part of a tenant ID behind its first letter.
tail_iff :
    (least most : ℕ) (s : Str)
    → (reps middle_class least (some most) match_end s ≡ true) ↔ (
        (least + 1 ≤ length s)
        × (length s ≤ most + 1)
        × (all_bytes middle_class s ≡ true)
        × (last_is end_class s ≡ true))
unfolding all_bytes last_is
tail_iff least most [] = ground (arith, reps-nil least match_end most, match_end_nil)
tail_iff least zero (c ∷ []) =
    ground (arith, reps_full least match_end c [], match_end_one c, end-middle c)
tail_iff least (suc most) (c ∷ []) = ground (
  arith,
  reps_step least match_end most c [],
  reps-nil (least - 1) match_end most,
  match_end_one c,
  match_end_nil,
  end-middle c,
)
tail_iff least zero (c ∷ d ∷ s) =
    ground (arith, reps_full least match_end c (d ∷ s), match_end_more c d s)
tail_iff least (suc most) (c ∷ d ∷ s) = ground (
  arith,
  reps_step least match_end most c (d ∷ s),
  match_end_more c d s,
  tail_iff (least - 1) most (d ∷ s),
)

-- The rule in words: 3 to 52 bytes, the first a lower-case letter, the last a lower-case letter or
-- a digit, and every one a lower-case letter, a digit or a hyphen.
pub record IsTenantId (id : Str) : Type 0 where
  pub shortest : 3 ≤ length id
  pub longest : length id ≤ 52
  pub first : last_is is_lower (take 1 id) ≡ true
  pub last : last_is end_class id ≡ true
  pub bytes : all_bytes middle_class id ≡ true

pattern-cons :
    (c : ℕ) (s : Str)
    → match_string tenant_id_pattern (c ∷ s)
      ≡ (is_lower c && reps middle_class 1 (some 50) match_end s)
unfolding match_string
pattern-cons c s = reps_once is_lower (reps middle_class 1 (some 50) match_end) c s

-- A tenant ID is accepted exactly when it keeps the rule that the error message states.
pub validate_tenant_id_iff : (id : Str) → (validate_tenant_id id ≡ none) ↔ IsTenantId id
unfolding validate_tenant_id last_is all_bytes
validate_tenant_id_iff [] = (λ h. cc, λ h. absurd (omega (arith, h.shortest)))
validate_tenant_id_iff (c ∷ []) = ground (arith, pattern-cons c [], tail_iff 1 50 [])
validate_tenant_id_iff (c ∷ d ∷ s) =
    ground (arith, pattern-cons c (d ∷ s), tail_iff 1 50 (d ∷ s), lower-middle c)
