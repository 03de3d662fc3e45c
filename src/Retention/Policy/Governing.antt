-- ===== src/Retention/Policy/Governing.antt =====
-- Which retention governs a candidate, told apart from how Expired of pkg/retention/tier.go and
-- RetentionConfig.For of pkg/config/types.go find it.
use crosscodex.Prelude.{
  ℕ, ◌+◌, ◌-◌, ◌<◌, ◌≤◌, lt→ltb, ◌^◌, ◌≡◌, ◌≢◌, ◌↔◌, ◌⊎◌, refl, sym, ap, ◌∙◌, true, false, [], ◌∷◌,
  Option, none, some, arith, Option-cases, Bool-cases, inl, inr,
}
use crosscodex.Prelude.Str.{Str, codes, eqs, eqs_iff, is_empty}
use crosscodex.Prelude.Eq.{str_eq}
use crosscodex.Prelude.Maps.{lookup}
use crosscodex.Prelude.Result.{ok}
use crosscodex.Retention.Duration.{parse_retention}
use crosscodex.Retention.Policy.Expiry.{outlives-true, expired-outlives}
use crosscodex.Retention.Policy.{
  RetentionTiers, RetentionConfig, override, merge_tiers, tiers_for, tier_field, age, expired,
}

-- The classes that a retention can be set for.
pub data Tier : Type 0 where
  of_job_results of_catalogs of_embeddings of_attestation : Tier

abbrev pub class_of : Tier → Str
class_of of_job_results = codes "job_results"
class_of of_catalogs = codes "catalogs"
class_of of_embeddings = codes "embeddings"
class_of of_attestation = codes "attestation"

abbrev pub setting : Tier → RetentionTiers → Str
setting of_job_results t = t.job_results
setting of_catalogs t = t.catalogs
setting of_embeddings t = t.embeddings
setting of_attestation t = t.attestation

-- The text `s` that the settings have for a class of a tenant: the tenant's own, if it has one that
-- is not empty, and that of the defaults otherwise.
abbrev pub Governs : RetentionConfig → Str → Tier → Str → Type 0
Governs cfg tenant_id k s =
    ((own : RetentionTiers) × (lookup tenant_id cfg.tenants ≡ some own)
      × (setting k own ≢ [])
      × (s ≡ setting k own))
    ⊎ ((own : RetentionTiers) × (lookup tenant_id cfg.tenants ≡ some own)
        × (setting k own ≡ [])
        × (s ≡ setting k cfg.defaults))
    ⊎ ((lookup tenant_id cfg.tenants ≡ none) × (s ≡ setting k cfg.defaults))

setting-merge_tiers :
    (k : Tier) (d own : RetentionTiers)
    → setting k (merge_tiers d (some own)) ≡ override (setting k own) (setting k d)
setting-merge_tiers of_job_results d own = refl
setting-merge_tiers of_catalogs d own = refl
setting-merge_tiers of_embeddings d own = refl
setting-merge_tiers of_attestation d own = refl

override-cases :
    (own default : Str)
    → ((own ≢ []) × (override own default ≡ own)) ⊎ ((own ≡ []) × (override own default ≡ default))
override-cases [] default = inr (refl, refl)
override-cases (b ∷ s) default = inl (λ e. cc, refl)

tier_field-setting : (k : Tier) (t : RetentionTiers) → tier_field t (class_of k) ≡ setting k t
unfolding tier_field eqs
tier_field-setting of_job_results t = refl
tier_field-setting of_catalogs t = refl
tier_field-setting of_embeddings t = refl
tier_field-setting of_attestation t = refl

Tier-cases :
    (class : Str) (t : RetentionTiers)
    → ((k : Tier) × (class ≡ class_of k)) ⊎ (tier_field t class ≡ [])
unfolding tier_field
Tier-cases class t = elim (Bool-cases (eqs class (codes "job_results"))) [
  | inl e ↦ inl (of_job_results, (eqs_iff class _).0 e)
  | inr e1 ↦ elim (Bool-cases (eqs class (codes "catalogs"))) [
    | inl e ↦ inl (of_catalogs, (eqs_iff class _).0 e)
    | inr e2 ↦ elim (Bool-cases (eqs class (codes "embeddings"))) [
      | inl e ↦ inl (of_embeddings, (eqs_iff class _).0 e)
      | inr e3 ↦ elim (Bool-cases (eqs class (codes "attestation"))) [
        | inl e ↦ inl (of_attestation, (eqs_iff class _).0 e)
        | inr e4 ↦ inr (rw (e1, e2, e3, e4) refl)
      ]
    ]
  ]
]

module _ (cfg : RetentionConfig) (tenant_id : Str) where
  tiers_for-Governs : (k : Tier) → Governs cfg tenant_id k (setting k (tiers_for cfg tenant_id))
  unfolding tiers_for
  tiers_for-Governs k = elim (Option-cases (lookup tenant_id cfg.tenants)) [
    | inl e ↦ inr (inr (e, ap (λ o. setting k (merge_tiers cfg.defaults o)) e))
    | inr (own, e) ↦
        let merged =
          ap (λ o. setting k (merge_tiers cfg.defaults o)) e
          ∙ setting-merge_tiers k cfg.defaults own in
        elim (override-cases (setting k own) (setting k cfg.defaults)) [
          | inl (set, q) ↦ inl (own, e, set, merged ∙ q)
          | inr (unset, q) ↦ inr (inl (own, e, unset, merged ∙ q))
        ]
  ]

  -- A text that governs is the one that the code finds.
  Governs-tiers_for :
      (k : Tier) (s : Str) → Governs cfg tenant_id k s → s ≡ setting k (tiers_for cfg tenant_id)
  unfolding tiers_for
  Governs-tiers_for k s (inl (own, e, set, q)) =
      elim (override-cases (setting k own) (setting k cfg.defaults)) [
        | inl (_, o) ↦
            q
            ∙ sym o
            ∙ sym (setting-merge_tiers k cfg.defaults own)
            ∙ sym (ap (λ o. setting k (merge_tiers cfg.defaults o)) e)
        | inr (unset, _) ↦ elim (set unset) [ ]
      ]
  Governs-tiers_for k s (inr (inl (own, e, unset, q))) =
      elim (override-cases (setting k own) (setting k cfg.defaults)) [
        | inl (set, _) ↦ elim (set unset) [ ]
        | inr (_, o) ↦
            q
            ∙ sym o
            ∙ sym (setting-merge_tiers k cfg.defaults own)
            ∙ sym (ap (λ o. setting k (merge_tiers cfg.defaults o)) e)
      ]
  Governs-tiers_for k s (inr (inr (e, q))) =
      q ∙ sym (ap (λ o. setting k (merge_tiers cfg.defaults o)) e)

  module _ (p : Str → Option ℕ) (class : Str) (created now : ℕ) where
    -- What a candidate has outlived: a finite retention that governs its class for its tenant. One
    -- of the greatest duration is never outlived, since no age is longer.
    abbrev pub Outlived : Type 0
    Outlived =
        (k : Tier) × (s : Str) × (d : ℕ) × (class ≡ class_of k)
        × Governs cfg tenant_id k s
        × (s ≢ [])
        × (parse_retention p s ≡ ok (d, false))
        × (created + d < now)
        × (d < 2 ^ 63 - 1)

    expired-named :
        expired p cfg class tenant_id created now ≡ true
        → tier_field (tiers_for cfg tenant_id) class ≢ []
    unfolding expired
    expired-named h e = let no : false ≡ true = rw e at h in cc

    age_bounds : (age now created ≤ now - created) × (age now created ≤ 2 ^ 63 - 1)
    unfolding age
    age_bounds = (ground arith, ground arith)

    expired_sound : expired p cfg class tenant_id created now ≡ true → Outlived
    expired_sound h =
        let (d, parsed, older) =
          outlives-true _ _ (expired-outlives p cfg class tenant_id created now h) in
        elim (Tier-cases class (tiers_for cfg tenant_id)) [
          | inr e ↦ elim (expired-named h e) [ ]
          | inl (k, e) ↦
              let found =
                ap (tier_field (tiers_for cfg tenant_id)) e
                ∙ tier_field-setting k (tiers_for cfg tenant_id) in
              (
                k,
                setting k (tiers_for cfg tenant_id),
                d,
                e,
                tiers_for-Governs k,
                (λ q. expired-named h (found ∙ q)),
                sym (ap (parse_retention p) found) ∙ parsed,
                omega (arith, age_bounds),
                omega (arith, age_bounds),
              )
        ]

    outlived : (d : ℕ) → created + d < now → d < 2 ^ 63 - 1 → d < age now created
    unfolding age
    outlived d old short = ground arith

    set_text : (s : Str) → s ≢ [] → is_empty s ≡ false
    set_text [] ne = elim (ne refl) [ ]
    set_text (b ∷ s) ne = refl

    expired_complete : Outlived → expired p cfg class tenant_id created now ≡ true
    unfolding expired
    expired_complete (k, s, d, e, governs, set, parsed, old, short) =
        let found : tier_field (tiers_for cfg tenant_id) class ≡ s =
          ap (tier_field (tiers_for cfg tenant_id)) e
          ∙ tier_field-setting k (tiers_for cfg tenant_id)
          ∙ sym (Governs-tiers_for k s governs) in
        rw (found, set_text s set, parsed) (lt→ltb _ _ (outlived d old short))

    -- A candidate is expired exactly when it has outlived a retention: when a text governs its class
    -- for its tenant, the tenant's own if that is set and not empty and the default otherwise, this
    -- text is not empty and parses to a finite retention, which is less than the greatest duration
    -- and shorter than the time since the candidate was created.
    pub expired_iff : (expired p cfg class tenant_id created now ≡ true) ↔ Outlived
    expired_iff = (expired_sound, expired_complete)
