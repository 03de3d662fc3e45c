-- ===== src/Retention/Hold.antt =====
-- Legal and compliance holds: the pure part of pkg/retention/hold.go. The Postgres store of holds
-- (pgHoldStore) is a database client and is left out.
use crosscodex.Prelude.{
  ℕ, ◌≡◌, ◌<◌, ◌↔◌, refl, sym, subst, Bool, true, false, not, ◌&&◌, List, [], ◌∷◌, Option, none,
  some, ltb, arith, In, here, there, if◌then◌else◌, Bool-cases, inl, inr, ◌⊎◌,
}
use crosscodex.Prelude.Str.{Str, eqs, eqs_iff, is_empty}
use crosscodex.Retention.Candidate.{Candidate}

pub record HoldScope : Type 0 where
  pub created_before : Option ℕ
  pub tenant_id : Str
  pub job_id : Str

pub record Hold : Type 0 where
  pub id : Str
  pub name : Str
  pub scope : HoldScope
  pub created_at : ℕ
  pub created_by : Str
  pub expires_at : Option ℕ
  pub released_at : Option ℕ
  pub released_by : Str

abbrev unexpired : Option ℕ → ℕ → Bool
unexpired none now = true
unexpired (some t) now = ltb now t

abbrev active_unless_released : Option ℕ → Bool → Bool
active_unless_released (some t) b = false
active_unless_released none b = b

unfoldable pub active_at : Hold → ℕ → Bool
active_at h now = active_unless_released h.released_at (unexpired h.expires_at now)

abbrev pub before_limit : Option ℕ → ℕ → Bool
before_limit none t = true
before_limit (some limit) t = ltb t limit

unfoldable pub covers : Hold → Candidate → Bool
covers h c =
    if not (before_limit h.scope.created_before c.created_at)
    then false
    else if not (is_empty h.scope.tenant_id) && not (eqs c.tenant_id h.scope.tenant_id)
    then false
    else if not (is_empty h.scope.job_id) && not (eqs c.id h.scope.job_id)
    then false
    else true

-- HoldChecker holds the list that NewHoldChecker is given.
unfoldable pub held : List Hold → Candidate → Bool
held [] c = false
held (h ∷ hs) c = let rest = held hs c in if covers h c then true else rest

-- The documented meaning of a scope: every set field matches, and a limit of the time of creation
-- is exclusive.
pub record InScope (s : HoldScope) (c : Candidate) : Type 0 where
  pub in_time :
      (s.created_before ≡ none)
      ⊎ ((limit : ℕ) × (s.created_before ≡ some limit) × (c.created_at < limit))
  pub in_tenant : (s.tenant_id ≡ []) ⊎ (c.tenant_id ≡ s.tenant_id)
  pub in_job : (s.job_id ≡ []) ⊎ (c.id ≡ s.job_id)

empty-or : (s : Str) → (is_empty s ≡ true → s ≡ [])
empty-or [] h = refl
empty-or (c ∷ s) h = cc

before_limit_sound :
    (o : Option ℕ) (t : ℕ)
    → before_limit o t ≡ true
    → (o ≡ none) ⊎ ((limit : ℕ) × (o ≡ some limit) × (t < limit))
before_limit_sound none t e = inl refl
before_limit_sound (some limit) t e = inr (limit, refl, ground arith)

before_limit_complete :
    (o : Option ℕ) (t : ℕ)
    → (o ≡ none) ⊎ ((limit : ℕ) × (o ≡ some limit) × (t < limit))
    → before_limit o t ≡ true
before_limit_complete none t h = refl
before_limit_complete (some limit) t (inl e) = cc
before_limit_complete (some limit) t (inr (l, e, lt)) = ground arith

covers_sound : (h : Hold) (c : Candidate) → covers h c ≡ true → InScope h.scope c
unfolding covers
covers_sound h c e = record {
  in_time = before_limit_sound h.scope.created_before c.created_at (ground arith);
  in_tenant = ground (arith, eqs_iff c.tenant_id h.scope.tenant_id, empty-or h.scope.tenant_id);
  in_job = ground (arith, eqs_iff c.id h.scope.job_id, empty-or h.scope.job_id);
}

covers_complete : (h : Hold) (c : Candidate) → InScope h.scope c → covers h c ≡ true
unfolding covers
covers_complete h c s = ground (
  arith,
  eqs_iff c.tenant_id h.scope.tenant_id,
  eqs_iff c.id h.scope.job_id,
  before_limit_complete h.scope.created_before c.created_at s.in_time,
)

-- A candidate that is held is in the scope of one of the holds, each of whose set fields it matches.
held_sound :
    (hs : List Hold) (c : Candidate) → held hs c ≡ true → (h : Hold) × In h hs × InScope h.scope c
unfolding held
held_sound [] c e = cc
held_sound (h ∷ hs) c e = elim (Bool-cases (covers h c)) [
  | inl yes_it ↦ (h, here refl, covers_sound h c yes_it)
  | inr not_it ↦ let (g, i, s) = held_sound hs c (rw not_it at e) in (g, there i, s)
]

-- A candidate in the scope of one of the holds is held.
held_complete :
    (hs : List Hold) (c : Candidate) (h : Hold) → In h hs → InScope h.scope c → held hs c ≡ true
unfolding held
held_complete [] c h i s = elim i [ ]
held_complete (g ∷ hs) c h (here e) s =
    rw (covers_complete g c (subst (λ x. InScope x.scope c) (sym e) s)) refl
held_complete (g ∷ hs) c h (there i) s = ground (arith, held_complete hs c h i s)

-- A candidate is held exactly when it is in the scope of one of the holds: it was created before
-- the scope's limit, if there is one, and each set text of the scope is its own.
pub held_iff :
    (hs : List Hold) (c : Candidate)
    → (held hs c ≡ true) ↔ ((h : Hold) × In h hs × InScope h.scope c)
held_iff hs c = (held_sound hs c, λ (h, i, s). held_complete hs c h i s)
