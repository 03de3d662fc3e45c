-- ===== src/Analysis/Collector/Publications.antt =====
-- What a collection publishes, and in which order: internal/analysis/collector.go and types.go.
use crosscodex.Prelude.{
  ℕ, suc, ◌+◌, ◌≡◌, ap, Bool, true, false, not, List, [], ◌∷◌, ◌++◌, arith, if◌then◌else◌,
}
use crosscodex.Prelude.Str.{Str, eqs}
use crosscodex.Prelude.Eq.{str_eq}
use crosscodex.Analysis.Collector.{Task, Publication, redispatched, abandoned}
use crosscodex.Analysis.Collector.Steps.{Takes, first, later}

abbrev pub has_abandon : List Publication → Bool
has_abandon [] = false
has_abandon (redispatched k n ∷ ps) = has_abandon ps
has_abandon (abandoned ∷ ps) = true

-- Of publications, the newest first, none comes after an abandon.
abbrev pub abandon_is_last : List Publication → Bool
abandon_is_last [] = true
abandon_is_last (p ∷ ps) = not (has_abandon ps)

-- How often the task was published again.
abbrev pub redispatches : Str → List Publication → ℕ
redispatches id [] = 0
redispatches id (redispatched k n ∷ ps) =
    let rest = redispatches id ps in if eqs k.task_id id then suc rest else rest
redispatches id (abandoned ∷ ps) = redispatches id ps

-- How many retries of the task are in their backoff.
abbrev pub backing_off : Str → List (Task × ℕ) → ℕ
backing_off id [] = 0
backing_off id ((k, n) ∷ ws) =
    let rest = backing_off id ws in if eqs k.task_id id then suc rest else rest

pub backing_off-append :
    (id : Str) (xs ys : List (Task × ℕ))
    → backing_off id (xs ++ ys) ≡ backing_off id xs + backing_off id ys
backing_off-append id [] ys = omega arith
backing_off-append id ((k, n) ∷ xs) ys = ground (arith, backing_off-append id xs ys)

pub backing_off-Takes :
    (id : Str) (k : Task) (n : ℕ) {xs rest : List (Task × ℕ)}
    → Takes (k, n) xs rest
    → backing_off id xs
      ≡ (if eqs k.task_id id then suc (backing_off id rest) else backing_off id rest)
backing_off-Takes id k n (first {xs = xs} e) = ap (λ w. backing_off id (w ∷ xs)) e
backing_off-Takes id k n (later {y = (j, m)} t) = ground (arith, backing_off-Takes id k n t)
